-- ===== src/Bencode/Number.antt =====
-- Decimal numbers as text: `ParseInt`, `Atoi` and `FormatInt` of Go's strconv for base 10 and 64 bits,
-- with one kind of failure.
use go_torrent.Base.{
  ℕ, zero, suc, ◌+◌, ◌-◌, ◌*◌, ◌/◌, ◌%◌, ◌≤◌, ◌<◌, ◌≡◌, refl, ap, ◌∙◌, inl, inr, Bool, true, false,
  ◌&&◌, Option, none, some, [], ◌∷◌, ◌++◌, arith, ltb, leb, ◌==◌, if◌then◌else◌, Bool-cases, length,
  All, length-append, All-append, ℤ, pos, negsuc,
}
use go_torrent.Bytes.{Bytes}

abbrev pub minus : ℕ
minus = 45

abbrev pub plus : ℕ
plus = 43

abbrev pub digit_zero : ℕ
digit_zero = 48

abbrev pub is_digit : ℕ → Bool
is_digit c = leb 48 c && leb c 57

-- Fuel as large as the number is enough.
unfoldable pub digits_upto : ℕ → ℕ → Bytes
digits_upto zero n = []
digits_upto (suc fuel) n =
    let rest = digits_upto fuel (n / 10) in
    if ltb n 10 then (48 + n) ∷ [] else rest ++ ((48 + n % 10) ∷ [])

unfoldable pub format_nat : ℕ → Bytes
format_nat n = digits_upto (suc n) n

unfoldable pub format_int : ℤ → Bytes
format_int (pos n) = format_nat n
format_int (negsuc n) = minus ∷ format_nat (suc n)

unfoldable pub parse_digits : ℕ → Bytes → Option ℕ
parse_digits acc [] = some acc
parse_digits acc (c ∷ cs) =
    let rest = parse_digits (acc * 10 + (c - 48)) cs in if is_digit c then rest else none

unfoldable pub parse_nat : Bytes → Option ℕ
parse_nat [] = none
parse_nat (c ∷ cs) = parse_digits 0 (c ∷ cs)

abbrev pub in_range : Option ℕ → Option ℤ
in_range none = none
in_range (some n) = if ltb n 9223372036854775808 then some (pos n) else none

abbrev pub negated : Option ℕ → Option ℤ
negated none = none
negated (some zero) = some (pos 0)
negated (some (suc n)) = if ltb n 9223372036854775808 then some (negsuc n) else none

unfoldable pub parse_int : Bytes → Option ℤ
parse_int [] = none
parse_int (c ∷ cs) =
    if c == minus
    then negated (parse_nat cs)
    else if c == plus
    then in_range (parse_nat cs)
    else in_range (parse_nat (c ∷ cs))

abbrev pub IsDigits : Bytes → Type 0
IsDigits cs = All (λ c. is_digit c ≡ true) cs

digits_upto-IsDigits : (fuel n : ℕ) → IsDigits (digits_upto fuel n)
unfolding digits_upto
digits_upto-IsDigits zero n = tt
digits_upto-IsDigits (suc fuel) n = elim (Bool-cases (ltb n 10)) [
  | inl e ↦ rw e (ground arith, tt)
  | inr e ↦ rw e (
      All-append (λ c. is_digit c ≡ true) (digits_upto fuel (n / 10)) _
        (digits_upto-IsDigits fuel (n / 10)) (ground arith, tt))
]

pub format_nat-IsDigits : (n : ℕ) → IsDigits (format_nat n)
unfolding format_nat
format_nat-IsDigits n = digits_upto-IsDigits (suc n) n

-- The text is not no_more, and does not begin with a zero.
abbrev pub leads : Bytes → Bool
leads [] = false
leads (c ∷ cs) = ltb 48 c

leads-append : (xs ys : Bytes) → leads xs ≡ true → leads (xs ++ ys) ≡ true
leads-append [] ys e = ground arith
leads-append (x ∷ xs) ys e = e

digits_upto-leads : (fuel n : ℕ) → 0 < n → n < fuel → leads (digits_upto fuel n) ≡ true
unfolding digits_upto
digits_upto-leads zero n h lt = absurd (omega arith)
digits_upto-leads (suc fuel) n h lt = elim (Bool-cases (ltb n 10)) [
  | inl e ↦ rw e (ground arith)
  | inr e ↦ rw e (
      leads-append (digits_upto fuel (n / 10)) _
        (digits_upto-leads fuel (n / 10) (ground arith) (ground arith)))
]

pub format_nat-leads : (n : ℕ) → 0 < n → leads (format_nat n) ≡ true
unfolding format_nat
format_nat-leads n h = digits_upto-leads (suc n) n h (omega arith)

parse_digits-append :
    (xs : Bytes) (acc m d : ℕ)
    → parse_digits acc xs ≡ some m
    → d < 10
    → parse_digits acc (xs ++ ((48 + d) ∷ [])) ≡ some (m * 10 + d)
unfolding parse_digits
parse_digits-append [] acc m d e h = ground arith
parse_digits-append (x ∷ xs) acc m d e h = elim (Bool-cases (is_digit x)) [
  | inl f ↦ rw f (parse_digits-append xs (acc * 10 + (x - 48)) m d (rw f at e) h)
  | inr f ↦ ground arith
]

parse_digits-digits_upto : (fuel n : ℕ) → n < fuel → parse_digits 0 (digits_upto fuel n) ≡ some n
unfolding parse_digits digits_upto
parse_digits-digits_upto zero n h = absurd (omega arith)
parse_digits-digits_upto (suc fuel) n h = elim (Bool-cases (ltb n 10)) [
  | inl e ↦ rw e (ground arith)
  | inr e ↦ rw e (
      parse_digits-append (digits_upto fuel (n / 10)) 0 (n / 10) (n % 10)
        (parse_digits-digits_upto fuel (n / 10) (ground arith)) (omega arith)
      ∙ ap some (omega arith))
]

digits_upto-nonempty : (fuel n : ℕ) → 1 ≤ length (digits_upto (suc fuel) n)
unfolding digits_upto
digits_upto-nonempty fuel n = elim (Bool-cases (ltb n 10)) [
  | inl e ↦ rw e (omega arith)
  | inr e ↦ rw e (omega (arith, length-append (digits_upto fuel (n / 10)) ((48 + n % 10) ∷ [])))
]

first_digit :
    (xs : Bytes)
    → IsDigits xs
    → 1 ≤ length xs
    → (c : ℕ) × (cs : Bytes) × (xs ≡ c ∷ cs) × (is_digit c ≡ true)
first_digit [] h l = absurd (omega arith)
first_digit (c ∷ cs) h l = (c, cs, refl, h.0)

-- The text of a natural number begins with a digit.
pub format_nat-first :
    (n : ℕ) → (c : ℕ) × (cs : Bytes) × (format_nat n ≡ c ∷ cs) × (is_digit c ≡ true)
unfolding format_nat
format_nat-first n = first_digit (format_nat n) (format_nat-IsDigits n) (digits_upto-nonempty n n)

pub parse_nat-format_nat : (n : ℕ) → parse_nat (format_nat n) ≡ some n
unfolding parse_nat
parse_nat-format_nat n =
    let (c, cs, e, _) = format_nat-first n in
    let read : parse_digits 0 (format_nat n) ≡ some n =
      unfold format_nat in (parse_digits-digits_upto (suc n) n (omega arith)) in
    rw e (rw e at read)

abbrev pub limit : ℕ
limit = 9223372036854775808

-- The integers of 64 bits.
abbrev pub IsInt64 : ℤ → Type 0
IsInt64 (pos n) = n < limit
IsInt64 (negsuc n) = n < limit

pub parse_int-format_nat : (n : ℕ) → n < limit → parse_int (format_nat n) ≡ some (pos n)
unfolding parse_int
parse_int-format_nat n h =
    let (c, cs, e, d) = format_nat-first n in
    let read = parse_nat-format_nat n in
    let not_minus : (c == minus) ≡ false = ground arith in
    let not_plus : (c == plus) ≡ false = ground arith in
    let fits : ltb n limit ≡ true = ground arith in
    rw e (rw (not_minus, not_plus, ← e, read, fits) refl)

-- `ParseInt` reads back what `FormatInt` writes.
pub parse_int-format_int : (i : ℤ) → IsInt64 i → parse_int (format_int i) ≡ some i
unfolding format_int
parse_int-format_int (pos n) h = parse_int-format_nat n h
parse_int-format_int (negsuc n) h =
    let fits : ltb n limit ≡ true = ground arith in
    unfold parse_int in (rw (parse_nat-format_nat (suc n), fits) refl)
