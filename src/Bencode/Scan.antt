-- ===== src/Bencode/Scan.antt =====
-- The tokens of internal/bencode/decode.go: `indexOf`, `scanInt`, `checkIntegerText` and `scanString`.
-- The decoder's position is what is left of the input from there on; an error is known by what it
-- wraps, not by its text and offset.
use go_torrent.Base.{
  ℕ, zero, suc, ◌<◌, ◌≡◌, refl, Bool, true, false, not, ◌&&◌, false≢true, Option, none, some, [],
  ◌∷◌, ◌++◌, arith, ltb, ◌==◌, if◌then◌else◌, ==_refl, length, take, drop, All, length-append,
  take-append_length, drop-append_length, ℤ, pos, negsuc, Result, ok, err,
}
use go_torrent.Bytes.{same_text, Bytes}
use go_torrent.Bencode.Number.{
  minus, digit_zero, is_digit, digits_upto, format_nat, format_int, parse_int, IsDigits,
  format_nat-IsDigits, leads, format_nat-leads, format_nat-first, limit, IsInt64,
  parse_int-format_nat, parse_int-format_int,
}

pub data Error : Type 0 where
  syntax too_deep : Error

abbrev pub letter_i : ℕ
letter_i = 105

abbrev pub letter_e : ℕ
letter_e = 101

abbrev pub colon : ℕ
colon = 58

pub record Split : Type 0 where
  pub before : Bytes
  pub after : Bytes

-- `indexOf`, with what stands before the byte it finds and what stands after.
unfoldable pub index_of : ℕ → Bytes → Option Split
index_of target [] = none
index_of target (c ∷ cs) =
    let rest = index_of target cs in
    if c == target then some (record { before = []; after = cs }) else elim rest [
      | none ↦ none
      | some s ↦ some (record { before = c ∷ s.before; after = s.after })
    ]

unfoldable pub all_digits : Bytes → Bool
all_digits [] = true
all_digits (c ∷ cs) = is_digit c && all_digits cs

-- What is left of the checks, after the sign.
unfoldable pub check_body : Bytes → Bool
check_body [] = false
check_body (c ∷ cs) = if c == digit_zero then false else all_digits (c ∷ cs)

unfoldable pub check_integer_text : Bytes → Bool
check_integer_text [] = false
check_integer_text (c ∷ cs) =
    if same_text (c ∷ cs) (minus ∷ digit_zero ∷ [])
    then false
    else if same_text (c ∷ cs) (digit_zero ∷ [])
    then true
    else if c == minus
    then check_body cs
    else check_body (c ∷ cs)

pub record Integer : Type 0 where
  pub int : ℤ
  pub rest : Bytes

-- What follows the 'i'.
unfoldable pub scan_int : Bytes → Result Error Integer
scan_int buf = elim (index_of letter_e buf) [
  | none ↦ err syntax
  | some s ↦ if not (check_integer_text s.before) then err syntax else elim (parse_int s.before) [
    | none ↦ err syntax
    | some n ↦ ok (record { int = n; rest = s.after })
  ]
]

pub record Text : Type 0 where
  pub text : Bytes
  pub rest : Bytes

-- More than one character, with a zero first.
abbrev pub has_leading_zero : Bytes → Bool
has_leading_zero [] = false
has_leading_zero (c ∷ cs) = ltb 0 (length cs) && c == digit_zero

unfoldable pub scan_string : Bytes → Result Error Text
scan_string buf = elim (index_of colon buf) [
  | none ↦ err syntax
  | some s ↦
      if length s.before == 0
      then err syntax
      else if has_leading_zero s.before
      then err syntax
      else elim (parse_int s.before) [
        | none ↦ err syntax
        | some (negsuc n) ↦ err syntax
        | some (pos n) ↦
            if ltb (length s.after) n
            then err syntax
            else ok (record { text = take n s.after; rest = drop n s.after })
      ]
]

index_of-append :
    (target : ℕ) (xs ys : Bytes)
    → All (λ c. (c == target) ≡ false) xs
    → index_of target (xs ++ (target ∷ ys)) ≡ some (record { before = xs; after = ys })
unfolding index_of
index_of-append target [] ys h = rw (==_refl target) refl
index_of-append target (x ∷ xs) ys h = rw (h.0, index_of-append target xs ys h.1) refl

pub not_among :
    (target : ℕ) (xs : Bytes)
    → is_digit target ≡ false
    → IsDigits xs
    → All (λ c. (c == target) ≡ false) xs
not_among target [] h d = tt
not_among target (x ∷ xs) h d = (ground arith, not_among target xs h d.1)

all_digits-IsDigits : (xs : Bytes) → IsDigits xs → all_digits xs ≡ true
unfolding all_digits
all_digits-IsDigits [] d = refl
all_digits-IsDigits (x ∷ xs) d = rw (d.0, all_digits-IsDigits xs d.1) refl

check_leading :
    (xs : Bytes)
    → IsDigits xs
    → leads xs ≡ true
    → (check_body xs ≡ true)
      × (check_integer_text xs ≡ true)
      × (check_integer_text (minus ∷ xs) ≡ true)
unfolding check_body check_integer_text same_text
check_leading [] d l = absurd (false≢true l)
check_leading (x ∷ xs) d l =
    let digits : all_digits (x ∷ xs) ≡ true = all_digits-IsDigits (x ∷ xs) d in
    let not_zero : (x == digit_zero) ≡ false = ground arith in
    let not_minus : (x == minus) ≡ false = ground arith in
    (rw not_zero digits, rw (not_minus, not_zero) digits, rw not_zero digits)

check-format_nat : (n : ℕ) → check_integer_text (format_nat n) ≡ true
check-format_nat zero = unfold format_nat digits_upto check_integer_text same_text in refl
check-format_nat (suc n) =
    (check_leading _ (format_nat-IsDigits (suc n)) (format_nat-leads (suc n) (omega arith))).1

check-format_int : (i : ℤ) → check_integer_text (format_int i) ≡ true
unfolding format_int
check-format_int (pos n) = check-format_nat n
check-format_int (negsuc n) =
    (check_leading _ (format_nat-IsDigits (suc n)) (format_nat-leads (suc n) (omega arith))).2

no_letter_e : (i : ℤ) → All (λ c. (c == letter_e) ≡ false) (format_int i)
unfolding format_int
no_letter_e (pos n) = not_among letter_e _ refl (format_nat-IsDigits n)
no_letter_e (negsuc n) = (refl, not_among letter_e _ refl (format_nat-IsDigits (suc n)))

-- What is written for an integer of 64 bits is scanned back.
pub scan_int-format_int :
    (i : ℤ) (rest : Bytes)
    → IsInt64 i
    → scan_int (format_int i ++ (letter_e ∷ rest)) ≡ ok (record { int = i; rest = rest })
unfolding scan_int
scan_int-format_int i rest h =
    rw
      (
        index_of-append letter_e (format_int i) rest (no_letter_e i),
        check-format_int i,
        parse_int-format_int i h,
        scan_int,
      )
      refl

no_leading_zero : (n : ℕ) → has_leading_zero (format_nat n) ≡ false
no_leading_zero zero = unfold format_nat digits_upto in refl
no_leading_zero (suc n) =
    let (c, cs, e, d) = format_nat-first (suc n) in
    let l = format_nat-leads (suc n) (omega arith) in
    rw e (let l' : ltb 48 c ≡ true = rw e at l in ground arith)

-- So is what is written for a string that is not longer than any memory.
pub scan_string-written :
    (s rest : Bytes)
    → length s < limit
    → scan_string (format_nat (length s) ++ (colon ∷ (s ++ rest)))
      ≡ ok (record { text = s; rest = rest })
unfolding scan_string
scan_string-written s rest h =
    let n = length s in
    let (c, cs, e, d) = format_nat-first n in
    let some_digit : (length (format_nat n) == 0) ≡ false = rw e (ground arith) in
    let enough : ltb (length (s ++ rest)) n ≡ false = ground (arith, length-append s rest) in
    rw
      (
        index_of-append colon (format_nat n) (s ++ rest)
            (not_among colon _ refl (format_nat-IsDigits n)),
        some_digit,
        no_leading_zero n,
        parse_int-format_nat n h,
        enough,
        take-append_length s rest,
        drop-append_length s rest,
        scan_string,
      )
      refl
