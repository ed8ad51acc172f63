-- ===== src/Bytes.antt =====
-- Byte strings and `encoding/binary`'s big-endian integers, as the wire formats use them. A read
-- from a string that is too short is a panic in Go; here it gives 0, and every reader checks the
-- length first.
use go_torrent.Base.{
  Bool, true, false, false≢true, ◌&&◌, ◌==◌, ℕ, suc, ◌+◌, ◌*◌, ◌/◌, ◌%◌, ◌≤◌, ◌<◌, ◌≡◌, refl, sym,
  ap, ap₂, ◌∙◌, List, [], ◌∷◌, ◌++◌, length, append-nil, drop, drop_all, drop-drop, All, All-drop,
  length-drop, arith,
}

abbrev pub Bytes : Type 0
Bytes = List ℕ

abbrev pub IsBytes : Bytes → Type 0
IsBytes xs = All (λ x. x < 256) xs

-- Go's `==` on strings.
unfoldable pub same_text : Bytes → Bytes → Bool
same_text [] [] = true
same_text [] (d ∷ ds) = false
same_text (c ∷ cs) [] = false
same_text (c ∷ cs) (d ∷ ds) = c == d && same_text cs ds

pub same_text_sound : (xs ys : Bytes) → same_text xs ys ≡ true → xs ≡ ys
unfolding same_text
same_text_sound [] [] h = refl
same_text_sound [] (y ∷ ys) h = absurd (false≢true h)
same_text_sound (x ∷ xs) [] h = absurd (false≢true h)
same_text_sound (x ∷ xs) (y ∷ ys) h =
    let first : x ≡ y = ground arith in
    let rest : same_text xs ys ≡ true = ground arith in
    ap₂ (λ a rest. a ∷ rest) first (same_text_sound xs ys rest)

pub same_text_refl : (xs : Bytes) → same_text xs xs ≡ true
unfolding same_text
same_text_refl [] = refl
same_text_refl (x ∷ xs) = ground (arith, same_text_refl xs)

unfoldable pub put_u16 : ℕ → Bytes
put_u16 v = (v / 256 % 256) ∷ (v % 256) ∷ []

unfoldable pub put_u32 : ℕ → Bytes
put_u32 v = (v / 16777216 % 256) ∷ (v / 65536 % 256) ∷ (v / 256 % 256) ∷ (v % 256) ∷ []

unfoldable pub u16 : Bytes → ℕ
u16 (a ∷ b ∷ rest) = a * 256 + b
u16 other = 0

unfoldable pub u32 : Bytes → ℕ
u32 (a ∷ b ∷ c ∷ d ∷ rest) = a * 16777216 + b * 65536 + c * 256 + d
u32 other = 0

pub u16-put_u16 : (v : ℕ) (rest : Bytes) → v < 65536 → u16 (put_u16 v ++ rest) ≡ v
unfolding u16 put_u16
u16-put_u16 v rest h = omega arith

pub u32-put_u32 : (v : ℕ) (rest : Bytes) → v < 4294967296 → u32 (put_u32 v ++ rest) ≡ v
unfolding u32 put_u32
u32-put_u32 v rest h = omega arith

-- Equal parts make equal lists.
cons_eq : {x y : ℕ} {xs ys : Bytes} → x ≡ y → xs ≡ ys → x ∷ xs ≡ y ∷ ys
cons_eq p q = ap₂ ◌∷◌ p q

pub put_u16-u16 : (xs : Bytes) → IsBytes xs → 2 ≤ length xs → put_u16 (u16 xs) ++ drop 2 xs ≡ xs
unfolding u16 put_u16
put_u16-u16 [] b h = absurd (omega arith)
put_u16-u16 (w ∷ []) b h = absurd (omega arith)
put_u16-u16 (w ∷ x ∷ rest) b h = cons_eq (omega arith) (cons_eq (omega arith) refl)

pub put_u32-u32 : (xs : Bytes) → IsBytes xs → 4 ≤ length xs → put_u32 (u32 xs) ++ drop 4 xs ≡ xs
unfolding u32 put_u32
put_u32-u32 [] b h = absurd (omega arith)
put_u32-u32 (w ∷ []) b h = absurd (omega arith)
put_u32-u32 (w ∷ x ∷ []) b h = absurd (omega arith)
put_u32-u32 (w ∷ x ∷ y ∷ []) b h = absurd (omega arith)
put_u32-u32 (w ∷ x ∷ y ∷ z ∷ rest) b h =
    cons_eq (omega arith)
      (cons_eq (omega arith) (cons_eq (omega arith) (cons_eq (omega arith) refl)))

pub u16-lt : (xs : Bytes) → IsBytes xs → u16 xs < 65536
unfolding u16
u16-lt [] b = omega arith
u16-lt (w ∷ []) b = omega arith
u16-lt (w ∷ x ∷ rest) b = omega arith

pub u32-lt : (xs : Bytes) → IsBytes xs → u32 xs < 4294967296
unfolding u32
u32-lt [] b = omega arith
u32-lt (w ∷ []) b = omega arith
u32-lt (w ∷ x ∷ []) b = omega arith
u32-lt (w ∷ x ∷ y ∷ []) b = omega arith
u32-lt (w ∷ x ∷ y ∷ z ∷ rest) b = omega arith

pub put_u16-IsBytes : (v : ℕ) → IsBytes (put_u16 v)
unfolding put_u16
put_u16-IsBytes v = omega arith

pub put_u32-IsBytes : (v : ℕ) → IsBytes (put_u32 v)
unfolding put_u32
put_u32-IsBytes v = omega arith

pub length-put_u16 : (v : ℕ) → length (put_u16 v) ≡ 2
unfolding put_u16
length-put_u16 v = refl

pub length-put_u32 : (v : ℕ) → length (put_u32 v) ≡ 4
unfolding put_u32
length-put_u32 v = refl

pub drop-put_u16 : (v : ℕ) (rest : Bytes) → drop 2 (put_u16 v ++ rest) ≡ rest
unfolding put_u16
drop-put_u16 v rest = refl

pub drop-put_u32 : (v : ℕ) (rest : Bytes) → drop 4 (put_u32 v ++ rest) ≡ rest
unfolding put_u32
drop-put_u32 v rest = refl

pub drop_more-put_u32 : (k v : ℕ) (rest : Bytes) → drop (4 + k) (put_u32 v ++ rest) ≡ drop k rest
unfolding put_u32
drop_more-put_u32 k v rest = let e : 4 + k ≡ suc (suc (suc (suc k))) = omega arith in rw e

-- Two integers and what follows, read and written back.
pub two_u32 :
    (xs : Bytes)
    → IsBytes xs
    → 8 ≤ length xs
    → put_u32 (u32 xs) ++ (put_u32 (u32 (drop 4 xs)) ++ drop 8 xs) ≡ xs
two_u32 xs b h =
    ap (λ r. put_u32 (u32 xs) ++ r)
      (ap (λ r. put_u32 (u32 (drop 4 xs)) ++ r) (sym (drop-drop 4 4 xs))
        ∙ put_u32-u32 (drop 4 xs) (All-drop _ 4 xs b) (omega (arith, length-drop 4 xs)))
    ∙ put_u32-u32 xs b (omega arith)

-- A string of exactly four bytes is one integer.
pub one_u32 : (xs : Bytes) → IsBytes xs → length xs ≡ 4 → put_u32 (u32 xs) ≡ xs
one_u32 xs b h =
    sym (append-nil (put_u32 (u32 xs)))
    ∙ ap (◌++◌ (put_u32 (u32 xs))) (sym (drop_all 4 xs (omega arith)))
    ∙ put_u32-u32 xs b (omega arith)

pub u32-put_u32_alone : (v : ℕ) → v < 4294967296 → u32 (put_u32 v) ≡ v
u32-put_u32_alone v h = ap u32 (sym (append-nil (put_u32 v))) ∙ u32-put_u32 v [] h
