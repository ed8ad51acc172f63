-- ===== src/Storage/PieceCache/Blocks.antt =====
-- Blocks written one after the other into a string of bytes.
use go_torrent.Base.{
  ℕ, ◌+◌, ◌≤◌, ◌<◌, ◌≡◌, refl, sym, ap, subst, ◌∙◌, ◌⊎◌, inl, inr, Bool, true, false, ◌&&◌, ◌||◌,
  List, [], ◌∷◌, arith, ltb, leb, Bool-cases, length, get_or, All, copy_at, length-copy_at,
  copy_at-copy_at, get_or-copy_at, list_ext,
}
use go_torrent.Bytes.{Bytes}

abbrev pub Block : Type 0
Block = ℕ × Bytes

-- The blocks of a piece that begins at an offset.
abbrev pub put_all : ℕ → List Block → Bytes → Bytes
put_all off [] xs = xs
put_all off ((begin, b) ∷ bs) xs = put_all off bs (copy_at (off + begin) b xs)

abbrev pub covers : ℕ → Block → ℕ → Bool
covers off (begin, b) i = leb (off + begin) i && ltb i (off + begin + length b)

abbrev pub covered : ℕ → List Block → ℕ → Bool
covered off [] i = false
covered off (b ∷ bs) i = covers off b i || covered off bs i

-- The blocks lie within as many bytes.
abbrev pub Fits : ℕ → List Block → Type 0
Fits len bs = All (λ b. b.0 + length b.1 ≤ len) bs

pub length-put_all :
    (off : ℕ) (bs : List Block) (xs : Bytes) → length (put_all off bs xs) ≡ length xs
length-put_all off [] xs = refl
length-put_all off ((begin, b) ∷ bs) xs =
    length-put_all off bs (copy_at (off + begin) b xs) ∙ length-copy_at (off + begin) b xs

get_or-put_all :
    (off : ℕ) (bs : List Block) (xs ys : Bytes) (i : ℕ)
    → length xs ≡ length ys
    → i < length xs
    → (covered off bs i ≡ true) ⊎ (get_or xs i 0 ≡ get_or ys i 0)
    → get_or (put_all off bs xs) i 0 ≡ get_or (put_all off bs ys) i 0
get_or-put_all off [] xs ys i same l (inl e) = absurd (ground arith)
get_or-put_all off [] xs ys i same l (inr e) = e
get_or-put_all off ((begin, b) ∷ bs) xs ys i same l h =
    let xs' = copy_at (off + begin) b xs in
    let ys' = copy_at (off + begin) b ys in
    let lx = length-copy_at (off + begin) b xs in
    let ly = length-copy_at (off + begin) b ys in
    let at_x = get_or-copy_at (off + begin) b xs i 0 in
    let at_y = get_or-copy_at (off + begin) b ys i 0 in
    let rest = get_or-put_all off bs xs' ys' i (lx ∙ same ∙ sym ly) (omega arith) in
    elim (Bool-cases (covered off bs i)) [
      | inl later ↦ rest (inl later)
      | inr e ↦ elim (Bool-cases (covers off (begin, b) i)) [
        | inl here ↦ rest (inr (ground arith))
        | inr missed ↦ elim h [ inl c ↦ absurd (ground arith) | inr c ↦ rest (inr (ground arith)) ]
      ]
    ]

-- Where the blocks cover the piece, what was there before makes no difference.
pub put_all-covered :
    (off : ℕ) (bs : List Block) (d xs : Bytes)
    → ((i : ℕ) → off ≤ i → i < off + length d → covered off bs i ≡ true)
    → put_all off bs (copy_at off d xs) ≡ put_all off bs xs
put_all-covered off bs d xs all =
    let changed = copy_at off d xs in
    let lc = length-copy_at off d xs in
    let lp = length-put_all off bs changed in
    list_ext 0 (put_all off bs changed) (put_all off bs xs)
      (lp ∙ lc ∙ sym (length-put_all off bs xs))
      (λ i l.
        get_or-put_all off bs changed xs i lc (omega arith)
          (elim (Bool-cases (leb off i && ltb i (off + length d))) [
            | inl inside ↦ inl (all i (ground arith) (ground arith))
            | inr outside ↦ inr (ground (arith, get_or-copy_at off d xs i 0))
          ]))

-- A piece that is put together on its own and then written is as its blocks written in place.
pub copy_at-put_all :
    (off : ℕ) (bs : List Block) (d xs : Bytes)
    → Fits (length d) bs
    → off + length d ≤ length xs
    → copy_at off (put_all 0 bs d) xs ≡ put_all off bs (copy_at off d xs)
copy_at-put_all off [] d xs fits l = refl
copy_at-put_all off ((begin, b) ∷ bs) d xs fits l =
    let e : 0 + begin ≡ begin = omega arith in
    let next = copy_at begin b d in
    let same : length next ≡ length d = length-copy_at begin b d in
    let fits' = subst (λ n. Fits n bs) (sym same) fits.1 in
    rw e (
      copy_at-put_all off bs next xs fits' (omega arith)
      ∙ ap (λ r. put_all off bs r) (sym (copy_at-copy_at off begin b d xs fits.0 l)))
