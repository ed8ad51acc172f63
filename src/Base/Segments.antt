-- ===== src/Base/Segments.antt =====
-- Reading and writing a stretch of a list.
use Prim.Native.Nat.{ℕ, zero, suc, ◌+◌, ◌-◌, ◌≤◌, ◌<◌}
use mathlib.Core.Path.{◌≡◌, refl, sym, ap, ap₂, ◌∙◌}
use mathlib.Core.Bool.{◌&&◌}
use mathlib.Core.List.{List, [], ◌∷◌, ◌++◌}
use native.Mathlib.Omega.{arith}
use go_torrent.Base.Tests.{ltb, leb, if◌then◌else◌}
use go_torrent.Base.Lists.{length, get_or, take, drop, copy}

module _ {ℓ} {A : Type ℓ} where
  -- `copy(xs[n:], src)`
  abbrev pub copy_at : ℕ → List A → List A → List A
  copy_at zero src xs = copy xs src
  copy_at (suc n) src [] = []
  copy_at (suc n) src (x ∷ xs) = x ∷ copy_at n src xs

  pub length-copy : (xs src : List A) → length (copy xs src) ≡ length xs
  length-copy [] src = refl
  length-copy (x ∷ xs) [] = refl
  length-copy (x ∷ xs) (y ∷ ys) = ap suc (length-copy xs ys)

  pub length-copy_at : (n : ℕ) (src xs : List A) → length (copy_at n src xs) ≡ length xs
  length-copy_at zero src xs = length-copy xs src
  length-copy_at (suc n) src [] = refl
  length-copy_at (suc n) src (x ∷ xs) = ap suc (length-copy_at n src xs)

  pub copy_at-prefix :
      (pre src xs : List A) (n : ℕ)
      → copy_at (length pre + n) src (pre ++ xs) ≡ pre ++ copy_at n src xs
  copy_at-prefix [] src xs n = let e : 0 + n ≡ n = omega arith in rw e refl
  copy_at-prefix (p ∷ pre) src xs n =
      let e : suc (length pre) + n ≡ suc (length pre + n) = omega arith in
      rw e (ap (λ r. p ∷ r) (copy_at-prefix pre src xs n))

  copy-suffix :
      (src xs post : List A) → length src ≤ length xs → copy (xs ++ post) src ≡ copy xs src ++ post
  copy-suffix [] [] [] h = refl
  copy-suffix [] [] (p ∷ post) h = refl
  copy-suffix [] (x ∷ xs) post h = refl
  copy-suffix (s ∷ src) [] post h = absurd (omega arith)
  copy-suffix (s ∷ src) (x ∷ xs) post h = ap (λ r. s ∷ r) (copy-suffix src xs post (omega arith))

  pub copy_at-suffix :
      (n : ℕ) (src xs post : List A)
      → n + length src ≤ length xs
      → copy_at n src (xs ++ post) ≡ copy_at n src xs ++ post
  copy_at-suffix zero src xs post h = copy-suffix src xs post (omega arith)
  copy_at-suffix (suc n) src [] post h = absurd (omega arith)
  copy_at-suffix (suc n) src (x ∷ xs) post h =
      ap (λ r. x ∷ r) (copy_at-suffix n src xs post (omega arith))

  copy-append :
      (a b xs : List A) → length a ≤ length xs → copy_at (length a) b (copy xs a) ≡ copy xs (a ++ b)
  copy-append [] b [] h = refl
  copy-append [] b (x ∷ xs) h = refl
  copy-append (a ∷ as') b [] h = absurd (omega arith)
  copy-append (a ∷ as') b (x ∷ xs) h = ap (λ r. a ∷ r) (copy-append as' b xs (omega arith))

  copy_nothing : (xs : List A) → copy xs [] ≡ xs
  copy_nothing [] = refl
  copy_nothing (x ∷ xs) = refl

  pub copy_at-nothing : (n : ℕ) (xs : List A) → copy_at n [] xs ≡ xs
  copy_at-nothing zero xs = copy_nothing xs
  copy_at-nothing (suc n) [] = refl
  copy_at-nothing (suc n) (x ∷ xs) = ap (λ r. x ∷ r) (copy_at-nothing n xs)

  -- Two stretches that meet are one.
  pub copy_at-append :
      (n : ℕ) (a b xs : List A)
      → n + length a ≤ length xs
      → copy_at (n + length a) b (copy_at n a xs) ≡ copy_at n (a ++ b) xs
  copy_at-append zero a b xs h =
      let e : 0 + length a ≡ length a = omega arith in rw e (copy-append a b xs (omega arith))
  copy_at-append (suc n) a b [] h = absurd (omega arith)
  copy_at-append (suc n) a b (x ∷ xs) h =
      let e : suc n + length a ≡ suc (n + length a) = omega arith in
      rw e (ap (λ r. x ∷ r) (copy_at-append n a b xs (omega arith)))

  copy-copy :
      (b d xs : List A)
      → length b ≤ length d
      → length d ≤ length xs
      → copy (copy xs d) b ≡ copy xs (copy d b)
  copy-copy [] d xs h l = copy_nothing (copy xs d) ∙ sym (ap (λ r. copy xs r) (copy_nothing d))
  copy-copy (y ∷ b) [] xs h l = absurd (omega arith)
  copy-copy (y ∷ b) (e ∷ d) [] h l = absurd (omega arith)
  copy-copy (y ∷ b) (e ∷ d) (x ∷ xs) h l =
      ap (λ r. y ∷ r) (copy-copy b d xs (omega arith) (omega arith))

  copy-copy_at :
      (k : ℕ) (b d xs : List A)
      → k + length b ≤ length d
      → length d ≤ length xs
      → copy_at k b (copy xs d) ≡ copy xs (copy_at k b d)
  copy-copy_at zero b d xs h l = copy-copy b d xs (omega arith) l
  copy-copy_at (suc k) b [] xs h l = absurd (omega arith)
  copy-copy_at (suc k) b (e ∷ d) [] h l = absurd (omega arith)
  copy-copy_at (suc k) b (e ∷ d) (x ∷ xs) h l =
      ap (λ r. e ∷ r) (copy-copy_at k b d xs (omega arith) (omega arith))

  -- A stretch within a stretch can be written before it or after it.
  pub copy_at-copy_at :
      (n k : ℕ) (b d xs : List A)
      → k + length b ≤ length d
      → n + length d ≤ length xs
      → copy_at (n + k) b (copy_at n d xs) ≡ copy_at n (copy_at k b d) xs
  copy_at-copy_at zero k b d xs h l =
      let e : 0 + k ≡ k = omega arith in rw e (copy-copy_at k b d xs h (omega arith))
  copy_at-copy_at (suc n) k b d [] h l = absurd (omega arith)
  copy_at-copy_at (suc n) k b d (x ∷ xs) h l =
      let e : suc n + k ≡ suc (n + k) = omega arith in
      rw e (ap (λ r. x ∷ r) (copy_at-copy_at n k b d xs h (omega arith)))

  get_or-copy :
      (src xs : List A) (i : ℕ) (d : A)
      → get_or (copy xs src) i d
        ≡ (if ltb i (length src) && ltb i (length xs) then get_or src i d else get_or xs i d)
  get_or-copy [] [] i d = ground arith
  get_or-copy (s ∷ src) [] i d = ground arith
  get_or-copy [] (x ∷ xs) i d = ground arith
  get_or-copy (s ∷ src) (x ∷ xs) zero d = ground arith
  get_or-copy (s ∷ src) (x ∷ xs) (suc i) d = ground (arith, get_or-copy src xs i d)

  pub get_or-copy_at :
      (n : ℕ) (src xs : List A) (i : ℕ) (d : A)
      → get_or (copy_at n src xs) i d ≡ (
          if leb n i && ltb i (n + length src) && ltb i (length xs)
          then get_or src (i - n) d
          else get_or xs i d)
  get_or-copy_at zero src xs i d =
      let e : i - 0 ≡ i = omega arith in rw e (ground (arith, get_or-copy src xs i d))
  get_or-copy_at (suc n) src [] i d = ground arith
  get_or-copy_at (suc n) src (x ∷ xs) zero d = ground arith
  get_or-copy_at (suc n) src (x ∷ xs) (suc i) d =
      let e : suc i - suc n ≡ i - n = omega arith in
      rw e (ground (arith, get_or-copy_at n src xs i d))

  -- `xs[n:n+m]`
  abbrev pub segment : ℕ → ℕ → List A → List A
  segment n m xs = take m (drop n xs)

  pub segment-prefix :
      (pre xs : List A) (n m : ℕ) → segment (length pre + n) m (pre ++ xs) ≡ segment n m xs
  segment-prefix [] xs n m = let e : 0 + n ≡ n = omega arith in rw e refl
  segment-prefix (p ∷ pre) xs n m =
      let e : suc (length pre) + n ≡ suc (length pre + n) = omega arith in
      rw e (segment-prefix pre xs n m)

  take-suffix : (m : ℕ) (xs post : List A) → m ≤ length xs → take m (xs ++ post) ≡ take m xs
  take-suffix zero xs post h = refl
  take-suffix (suc m) [] post h = absurd (omega arith)
  take-suffix (suc m) (x ∷ xs) post h = ap (λ r. x ∷ r) (take-suffix m xs post (omega arith))

  pub segment-suffix :
      (n m : ℕ) (xs post : List A) → n + m ≤ length xs → segment n m (xs ++ post) ≡ segment n m xs
  segment-suffix zero m xs post h = take-suffix m xs post (omega arith)
  segment-suffix (suc n) m [] post h = let e : m ≡ 0 = omega arith in absurd (omega arith)
  segment-suffix (suc n) m (x ∷ xs) post h = segment-suffix n m xs post (omega arith)

  take_nil : (k : ℕ) → take {A = A} k [] ≡ []
  take_nil zero = refl
  take_nil (suc k) = refl

  drop_nil : (k : ℕ) → drop {A = A} k [] ≡ []
  drop_nil zero = refl
  drop_nil (suc k) = refl

  pub take-add : (n m : ℕ) (xs : List A) → take n xs ++ take m (drop n xs) ≡ take (n + m) xs
  take-add zero m xs = let e : 0 + m ≡ m = omega arith in rw e refl
  take-add (suc n) m [] = rw (take_nil m, take_nil (suc n + m)) refl
  take-add (suc n) m (x ∷ xs) =
      let e : suc n + m ≡ suc (n + m) = omega arith in rw e (ap (λ r. x ∷ r) (take-add n m xs))

  take-copy : (xs src : List A) → length src ≤ length xs → take (length src) (copy xs src) ≡ src
  take-copy xs [] h = refl
  take-copy [] (s ∷ src) h = absurd (omega arith)
  take-copy (x ∷ xs) (s ∷ src) h = ap (λ r. s ∷ r) (take-copy xs src (omega arith))

  -- What was written is read.
  pub segment-copy_at :
      (n : ℕ) (src xs : List A)
      → n + length src ≤ length xs
      → segment n (length src) (copy_at n src xs) ≡ src
  segment-copy_at zero src xs h = take-copy xs src (omega arith)
  segment-copy_at (suc n) src [] h = absurd (omega arith)
  segment-copy_at (suc n) src (x ∷ xs) h = segment-copy_at n src xs (omega arith)

  -- A stretch is read in two parts.
  pub segment-add :
      (n a b : ℕ) (xs : List A) → segment n a xs ++ segment (n + a) b xs ≡ segment n (a + b) xs
  segment-add zero a b xs = let e : 0 + a ≡ a = omega arith in rw e (take-add a b xs)
  segment-add (suc n) a b [] =
      rw (drop_nil (suc n + a), take_nil a, take_nil b, take_nil (a + b)) refl
  segment-add (suc n) a b (x ∷ xs) =
      let e : suc n + a ≡ suc (n + a) = omega arith in rw e (segment-add n a b xs)

  -- Lists of one length that agree everywhere are one.
  pub list_ext :
      (d : A) (xs ys : List A)
      → length xs ≡ length ys
      → ((i : ℕ) → i < length xs → get_or xs i d ≡ get_or ys i d)
      → xs ≡ ys
  list_ext d [] [] e h = refl
  list_ext d [] (y ∷ ys) e h = absurd (omega arith)
  list_ext d (x ∷ xs) [] e h = absurd (omega arith)
  list_ext d (x ∷ xs) (y ∷ ys) e h =
      ap₂ (λ a r. a ∷ r) (h 0 (omega arith))
        (list_ext d xs ys (omega arith) (λ i l. h (suc i) (omega arith)))
