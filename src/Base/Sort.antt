-- ===== src/Base/Sort.antt =====
-- Sorting by a comparison, as `sort.Slice` and `sort.SliceStable` do: a stable insertion sort. Where
-- the order of equal elements is open, this is one of the orders.
use Prim.Native.Nat.{ℕ, zero, suc, ◌+◌}
use mathlib.Core.Path.{◌≡◌, refl, ap, ◌∙◌}
use mathlib.Core.Bool.{Bool, true, false}
use mathlib.Core.List.{List, [], ◌∷◌}
use mathlib.Core.Logic.{inl, inr}
use native.Mathlib.Omega.{arith}
use go_torrent.Base.Tests.{if◌then◌else◌, Bool-cases}
use go_torrent.Base.Lists.{All, length, take, drop, All-drop, All-take}

module _ {ℓ} {A : Type ℓ} (less : A → A → Bool) where
  unfoldable pub insert_by : A → List A → List A
  insert_by x [] = x ∷ []
  insert_by x (y ∷ ys) = let rest = insert_by x ys in if less y x then y ∷ rest else x ∷ y ∷ ys

  unfoldable pub sort_by : List A → List A
  sort_by [] = []
  sort_by (x ∷ xs) = insert_by x (sort_by xs)

  -- No later element is less than an earlier one.
  abbrev pub IsSorted : List A → Type 0
  IsSorted [] = Unit
  IsSorted (x ∷ xs) = All (λ y. less y x ≡ false) xs × IsSorted xs

  module _ {κ} (P : A → Type κ) where
    pub insert_by-All : (x : A) (ys : List A) → P x → All P ys → All P (insert_by x ys)
    unfolding insert_by
    insert_by-All x [] hx h = (hx, tt)
    insert_by-All x (y ∷ ys) hx h = elim (Bool-cases (less y x)) [
      | inl e ↦ rw e (h.0, insert_by-All x ys hx h.1)
      | inr e ↦ rw e (hx, h)
    ]

    pub sort_by-All : (xs : List A) → All P xs → All P (sort_by xs)
    unfolding sort_by
    sort_by-All [] h = tt
    sort_by-All (x ∷ xs) h = insert_by-All x (sort_by xs) h.0 (sort_by-All xs h.1)

  -- How many elements pass the test.
  abbrev pub count_if : (A → Bool) → List A → ℕ
  count_if p [] = 0
  count_if p (x ∷ xs) = (if p x then 1 else 0) + count_if p xs

  count_if-insert_by :
      (p : A → Bool) (x : A) (ys : List A) → count_if p (insert_by x ys) ≡ count_if p (x ∷ ys)
  unfolding insert_by
  count_if-insert_by p x [] = refl
  count_if-insert_by p x (y ∷ ys) = elim (Bool-cases (less y x)) [
    | inl e ↦ rw e (omega (arith, count_if-insert_by p x ys))
    | inr e ↦ rw e refl
  ]

  -- Sorting moves elements only: each is there as often as before.
  pub count_if-sort_by : (p : A → Bool) (xs : List A) → count_if p (sort_by xs) ≡ count_if p xs
  unfolding sort_by
  count_if-sort_by p [] = refl
  count_if-sort_by p (x ∷ xs) =
      count_if-insert_by p x (sort_by xs) ∙ omega (arith, count_if-sort_by p xs)

  length-insert_by : (x : A) (ys : List A) → length (insert_by x ys) ≡ suc (length ys)
  unfolding insert_by
  length-insert_by x [] = refl
  length-insert_by x (y ∷ ys) = elim (Bool-cases (less y x)) [
    | inl e ↦ rw e (ap suc (length-insert_by x ys))
    | inr e ↦ rw e refl
  ]

  pub length-sort_by : (xs : List A) → length (sort_by xs) ≡ length xs
  unfolding sort_by
  length-sort_by [] = refl
  length-sort_by (x ∷ xs) = length-insert_by x (sort_by xs) ∙ ap suc (length-sort_by xs)

  -- On elements that satisfy `P` the test is a strict order whose incomparable elements are alike.
  module _ {κ} (P : A → Type κ) (asym : (x y : A) → P x → P y → less x y ≡ true → less y x ≡ false)
      (through : (x y z : A)
        → P x
        → P y
        → P z
        → less y x ≡ false
        → less z y ≡ false
        → less z x ≡ false) where
    All-through :
        (x y : A) (zs : List A)
        → P x
        → P y
        → All P zs
        → less y x ≡ false
        → All (λ z. less z y ≡ false) zs
        → All (λ z. less z x ≡ false) zs
    All-through x y [] hx hy hz e h = tt
    All-through x y (z ∷ zs) hx hy hz e h =
        (through x y z hx hy hz.0 e h.0, All-through x y zs hx hy hz.1 e h.1)

    insert_by-IsSorted :
        (x : A) (ys : List A) → P x → All P ys → IsSorted ys → IsSorted (insert_by x ys)
    unfolding insert_by
    insert_by-IsSorted x [] hx hy h = (tt, tt)
    insert_by-IsSorted x (y ∷ ys) hx hy h = elim (Bool-cases (less y x)) [
      | inl e ↦ rw e (
        insert_by-All (λ z. less z y ≡ false) x ys (asym y x hy.0 hx e) h.0,
        insert_by-IsSorted x ys hx hy.1 h.1,
      )
      | inr e ↦ rw e ((e, All-through x y ys hx hy.0 hy.1 e h.0), h)
    ]

    pub sort_by-IsSorted : (xs : List A) → All P xs → IsSorted (sort_by xs)
    unfolding sort_by
    sort_by-IsSorted [] h = tt
    sort_by-IsSorted (x ∷ xs) h =
        insert_by-IsSorted x (sort_by xs) h.0 (sort_by-All P xs h.1) (sort_by-IsSorted xs h.1)

  -- Of a sorted list, nothing after the first `k` elements is less than one of them.
  pub IsSorted-take :
      (k : ℕ) (xs : List A)
      → IsSorted xs
      → All (λ x. All (λ y. less y x ≡ false) (drop k xs)) (take k xs)
  IsSorted-take zero xs h = tt
  IsSorted-take (suc k) [] h = tt
  IsSorted-take (suc k) (x ∷ xs) h = (All-drop _ k xs h.0, IsSorted-take k xs h.1)

  pub take-IsSorted : (k : ℕ) (xs : List A) → IsSorted xs → IsSorted (take k xs)
  take-IsSorted zero xs h = tt
  take-IsSorted (suc k) [] h = tt
  take-IsSorted (suc k) (x ∷ xs) h = (All-take _ k xs h.0, take-IsSorted k xs h.1)

  pub count_if-take-drop :
      (p : A → Bool) (k : ℕ) (xs : List A)
      → count_if p (take k xs) + count_if p (drop k xs) ≡ count_if p xs
  count_if-take-drop p zero xs = omega arith
  count_if-take-drop p (suc k) [] = refl
  count_if-take-drop p (suc k) (x ∷ xs) = omega (arith, count_if-take-drop p k xs)
