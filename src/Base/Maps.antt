-- ===== src/Base/Maps.antt =====
-- A map with numbers for keys, as Go's `map`: a list of entries, in no order that matters.
use Prim.Native.Nat.{ℕ}
use mathlib.Core.Path.{◌≡◌, refl}
use mathlib.Core.Bool.{false}
use mathlib.Core.Option.{Option, none, some}
use mathlib.Core.List.{List, [], ◌∷◌}
use mathlib.Core.Logic.{inl, inr}
use native.Mathlib.Omega.{arith}
use go_torrent.Base.Tests.{if◌then◌else◌, ◌==◌, ==_refl, Bool-cases}

module _ {ℓ} {A : Type ℓ} where
  -- `v, ok := m[key]`
  unfoldable pub map_get : List (ℕ × A) → ℕ → Option A
  map_get [] key = none
  map_get ((k, v) ∷ m) key = let rest = map_get m key in if k == key then some v else rest

  -- `m[key] = v`
  unfoldable pub map_set : List (ℕ × A) → ℕ → A → List (ℕ × A)
  map_set [] key v = (key, v) ∷ []
  map_set ((k, w) ∷ m) key v =
      let rest = map_set m key v in if k == key then (key, v) ∷ m else (k, w) ∷ rest

  -- `delete(m, key)`
  unfoldable pub map_delete : List (ℕ × A) → ℕ → List (ℕ × A)
  map_delete [] key = []
  map_delete ((k, v) ∷ m) key =
      let rest = map_delete m key in if k == key then rest else (k, v) ∷ rest

  pub map_get-set : (m : List (ℕ × A)) (key : ℕ) (v : A) → map_get (map_set m key v) key ≡ some v
  unfolding map_get map_set
  map_get-set [] key v = rw (==_refl key) refl
  map_get-set ((k, w) ∷ m) key v = elim (Bool-cases (k == key)) [
    | inl e ↦ rw e (rw (==_refl key) refl)
    | inr e ↦ rw e (rw e (map_get-set m key v))
  ]

  pub map_get-set_other :
      (m : List (ℕ × A)) (key other : ℕ) (v : A)
      → (other == key) ≡ false
      → map_get (map_set m other v) key ≡ map_get m key
  unfolding map_get map_set
  map_get-set_other [] key other v h = rw h refl
  map_get-set_other ((k, w) ∷ m) key other v h = elim (Bool-cases (k == other)) [
    | inl e ↦ let differs : (k == key) ≡ false = ground arith in rw (e, differs) (rw h refl)
    | inr e ↦ elim (Bool-cases (k == key)) [
      | inl f ↦ rw (e, f) refl
      | inr f ↦ rw (e, f) (map_get-set_other m key other v h)
    ]
  ]

  pub map_get-delete : (m : List (ℕ × A)) (key : ℕ) → map_get (map_delete m key) key ≡ none
  unfolding map_get map_delete
  map_get-delete [] key = refl
  map_get-delete ((k, w) ∷ m) key = elim (Bool-cases (k == key)) [
    | inl e ↦ rw e (map_get-delete m key)
    | inr e ↦ rw e (rw e (map_get-delete m key))
  ]

  pub map_get-delete_other :
      (m : List (ℕ × A)) (key other : ℕ)
      → (other == key) ≡ false
      → map_get (map_delete m other) key ≡ map_get m key
  unfolding map_get map_delete
  map_get-delete_other [] key other h = refl
  map_get-delete_other ((k, w) ∷ m) key other h = elim (Bool-cases (k == other)) [
    | inl e ↦
        let differs : (k == key) ≡ false = ground arith in
        rw (e, differs) (map_get-delete_other m key other h)
    | inr e ↦ elim (Bool-cases (k == key)) [
      | inl f ↦ rw (e, f) refl
      | inr f ↦ rw (e, f) (map_get-delete_other m key other h)
    ]
  ]
