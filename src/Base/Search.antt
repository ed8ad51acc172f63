-- ===== src/Base/Search.antt =====
-- `sort.Search` of Go's library, the binary search, and what it finds.
use Prim.Native.Nat.{ℕ, zero, suc, ◌+◌, ◌/◌, ◌≤◌, ◌<◌}
use mathlib.Core.Path.{◌≡◌, refl}
use mathlib.Core.Option.{Option, none, some}
use mathlib.Core.List.{List, [], ◌∷◌}
use go_torrent.Base.Lists.{length, get_elem?}
use mathlib.Core.Bool.{Bool, true, false}
use mathlib.Core.Logic.{inl, inr}
use native.Mathlib.Omega.{arith}
use go_torrent.Base.Tests.{ltb, if◌then◌else◌, Bool-cases}

-- The least index from `i` to `j` at which `f` holds, or `j`. Each round halves what is left, so its
-- size is fuel enough.
unfoldable pub search : ℕ → (ℕ → Bool) → ℕ → ℕ → ℕ
search zero f i j = i
search (suc fuel) f i j =
    let h = (i + j) / 2 in
    let found = f h in
    let rest = search fuel f (if found then i else suc h) (if found then h else j) in
    if ltb i j then rest else i

-- The test holds from `r` on, below `n`, and nowhere before.
pub record IsBorder (f : ℕ → Bool) (n r : ℕ) : Type 0 where
  pub inside : r ≤ n
  pub before : (k : ℕ) → k < r → f k ≡ false
  pub after : (k : ℕ) → r ≤ k → k < n → f k ≡ true

module _ (f : ℕ → Bool) (n : ℕ) (rises : (a b : ℕ) → a ≤ b → b < n → f a ≡ true → f b ≡ true) where
  below : (k h : ℕ) → k ≤ h → h < n → f h ≡ false → f k ≡ false
  below k h kh hn missed = elim (Bool-cases (f k)) [
    | inl found ↦ let up = rises k h kh hn found in ground arith
    | inr e ↦ e
  ]

  search_between :
      (fuel i j : ℕ)
      → i ≤ j
      → j ≤ n
      → j ≤ i + fuel
      → ((k : ℕ) → k < i → f k ≡ false)
      → ((k : ℕ) → j ≤ k → k < n → f k ≡ true)
      → IsBorder f n (search fuel f i j)
  unfolding search
  search_between zero i j ij jn enough before after = record {
    inside = omega arith;
    before = before;
    after = λ k h. after k (omega arith);
  }
  search_between (suc fuel) i j ij jn enough before after = elim (Bool-cases (ltb i j)) [
    | inr e ↦ rw e (
        let done : IsBorder f n i = record {
          inside = omega arith;
          before = before;
          after = λ k h. after k (ground arith);
        } in
        done)
    | inl e ↦
        let h = (i + j) / 2 in
        let low : i ≤ h = ground arith in
        let high : h < j = ground arith in
        elim (Bool-cases (f h)) [
          | inl found ↦
              rw (e, found)
                (search_between fuel i h low (omega arith) (omega arith) before
                  (λ k hk kn. rises h k hk kn found))
          | inr missed ↦
              rw (e, missed)
                (search_between fuel (suc h) j (omega arith) jn (omega arith)
                  (λ k hk. below k h (omega arith) (omega arith) missed) after)
        ]
  ]

  -- On a test that stays true once it is, the search finds the border.
  pub search-IsBorder : IsBorder f n (search n f 0 n)
  search-IsBorder =
      search_between n 0 n (omega arith) (omega arith) (omega arith) (λ k h. absurd (omega arith))
        (λ k h h'. absurd (omega arith))

module _ {ℓ} {A : Type ℓ} (test : A → Bool) where
  -- The test of element `i`, as `sort.Search` asks for it.
  abbrev pub holds_at : List A → ℕ → Bool
  holds_at xs i = elim (get_elem? xs i) [ none ↦ false | some x ↦ test x ]

  -- A search through all elements, one after the other.
  abbrev pub first : List A → Option A
  first [] = none
  first (x ∷ xs) = if test x then some x else first xs

  -- The border is where that search stops.
  pub first-IsBorder :
      (xs : List A) (i : ℕ) → IsBorder (holds_at xs) (length xs) i → get_elem? xs i ≡ first xs
  first-IsBorder [] i h = refl
  first-IsBorder (x ∷ xs) zero h =
      let e : test x ≡ true = h.after 0 (omega arith) (omega arith) in rw e refl
  first-IsBorder (x ∷ xs) (suc i) h =
      let e : test x ≡ false = h.before 0 (omega arith) in
      rw e (
        first-IsBorder xs i (record {
          inside = let l = h.inside in omega arith;
          before = λ k l. h.before (suc k) (omega arith);
          after = λ k l n. h.after (suc k) (omega arith) (omega arith);
        }))
