-- ===== src/Choker/Ranking.antt =====
-- The ranking by download rate: the first loop of `Run` and its sort.
use go_torrent.Base.{
  ℕ, zero, suc, ◌≤◌, ◌≡◌, refl, ap, ◌∙◌, inl, inr, ◌||◌, List, [], ◌∷◌, arith, leb, ◌==◌,
  Bool-cases, length, take, drop, All, All-drop,
}
use go_torrent.Choker.{RankedPeer, insert, sort, contains_id}

module _ {κ} (P : RankedPeer → Type κ) where
  insert-All : (x : RankedPeer) (ys : List RankedPeer) → P x → All P ys → All P (insert x ys)
  unfolding insert
  insert-All x [] hx h = (hx, tt)
  insert-All x (y ∷ ys) hx h = elim (Bool-cases (leb y.rate x.rate)) [
    | inl e ↦ rw e (hx, h)
    | inr e ↦ rw e (h.0, insert-All x ys hx h.1)
  ]

  pub sort-All : (xs : List RankedPeer) → All P xs → All P (sort xs)
  unfolding sort
  sort-All [] h = tt
  sort-All (x ∷ xs) h = insert-All x (sort xs) h.0 (sort-All xs h.1)

contains_id-insert :
    (x : RankedPeer) (ys : List RankedPeer) (i : ℕ)
    → contains_id (insert x ys) i ≡ (x.peer.id == i || contains_id ys i)
unfolding insert contains_id
contains_id-insert x [] i = refl
contains_id-insert x (y ∷ ys) i = ground (arith, contains_id-insert x ys i)

pub contains_id-sort : (xs : List RankedPeer) (i : ℕ) → contains_id (sort xs) i ≡ contains_id xs i
unfolding sort contains_id
contains_id-sort [] i = refl
contains_id-sort (x ∷ xs) i =
    ground (arith, contains_id-insert x (sort xs) i, contains_id-sort xs i)

length-insert : (x : RankedPeer) (ys : List RankedPeer) → length (insert x ys) ≡ suc (length ys)
unfolding insert
length-insert x [] = refl
length-insert x (y ∷ ys) = ground (arith, length-insert x ys)

pub length-sort : (xs : List RankedPeer) → length (sort xs) ≡ length xs
unfolding sort
length-sort [] = refl
length-sort (x ∷ xs) = length-insert x (sort xs) ∙ ap suc (length-sort xs)

-- No later peer is faster.
abbrev pub IsRanked : List RankedPeer → Type 0
IsRanked [] = Unit
IsRanked (x ∷ xs) = All (λ y. y.rate ≤ x.rate) xs × IsRanked xs

All-slower :
    (x y : RankedPeer) (zs : List RankedPeer)
    → y.rate ≤ x.rate
    → All (λ z. z.rate ≤ y.rate) zs
    → All (λ z. z.rate ≤ x.rate) zs
All-slower x y [] le h = tt
All-slower x y (z ∷ zs) le h = (omega (arith, h.0), All-slower x y zs le h.1)

insert-IsRanked : (x : RankedPeer) (ys : List RankedPeer) → IsRanked ys → IsRanked (insert x ys)
unfolding insert
insert-IsRanked x [] h = (tt, tt)
insert-IsRanked x (y ∷ ys) h = elim (Bool-cases (leb y.rate x.rate)) [
  | inl e ↦ rw e ((ground arith, All-slower x y ys (ground arith) h.0), h)
  | inr e ↦
      rw e (insert-All (λ z. z.rate ≤ y.rate) x ys (ground arith) h.0, insert-IsRanked x ys h.1)
]

sort-IsRanked : (xs : List RankedPeer) → IsRanked (sort xs)
unfolding sort
sort-IsRanked [] = tt
sort-IsRanked (x ∷ xs) = insert-IsRanked x (sort xs) (sort-IsRanked xs)

take_faster :
    (k : ℕ) (xs : List RankedPeer)
    → IsRanked xs
    → All (λ x. All (λ y. y.rate ≤ x.rate) (drop k xs)) (take k xs)
take_faster zero xs h = tt
take_faster (suc k) [] h = tt
take_faster (suc k) (x ∷ xs) h = (All-drop _ k xs h.0, take_faster k xs h.1)

-- Each peer that gets one of `k` regular slots was at least as fast as each that gets none.
pub sort_fastest :
    (k : ℕ) (xs : List RankedPeer)
    → All (λ x. All (λ y. y.rate ≤ x.rate) (drop k (sort xs))) (take k (sort xs))
sort_fastest k xs = take_faster k (sort xs) (sort-IsRanked xs)
