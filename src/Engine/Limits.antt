-- ===== src/Engine/Limits.antt =====
-- How much `reevaluateQueue` of internal/engine/queue.go keeps running, and whom it prefers.
use go_torrent.Base.{
  ℕ, ◌+◌, ◌≤◌, ◌≡◌, refl, ◌≢◌, ◌⊎◌, inl, inr, Bool, true, false, ◌||◌, List, [], ◌∷◌, ◌++◌, arith,
  ltb, leb, ◌==◌, if◌then◌else◌, Bool-cases, length, take, drop, All, length-take, take_all,
  count_if, count_if-sort_by, sort_by-IsSorted, IsSorted-take, count_if-take-drop,
}
use go_torrent.Engine.Queue.{
  Managed, earlier, Candidate, Limits, candidates, outranks, sort_by_priority, select_allowed,
  has_hash, filter_allowed, cap_total, decide,
}

abbrev same_hash : ℕ → Candidate → Bool
same_hash h c = c.hash == h

abbrev count : (Candidate → Bool) → List Candidate → ℕ
count p cs = count_if outranks p cs

-- Each hash is there once at most.
abbrev Single : List Candidate → Type 0
Single cs = (h : ℕ) → count (same_hash h) cs ≤ 1

count-append :
    (p : Candidate → Bool) (xs ys : List Candidate) → count p (xs ++ ys) ≡ count p xs + count p ys
count-append p [] ys = omega arith
count-append p (x ∷ xs) ys = omega (arith, count-append p xs ys)

count-take_le :
    (p : Candidate → Bool) (k : ℕ) (xs : List Candidate) → count p (take k xs) ≤ count p xs
count-take_le p k xs = omega (arith, count_if-take-drop outranks p k xs)

length-filter_allowed :
    (allowed cs : List Candidate)
    → length (filter_allowed allowed cs) ≡ count (λ c. has_hash c.hash allowed) cs
unfolding filter_allowed
length-filter_allowed allowed [] = refl
length-filter_allowed allowed (c ∷ cs) = ground (arith, length-filter_allowed allowed cs)

count_or :
    (p q r : Candidate → Bool) (cs : List Candidate)
    → ((c : Candidate) → r c ≡ (p c || q c))
    → count r cs ≤ count p cs + count q cs
count_or p q r [] h = omega arith
count_or p q r (c ∷ cs) h = ground (arith, count_or p q r cs h, h c)

count-nothing : (cs : List Candidate) → count (λ c. false) cs ≤ 0
count-nothing [] = omega arith
count-nothing (c ∷ cs) = omega (arith, count-nothing cs)

-- Of candidates that are there once each, no more are in a list than it is long.
count-has_hash :
    (allowed cs : List Candidate)
    → Single cs
    → count (λ c. has_hash c.hash allowed) cs ≤ length allowed
unfolding has_hash
count-has_hash [] cs s = count-nothing cs
count-has_hash (a ∷ as') cs s = omega (
  arith,
  count_or (same_hash a.hash) (λ c. has_hash c.hash as') (λ c. has_hash c.hash (a ∷ as')) cs
      (λ c. ground arith),
  s a.hash,
  count-has_hash as' cs s,
)

length-select_allowed : (cs : List Candidate) (k : ℕ) → k ≢ 0 → length (select_allowed cs k) ≤ k
unfolding select_allowed
length-select_allowed cs k h = ground (arith, length-take k cs)

count-select_allowed :
    (p : Candidate → Bool) (cs : List Candidate) (k : ℕ)
    → count p (select_allowed cs k) ≤ count p cs
unfolding select_allowed
count-select_allowed p cs k = ground (arith, count-take_le p k cs)

count-candidates :
    (h : ℕ) (ms : List Managed)
    → count (same_hash h) (candidates false ms) + count (same_hash h) (candidates true ms)
      ≤ count_if earlier (λ m. m.hash == h) ms
unfolding candidates
count-candidates h [] = omega arith
count-candidates h (m ∷ ms) = ground (arith, count-candidates h ms)

length-filter_le : (allowed cs : List Candidate) → length (filter_allowed allowed cs) ≤ length cs
unfolding filter_allowed
length-filter_le allowed [] = omega arith
length-filter_le allowed (c ∷ cs) = ground (arith, length-filter_le allowed cs)

length-capped :
    (limit : ℕ) (cs : List Candidate)
    → length (if ltb limit (length cs) then take limit cs else cs) ≤ limit
length-capped limit cs = ground (arith, length-take limit cs)

cap_total_le :
    (downloads seeds : List Candidate) (limit : ℕ)
    → Single (downloads ++ seeds)
    → (length (cap_total downloads seeds limit).downloads ≤ length downloads)
      × (length (cap_total downloads seeds limit).seeds ≤ length seeds)
      × (length (cap_total downloads seeds limit).downloads
            + length (cap_total downloads seeds limit).seeds
          ≤ limit)
unfolding cap_total
cap_total_le downloads seeds limit s =
    let combined = sort_by_priority (downloads ++ seeds) in
    let allowed = if ltb limit (length combined) then take limit combined else combined in
    (
      length-filter_le allowed downloads,
      length-filter_le allowed seeds,
      omega (
        arith,
        length-filter_allowed allowed downloads,
        length-filter_allowed allowed seeds,
        count-append (λ c. has_hash c.hash allowed) downloads seeds,
        count-has_hash allowed (downloads ++ seeds) s,
        length-capped limit combined,
      ),
    )

-- A limit of 0 is none.
abbrev pub Within : ℕ → ℕ → Type 0
Within n limit = (limit ≡ 0) ⊎ (n ≤ limit)

Within-select : (cs : List Candidate) (k n : ℕ) → n ≤ length (select_allowed cs k) → Within n k
Within-select cs k n h = elim (Bool-cases (k == 0)) [
  | inl e ↦ inl (ground arith)
  | inr e ↦ inr (omega (arith, h, length-select_allowed cs k (ground arith)))
]

-- For torrents with hashes of their own, what the queue decides to keep running, force-started
-- torrents included, is within the limits on downloads, on seeds and on both together, where they
-- are set.
pub decide-Within :
    (l : Limits) (torrents : List Managed)
    → ((h : ℕ) → count_if earlier (λ m. m.hash == h) torrents ≤ 1)
    → Within (length (decide l torrents).downloads) l.max_downloads
      × Within (length (decide l torrents).seeds) l.max_seeds
      × Within (length (decide l torrents).downloads + length (decide l torrents).seeds) l.max_total
unfolding decide
decide-Within l torrents distinct =
    let ds = sort_by_priority (candidates false torrents) in
    let ss = sort_by_priority (candidates true torrents) in
    let downloads = select_allowed ds l.max_downloads in
    let seeds = select_allowed ss l.max_seeds in
    let single : Single (downloads ++ seeds) = λ h. omega (
      arith,
      count-append (same_hash h) downloads seeds,
      count-select_allowed (same_hash h) ds l.max_downloads,
      count-select_allowed (same_hash h) ss l.max_seeds,
      count_if-sort_by outranks (same_hash h) (candidates false torrents),
      count_if-sort_by outranks (same_hash h) (candidates true torrents),
      count-candidates h torrents,
      distinct h,
    ) in
    elim (Bool-cases (ltb 0 l.max_total)) [
      | inl capped ↦
          let (d, s, both) = cap_total_le downloads seeds l.max_total single in
          rw capped
            (Within-select ds l.max_downloads _ d, Within-select ss l.max_seeds _ s, inr both)
      | inr free ↦ rw free (
        Within-select ds l.max_downloads _ (omega arith),
        Within-select ss l.max_seeds _ (omega arith),
        inl (ground arith),
      )
    ]

outranks_asym : (a b : Candidate) → Unit {0} → Unit {0} → outranks a b ≡ true → outranks b a ≡ false
unfolding outranks
outranks_asym a b _ _ h = ground arith

outranks_through :
    (a b c : Candidate)
    → Unit {0}
    → Unit {0}
    → Unit {0}
    → outranks b a ≡ false
    → outranks c b ≡ false
    → outranks c a ≡ false
unfolding outranks
outranks_through a b c _ _ _ h h' = ground arith

everyone : (cs : List Candidate) → All (λ c. Unit {0}) cs
everyone [] = tt
everyone (c ∷ cs) = (tt, everyone cs)

-- Under a limit no candidate that is left out comes before one that is kept: force-started ones go
-- first, then those with the lower position.
pub select_allowed_prefers :
    (cs : List Candidate) (k : ℕ)
    → k ≢ 0
    → All
        (λ x. All (λ y. outranks y x ≡ false) (drop k (sort_by_priority cs)))
        (select_allowed (sort_by_priority cs) k)
unfolding select_allowed
select_allowed_prefers cs k h =
    let sorted = sort_by_priority cs in
    let prefers =
      IsSorted-take outranks k sorted (
        sort_by-IsSorted outranks (λ c. Unit {0}) outranks_asym outranks_through cs
          (everyone cs)) in
    elim (Bool-cases (leb (length sorted) k)) [
      | inl e ↦
          let whole = take_all k sorted (ground arith) in
          let some_limit : (k == 0) ≡ false = ground arith in
          rw (some_limit, e) (rw whole at prefers)
      | inr e ↦ let some_limit : (k == 0) ≡ false = ground arith in rw (some_limit, e) prefers
    ]
