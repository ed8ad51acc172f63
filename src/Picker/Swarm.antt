-- ===== src/Picker/Swarm.antt =====
-- The counts of internal/picker/availability.go as peers come and go.
use go_torrent.Base.{
  ℕ, zero, suc, ◌+◌, ◌-◌, ◌<◌, ◌≡◌, ap, ◌∙◌, ◌≢◌, inl, inr, Bool, true, false, not, ◌&&◌, List,
  arith, ltb, leb, ◌==◌, if◌then◌else◌, Bool-cases, length, get_or, set, length-set,
  get_or-set_self, get_or-set_ne, pos,
}
use go_torrent.Bitfield
use go_torrent.Bitfield.{Bitfield, Visit}
use go_torrent.Bitfield.Invariant.{IsValid}
use go_torrent.Bitfield.Iteration.{scan, each-scan}
use go_torrent.Picker.Availability.{increment, decrement, add_peer, remove_peer, count_of}

abbrev one_if : Bool → ℕ
one_if b = if b then 1 else 0

count_of-set :
    (cs : List ℕ) (i j v : ℕ)
    → i < length cs
    → count_of (set cs i v) j ≡ (if i == j then v else count_of cs j)
unfolding count_of
count_of-set cs i j v h = elim (Bool-cases (i == j)) [
  | inl e ↦
      let same : i ≡ j = ground arith in
      rw (e, ← same) (ground (arith, length-set cs i v, get_or-set_self cs i v 0 h))
  | inr e ↦
      let other : i ≢ j = ground arith in
      rw e (ground (arith, length-set cs i v, get_or-set_ne cs i j v 0 other))
]

length-increment : (cs : List ℕ) (i : ℕ) → length (increment cs i) ≡ length cs
unfolding increment
length-increment cs i = ground (arith, length-set cs i (suc (get_or cs i 0)))

length-decrement : (cs : List ℕ) (i : ℕ) → length (decrement cs i) ≡ length cs
unfolding decrement
length-decrement cs i = ground (arith, length-set cs i (get_or cs i 0 - 1))

count_of-increment :
    (cs : List ℕ) (i j : ℕ)
    → count_of (increment cs i) j ≡ count_of cs j + one_if (i == j && ltb j (length cs))
unfolding increment
count_of-increment cs i j = elim (Bool-cases (ltb i (length cs))) [
  | inl e ↦ rw e (
      count_of-set cs i j _ (ground arith) ∙ elim (Bool-cases (i == j)) [
        | inl same ↦ let is : i ≡ j = ground arith in rw (← is) (unfold count_of in ground arith)
        | inr other ↦ ground arith
      ])
  | inr e ↦ ground (arith, ap (λ x. ltb x (length cs)) {x = i} {y = j})
]

count_of-decrement :
    (cs : List ℕ) (i j : ℕ) → count_of (decrement cs i) j ≡ count_of cs j - one_if (i == j)
unfolding decrement
count_of-decrement cs i j = elim (Bool-cases (ltb i (length cs) && not (get_or cs i 0 == 0))) [
  | inl e ↦ rw e (
      count_of-set cs i j _ (ground arith) ∙ elim (Bool-cases (i == j)) [
        | inl same ↦ let is : i ≡ j = ground arith in rw (← is) (unfold count_of in ground arith)
        | inr other ↦ ground arith
      ])
  | inr e ↦ rw e (elim (Bool-cases (i == j)) [
    | inl same ↦ let is : i ≡ j = ground arith in rw (← is) (unfold count_of in ground arith)
    | inr other ↦ ground arith
  ])
]

abbrev adding : List ℕ → ℕ → Visit (List ℕ)
adding cs i = record { state = increment cs i; go_on = true }

abbrev removing : List ℕ → ℕ → Visit (List ℕ)
removing cs i = record { state = decrement cs i; go_on = true }

abbrev within : ℕ → ℕ → ℕ → Bool
within i k j = leb i j && ltb j (i + k)

module _ (p : ℕ → Bool) (j : ℕ) where
  scan-adding :
      (i k : ℕ) (cs : List ℕ)
      → count_of (scan adding p i k cs).state j
        ≡ count_of cs j + one_if (p j && (within i k j && ltb j (length cs)))
  unfolding scan
  scan-adding i zero cs = ground arith
  scan-adding i (suc k) cs = elim (Bool-cases (p i)) [
    | inl e ↦
        rw (e, scan)
          (ground (
            arith,
            scan-adding (i + 1) k (increment cs i),
            count_of-increment cs i j,
            length-increment cs i,
            ap p {x = i} {y = j},
          ))
    | inr e ↦ rw (e, scan) (ground (arith, scan-adding (i + 1) k cs, ap p {x = i} {y = j}))
  ]

  scan-removing :
      (i k : ℕ) (cs : List ℕ)
      → count_of (scan removing p i k cs).state j ≡ count_of cs j - one_if (p j && within i k j)
  unfolding scan
  scan-removing i zero cs = ground arith
  scan-removing i (suc k) cs = elim (Bool-cases (p i)) [
    | inl e ↦
        rw (e, scan)
          (ground (
            arith,
            scan-removing (i + 1) k (decrement cs i),
            count_of-decrement cs i j,
            ap p {x = i} {y = j},
          ))
    | inr e ↦ rw (e, scan) (ground (arith, scan-removing (i + 1) k cs, ap p {x = i} {y = j}))
  ]

out_of_range : (cs : List ℕ) (j : ℕ) → ltb j (length cs) ≡ false → count_of cs j ≡ 0
out_of_range cs j h = unfold count_of in ground arith

has_below : (b : Bitfield) (j : ℕ) → (Bitfield.has b (pos j) && ltb j b.n) ≡ Bitfield.has b (pos j)
has_below b j = unfold Bitfield.has in ground arith

module _ (cs : List ℕ) (b : Bitfield) (v : IsValid b) (j : ℕ) where
  -- A peer that connects with a valid bitfield adds one to the count of exactly the pieces it has
  -- that the index covers.
  pub count_of-add_peer :
      count_of (add_peer cs b) j
      ≡ count_of cs j + (if Bitfield.has b (pos j) && ltb j (length cs) then 1 else 0)
  unfolding add_peer
  count_of-add_peer =
      ap (λ r. count_of r j) (each-scan adding b cs v)
      ∙ ground (arith, scan-adding (λ i. Bitfield.has b (pos i)) j 0 b.n cs, has_below b j)

  count_of-remove_peer :
      count_of (remove_peer cs b) j ≡ count_of cs j - (if Bitfield.has b (pos j) then 1 else 0)
  unfolding remove_peer
  count_of-remove_peer =
      ap (λ r. count_of r j) (each-scan removing b cs v)
      ∙ ground (arith, scan-removing (λ i. Bitfield.has b (pos i)) j 0 b.n cs, has_below b j)

-- A peer with a valid bitfield that leaves takes exactly its own share back: every count is what it
-- was before the peer came.
pub remove_peer-add_peer :
    (cs : List ℕ) (b : Bitfield) (j : ℕ)
    → IsValid b
    → count_of (remove_peer (add_peer cs b) b) j ≡ count_of cs j
remove_peer-add_peer cs b j v = ground (
  arith,
  count_of-remove_peer (add_peer cs b) b v j,
  count_of-add_peer cs b v j,
  out_of_range cs j,
)
