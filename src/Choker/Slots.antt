-- ===== src/Choker/Slots.antt =====
-- How many peers a round of `Run` chooses to unchoke.
use go_torrent.Base.{
  ℕ, suc, ◌+◌, ◌-◌, ◌≤◌, ◌≡◌, refl, ap, inl, inr, not, ◌||◌, List, [], ◌∷◌, arith, ◌==◌,
  if◌then◌else◌, Bool-cases, Option-cases, length, get_elem?, take, length-take,
}
use go_torrent.Choker.{
  Peer, Choker, RankedPeer, rank, sort, ids, candidates, still_eligible, is_due, pick_optimistic,
  regular_slots, run,
}

length-ids : (rps : List RankedPeer) → length (ids rps) ≡ length rps
unfolding ids
length-ids [] = refl
length-ids (rp ∷ rps) = ap suc (length-ids rps)

module _ (c : Choker) (draw : ℕ → ℕ) (now : ℕ) where
  pick_optimistic_le :
      (ranked : List RankedPeer) (chosen : List ℕ)
      → length (pick_optimistic c draw ranked chosen now).1 ≤ suc (length chosen)
  unfolding pick_optimistic
  pick_optimistic_le [] chosen = omega arith
  pick_optimistic_le (r ∷ rs) chosen =
      elim (Bool-cases (not (still_eligible c (r ∷ rs) chosen) || is_due c now)) [
        | inl e ↦
            rw e
              (elim (Option-cases (
                get_elem? (candidates (r ∷ rs) chosen)
                  (draw (length (candidates (r ∷ rs) chosen))))) [
                    | inl f ↦ rw f (omega arith)
                    | inr (rp, f) ↦ rw f (omega arith)
                  ])
        | inr e ↦ rw e (elim (Option-cases c.optimistic) [
          | inl f ↦ rw f (omega arith)
          | inr (i, f) ↦ rw f (omega arith)
        ])
      ]

regular_lem :
    (slots : ℕ) (ranked : List RankedPeer)
    → 1 ≤ slots
    → length (ids (take (regular_slots slots ranked) ranked))
        + (if length ranked == 0 then 0 else 1)
      ≤ slots
unfolding regular_slots
regular_lem slots [] h =
    omega
      (arith, length-ids (take {A = RankedPeer} slots []), length-take {A = RankedPeer} slots [])
regular_lem slots (r ∷ rs) h =
    ground (arith, length-ids (take (slots - 1) (r ∷ rs)), length-take (slots - 1) (r ∷ rs))

pick_optimistic-nobody :
    (c : Choker) (draw : ℕ → ℕ) (now : ℕ) (chosen : List ℕ)
    → (pick_optimistic c draw [] chosen now).1 ≡ chosen
unfolding pick_optimistic
pick_optimistic-nobody c draw now chosen = refl

chosen_le :
    (c : Choker) (draw : ℕ → ℕ) (now slots : ℕ) (ranked : List RankedPeer)
    → 1 ≤ slots
    → length (pick_optimistic c draw ranked (ids (take (regular_slots slots ranked) ranked)) now).1
      ≤ slots
chosen_le c draw now slots [] h =
    rw (pick_optimistic-nobody c draw now _) (ground (arith, regular_lem slots [] h))
chosen_le c draw now slots (r ∷ rs) h = ground (
  arith,
  regular_lem slots (r ∷ rs) h,
  pick_optimistic_le c draw now (r ∷ rs) (ids (take (regular_slots slots (r ∷ rs)) (r ∷ rs))),
)

-- With at least one slot, a round never chooses more peers than there are slots, the optimistic one
-- included.
pub run_le :
    (c : Choker) (draw : ℕ → ℕ) (peers : List Peer) (now : ℕ)
    → 1 ≤ c.slots
    → length (run c draw peers now).chosen ≤ c.slots
unfolding run
run_le c draw peers now h = chosen_le _ draw now c.slots (sort (rank peers c.last_bytes).ranked) h
