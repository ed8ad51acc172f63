-- ===== src/Picker/Operations.antt =====
-- Every operation of the picker keeps its invariant; those that choose work are in Picking.
use go_torrent.Base.{
  ℕ, suc, sym, ◌∙◌, inl, inr, Bool, List, [], ◌∷◌, arith, ◌==◌, Bool-cases, Option-cases, length,
  All, pos, Result, ok, err,
}
use go_torrent.Bitfield
use go_torrent.Bitfield.{Bitfield}
use go_torrent.Bitfield.Invariant.{set-IsValid, clear-IsValid}
use go_torrent.Bitfield.Invariant.{IsValid as IsValidBitfield}
use go_torrent.Bitfield.Indexed.{set-n, clear-n, has-set, has-clear}
use go_torrent.Picker.{
  Strategy, Priority, Picker, Error, find, current_timeout, drop_verified, set_have, set_priorities,
  set_strategy, mark_verified, mark_failed, reset_active, reset_all_pending, received,
  expire_active, expire,
}
use go_torrent.Picker.Progress.{Cell, PieceProgress, reset, block_index_of, block_done, mark_done}
use go_torrent.Picker.Blocks.{mark_done-cells, block_index_of-IsBlock}
use go_torrent.Picker.Cells.{
  SameCells, reset_cells_lem, reset_pending-SameCells, expire_cells-SameCells,
}
use go_torrent.Picker.Invariant.{
  IsProgress, Ascending, put-All, delete-All, find-All, All-map, put-Ascending, delete-Ascending,
  drop_verified-Ascending, IsValid,
}

-- A refused change leaves the picker as it is.
unfoldable pub kept : Picker → Result Error Picker → Picker
kept p (err _) = p
kept p (ok p') = p'

-- Changing the blocks of every piece in a way that keeps their number and the arrivals.
module _ (n : ℕ) (f : ℕ → ℕ) (verified : ℕ → Bool) where
  abbrev Tracked : List PieceProgress → Type 0
  Tracked pps = All (IsProgress n f verified) pps

  pub IsProgress-SameCells :
      (pp : PieceProgress) (cs : List Cell)
      → SameCells cs pp.cells
      → IsProgress n f verified pp
      → IsProgress n f verified (record pp { cells = cs })
  IsProgress-SameCells pp cs e (i, m, l, b, d) = (i, m, l, e.0 ∙ b, d ∙ sym e.1)

  reset_active_lem :
      (least : ℕ) (pps : List PieceProgress)
      → Tracked pps × Ascending least pps
      → Tracked (reset_active pps) × Ascending least (reset_active pps)
  unfolding reset_active
  reset_active_lem least [] h = h
  reset_active_lem least (pp ∷ pps) ((h, hs), (le, up)) =
      let rest = reset_active_lem (suc pp.index) pps (hs, up) in
      ((IsProgress-SameCells pp _ (reset_pending-SameCells pp.cells) h, rest.0), (le, rest.1))

  expire_active_lem :
      (timeout now least : ℕ) (pps : List PieceProgress)
      → Tracked pps × Ascending least pps
      → Tracked (expire_active timeout now pps).1
        × Ascending least (expire_active timeout now pps).1
  unfolding expire_active
  expire_active_lem timeout now least [] h = h
  expire_active_lem timeout now least (pp ∷ pps) ((h, hs), (le, up)) =
      let rest = expire_active_lem timeout now (suc pp.index) pps (hs, up) in
      (
        (IsProgress-SameCells pp _ (expire_cells-SameCells timeout now pp.cells) h, rest.0),
        (le, rest.1),
      )

drop_verified-All :
    (n : ℕ) (f : ℕ → ℕ) (was : ℕ → Bool) (have : Bitfield) (pps : List PieceProgress)
    → All (IsProgress n f was) pps
    → All (IsProgress n f (λ i. Bitfield.has have (pos i))) (drop_verified have pps)
unfolding drop_verified
drop_verified-All n f was have [] h = tt
drop_verified-All n f was have (pp ∷ pps) ((i, _, l, b, d), hs) =
    elim (Bool-cases (Bitfield.has have (pos pp.index))) [
      | inl e ↦ rw e (drop_verified-All n f was have pps hs)
      | inr e ↦ rw e ((i, e, l, b, d), drop_verified-All n f was have pps hs)
    ]

module _ (p : Picker) (v : IsValid p) where
  abbrev verified : ℕ → Bool
  verified i = Bitfield.has p.have (pos i)

  pub mark_verified-IsValid : (index : ℕ) → IsValid (mark_verified p index)
  unfolding mark_verified
  mark_verified-IsValid index = record {
    wide = set-n p.have (pos index) ∙ v.wide;
    packed = set-IsValid p.have (pos index) v.packed;
    tracked = delete-All _ p.active index (
        All-map _ _ p.active
          (λ pp (i, m, l, b, d) ne.
            (i, ground (arith, has-set p.have index pp.index v.packed, m), l, b, d))
          v.tracked);
    sorted = delete-Ascending 0 p.active index v.sorted;
  }

  pub mark_failed-IsValid : (index : ℕ) → IsValid (mark_failed p index)
  unfolding mark_failed
  mark_failed-IsValid index = elim (Option-cases (find p.active index)) [
    | inl e ↦
        rw (e, mark_failed)
          (record {
            wide = clear-n p.have (pos index) ∙ v.wide;
            packed = clear-IsValid p.have (pos index) v.packed;
            tracked =
                All-map _ _ p.active
                  (λ pp (i, m, l, b, d).
                    (i, ground (arith, has-clear p.have index pp.index v.packed, m), l, b, d))
                  v.tracked;
            sorted = v.sorted;
          })
    | inr (pp, e) ↦
        let ((i, m, l, b, _), _) = find-All _ p.active index pp e v.tracked in
        let cells = reset_cells_lem pp.cells in
        rw (e, mark_failed)
          (unfold reset in
            record {
              wide = v.wide;
              packed = v.packed;
              tracked = put-All _ p.active (reset pp) v.tracked (i, m, l, cells.0 ∙ b, sym cells.1);
              sorted = put-Ascending 0 p.active (reset pp) (omega arith) v.sorted;
            })
  ]

  pub reset_all_pending-IsValid : IsValid (reset_all_pending p)
  unfolding reset_all_pending
  reset_all_pending-IsValid =
      let r = reset_active_lem _ _ _ 0 p.active (v.tracked, v.sorted) in
      record { wide = v.wide; packed = v.packed; tracked = r.0; sorted = r.1 }

  pub expire-IsValid : (now : ℕ) → IsValid (expire p now).1
  unfolding expire
  expire-IsValid now =
      let r = expire_active_lem _ _ _ (current_timeout p) now 0 p.active (v.tracked, v.sorted) in
      record { wide = v.wide; packed = v.packed; tracked = r.0; sorted = r.1 }

  pub received-IsValid : (index begin len : ℕ) → IsValid (received p index begin len).picker
  unfolding received
  received-IsValid index begin len = elim (Option-cases (find p.active index)) [
    | inl e ↦ rw (e, received) v
    | inr (pp, e) ↦
        rw (e, received)
          (elim (Option-cases (block_index_of pp begin len)) [
            | inl e' ↦ rw e' v
            | inr (i, e') ↦ rw e' (elim (Bool-cases (block_done pp i)) [
              | inl done ↦ rw done v
              | inr fresh ↦
                  let ((m, l, b, d, c), same) = find-All _ p.active index pp e v.tracked in
                  let cells =
                    mark_done-cells pp i (block_index_of-IsBlock pp begin len i e').0 fresh c in
                  rw fresh (record {
                    wide = v.wide;
                    packed = v.packed;
                    tracked =
                        put-All _ p.active (mark_done pp i) v.tracked
                          (unfold mark_done in (m, l, b, cells.0 ∙ d, cells.1));
                    sorted = put-Ascending 0 p.active (mark_done pp i) (omega arith) v.sorted;
                  })
            ])
          ])
  ]

  pub set_have-IsValid :
      (have : Bitfield) → IsValidBitfield have → IsValid (kept p (set_have p have))
  unfolding set_have kept
  set_have-IsValid have hv = elim (Bool-cases (have.n == p.cfg.num_pieces)) [
    | inl e ↦ rw e (record {
      wide = ground arith;
      packed = hv;
      tracked = drop_verified-All _ _ _ have p.active v.tracked;
      sorted = drop_verified-Ascending have 0 p.active v.sorted;
    })
    | inr e ↦ rw e v
  ]

  pub set_priorities-IsValid : (pr : List Priority) → IsValid (kept p (set_priorities p pr))
  unfolding set_priorities kept
  set_priorities-IsValid pr = elim (Bool-cases (length pr == p.cfg.num_pieces)) [
    | inl e ↦
        rw e (record { wide = v.wide; packed = v.packed; tracked = v.tracked; sorted = v.sorted })
    | inr e ↦ rw e v
  ]

  pub set_strategy-IsValid : (s : Strategy) → IsValid (set_strategy p s)
  unfolding set_strategy
  set_strategy-IsValid s = record {
    wide = v.wide;
    packed = v.packed;
    tracked = v.tracked;
    sorted = v.sorted;
  }
