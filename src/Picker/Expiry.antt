-- ===== src/Picker/Expiry.antt =====
-- What `Expire` of internal/picker/picker.go gives back.
use go_torrent.Base.{
  false, ℕ, ◌+◌, ◌≡◌, refl, inl, inr, List, [], ◌∷◌, arith, if◌then◌else◌, Bool-cases,
}
use go_torrent.Picker.{Picker, remaining, in_endgame, current_timeout, expire_active, expire}
use go_torrent.Picker.Progress.{Cell, PieceProgress, is_overdue, expire_cells, needed}

module _ (timeout now : ℕ) where
  -- How many requests of a piece, or of all pieces in progress, are out for too long.
  unfoldable pub overdue : List Cell → ℕ
  overdue [] = 0
  overdue (c ∷ cs) = (if is_overdue timeout now c then 1 else 0) + overdue cs

  unfoldable pub all_overdue : List PieceProgress → ℕ
  all_overdue [] = 0
  all_overdue (pp ∷ pps) = overdue pp.cells + all_overdue pps

  needed_lem : (t : ℕ) → is_overdue timeout now (record { state = needed; requested = t }) ≡ false
  unfolding is_overdue
  needed_lem t = refl

  expire_cells_lem :
      (cs : List Cell)
      → ((expire_cells timeout now cs).0 ≡ overdue cs)
        × (overdue (expire_cells timeout now cs).1 ≡ 0)
  unfolding expire_cells overdue
  expire_cells_lem [] = (refl, refl)
  expire_cells_lem (c ∷ cs) =
      let ih = expire_cells_lem cs in
      elim (Bool-cases (is_overdue timeout now c)) [
        | inl e ↦ rw e (omega (arith, ih.0), rw (needed_lem c.requested) (omega (arith, ih.1)))
        | inr e ↦ rw e (omega (arith, ih.0), ground (arith, ih.1, e))
      ]

  expire_active_lem :
      (pps : List PieceProgress)
      → ((expire_active timeout now pps).0 ≡ all_overdue pps)
        × (all_overdue (expire_active timeout now pps).1 ≡ 0)
  unfolding expire_active all_overdue
  expire_active_lem [] = (refl, refl)
  expire_active_lem (pp ∷ pps) =
      let ih = expire_active_lem pps in
      let cells = expire_cells_lem pp.cells in
      (omega (arith, ih.0, cells.0), omega (arith, ih.1, cells.1))

current_timeout-active :
    (p : Picker) (pps : List PieceProgress)
    → current_timeout (record p { active = pps }) ≡ current_timeout p
unfolding current_timeout in_endgame remaining
current_timeout-active p pps = refl

-- Expire reports how many requests were out for longer than the timeout, and leaves none that is.
pub expire_overdue :
    (p : Picker) (now : ℕ)
    → ((expire p now).0 ≡ all_overdue (current_timeout p) now p.active)
      × (all_overdue (current_timeout (expire p now).1) now (expire p now).1.active ≡ 0)
unfolding expire
expire_overdue p now =
    let h = expire_active_lem (current_timeout p) now p.active in
    (h.0, rw (current_timeout-active p _) h.1)
