-- ===== src/Picker/Picking.antt =====
-- What `Pick` of internal/picker/picker.go hands out.
use go_torrent.Base.{
  ℕ, zero, suc, ◌+◌, ◌-◌, ◌%◌, ◌≤◌, ◌<◌, ◌≡◌, refl, ap, inl, inr, Bool, true, false, List, [], ◌∷◌,
  arith, ◌==◌, Bool-cases, length, All, length-append, All-append,
}
use go_torrent.Picker.Progress.{
  Request, Cell, PieceProgress, block_size, block_length, skips, block_request, fill_cells, fill,
}
use go_torrent.Picker.Cells.{fill_cells-SameCells}
use go_torrent.Picker.Invariant.{IsProgress, Ascending}
use go_torrent.Picker.Operations.{IsProgress-SameCells}
use go_torrent.Picker.Select.{fill_active}

-- A request for a block of a piece that is missing here and that the peer has: it starts on a
-- block boundary, is not empty, is at most a block long and ends inside the piece.
pub record IsWork (n : ℕ) (f : ℕ → ℕ) (verified peer_has : ℕ → Bool) (r : Request) : Type 0 where
  pub of_torrent : r.index < n
  pub missing : verified r.index ≡ false
  pub held : peer_has r.index ≡ true
  pub aligned : r.begin % block_size ≡ 0
  pub nonempty : 0 < r.len
  pub small : r.len ≤ block_size
  pub in_piece : r.begin + r.len ≤ f r.index

module _ (n : ℕ) (f : ℕ → ℕ) (verified peer_has : ℕ → Bool) where
  block_request-IsWork :
      (pp : PieceProgress) (i : ℕ)
      → IsProgress n f verified pp
      → peer_has pp.index ≡ true
      → i < length pp.cells
      → IsWork n f verified peer_has (block_request pp i)
  unfolding block_length
  block_request-IsWork pp i (m, l, len, cells, d) h lt = record {
    of_torrent = m;
    missing = l;
    held = h;
    aligned = omega arith;
    nonempty = ground arith;
    small = ground arith;
    in_piece = ground arith;
  }

  module _ (pp : PieceProgress) (ok_pp : IsProgress n f verified pp)
      (held : peer_has pp.index ≡ true) (now : ℕ) (endgame : Bool) where
    fill_cells-IsWork :
        (room i : ℕ) (cs : List Cell)
        → i + length cs ≡ length pp.cells
        → All (IsWork n f verified peer_has) (fill_cells pp now endgame room i cs).0
          × (length (fill_cells pp now endgame room i cs).0 ≤ room)
    unfolding fill_cells
    fill_cells-IsWork room i [] e = (tt, omega arith)
    fill_cells-IsWork zero i (c ∷ cs) e = (tt, omega arith)
    fill_cells-IsWork (suc room) i (c ∷ cs) e = elim (Bool-cases (skips endgame c.state)) [
      | inl s ↦ rw s (fill_cells-IsWork (suc room) (suc i) cs (omega arith))
      | inr s ↦
          let rest = fill_cells-IsWork room (suc i) cs (omega arith) in
          rw s ((block_request-IsWork pp i ok_pp held (omega arith), rest.0), omega (arith, rest.1))
    ]

    pub fill-IsWork :
        (room : ℕ)
        → All (IsWork n f verified peer_has) (fill pp now endgame room).0
          × (length (fill pp now endgame room).0 ≤ room)
    unfolding fill
    fill-IsWork room = fill_cells-IsWork room 0 pp.cells (omega arith)

  pub fill-IsProgress :
      (pp : PieceProgress) (now : ℕ) (endgame : Bool) (room : ℕ)
      → IsProgress n f verified pp
      → IsProgress n f verified (fill pp now endgame room).1
  unfolding fill
  fill-IsProgress pp now endgame room h =
      IsProgress-SameCells n f verified pp _ (fill_cells-SameCells pp now endgame room 0 pp.cells) h

  module _ (now : ℕ) (endgame : Bool) where
    pub fill_active_lem :
        (room least : ℕ) (pps : List PieceProgress)
        → All (IsProgress n f verified) pps
        → Ascending least pps
        → let r = fill_active peer_has now endgame room pps in
          All (IsWork n f verified peer_has) r.0
          × (length r.0 ≤ room)
          × All (IsProgress n f verified) r.1
          × Ascending least r.1
          × (length r.1 ≡ length pps)
    unfolding fill_active fill
    fill_active_lem room least [] h up = (tt, omega arith, tt, tt, refl)
    fill_active_lem room least (pp ∷ pps) h up = elim (Bool-cases (room == 0)) [
      | inl e ↦ rw e (tt, omega arith, h, up, refl)
      | inr e ↦ rw e (elim (Bool-cases (peer_has pp.index)) [
        | inr no_piece ↦
            let (w, c, pr, asc, len) = fill_active_lem room (suc pp.index) pps h.1 up.1 in
            rw no_piece (w, c, (h.0, pr), (up.0, asc), ap suc len)
        | inl held ↦
            let (w, c) = fill-IsWork pp h.0 held now endgame room in
            let (w', c', pr, asc, len) =
              fill_active_lem (room - length (fill pp now endgame room).0) (suc pp.index) pps h.1
                up.1 in
            rw held (
              All-append _ _ _ w w',
              rw (length-append (fill pp now endgame room).0 _) (omega (arith, c, c')),
              (fill-IsProgress pp now endgame room h.0, pr),
              (up.0, asc),
              ap suc len,
            )
      ])
    ]
