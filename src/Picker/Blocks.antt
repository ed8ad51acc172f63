-- ===== src/Picker/Blocks.antt =====
-- Which block an arrival is for: `blockIndexOf` of internal/picker/picker.go.
use go_torrent.Base.{
  ℕ, ◌*◌, ◌/◌, ◌%◌, ◌<◌, ◌≡◌, inl, inr, false, Option, none, some, arith, leb, ◌==◌, Bool-cases,
  length, length-set,
}
use go_torrent.Picker.Progress.{
  PieceProgress, block_size, block_length, block_index_of, block_done, mark_done,
}
use go_torrent.Picker.Cells.{count_arrived, count_arrived-set}

-- The arrival is the whole of block `i`.
abbrev pub IsBlock : PieceProgress → ℕ → ℕ → ℕ → Type 0
IsBlock pp begin len i =
    (i < length pp.cells) × (begin ≡ i * block_size) × (len ≡ block_length pp i)

module _ (pp : PieceProgress) (begin len : ℕ) where
  abbrev Located : Option ℕ → Type 0
  Located none = (i : ℕ) → ¬ IsBlock pp begin len i
  Located (some i) = IsBlock pp begin len i

  located : Located (block_index_of pp begin len)
  unfolding block_index_of
  located = elim (Bool-cases (begin % block_size == 0)) [
    | inr e ↦ rw e (λ i (_, b, _). ground arith)
    | inl e ↦ rw e (elim (Bool-cases (leb (length pp.cells) (begin / block_size))) [
      | inl out ↦ rw out (λ i (lt, b, _). ground arith)
      | inr inside ↦ rw inside (elim (Bool-cases (len == block_length pp (begin / block_size))) [
        | inr wrong ↦ rw wrong (λ i (lt, b, l).
            let same : begin / block_size ≡ i = omega arith in ground (arith, rw same at wrong))
        | inl right ↦ rw right (ground arith, ground arith, ground arith)
      ])
    ])
  ]

  pub block_index_of-IsBlock :
      (i : ℕ) → block_index_of pp begin len ≡ some i → IsBlock pp begin len i
  block_index_of-IsBlock i e = rw e at located

  pub block_index_of-none : (i : ℕ) → block_index_of pp begin len ≡ none → ¬ IsBlock pp begin len i
  block_index_of-none i e = (rw e at located) i

-- Two blocks of a piece start at different places.
pub IsBlock-unique :
    (pp : PieceProgress) (begin len i j : ℕ)
    → IsBlock pp begin len i
    → IsBlock pp begin len j
    → i ≡ j
IsBlock-unique pp begin len i j (_, b, _) (_, b', _) = omega arith

pub mark_done-cells :
    (pp : PieceProgress) (i : ℕ)
    → i < length pp.cells
    → block_done pp i ≡ false
    → pp.done ≡ count_arrived pp.cells
    → (length (mark_done pp i).cells ≡ length pp.cells)
      × ((mark_done pp i).done ≡ count_arrived (mark_done pp i).cells)
unfolding mark_done
mark_done-cells pp i h fresh e =
    (length-set pp.cells i _, omega (arith, e, count_arrived-set pp.cells i h fresh))
