-- ===== src/Picker/Receiving.antt =====
-- What `Received` of internal/picker/picker.go reports.
use go_torrent.Base.{
  ℕ, ◌≡◌, refl, sym, ◌∙◌, ◌↔◌, inl, inr, true, false, false≢true, some, arith, Bool-cases,
  Option-cases,
}
use go_torrent.Picker.{Picker, find, received}
use go_torrent.Picker.Progress.{PieceProgress, block_index_of, block_done}
use go_torrent.Picker.Blocks.{IsBlock, block_index_of-IsBlock, block_index_of-none, IsBlock-unique}
use mathlib.Core.Option.{some-injective}

module _ (p : Picker) (index begin len : ℕ) where
  -- A block of a piece in progress that has not arrived yet.
  abbrev pub IsAwaited : Type 0
  IsAwaited =
      (pp : PieceProgress) × (i : ℕ) × (find p.active index ≡ some pp)
      × IsBlock pp begin len i
      × (block_done pp i ≡ false)

  -- An arrival is wanted exactly when it is the whole of a block, not yet arrived, of a piece that
  -- is in progress, whether the block is asked for at the moment or not.
  pub received_wanted : ((received p index begin len).wanted ≡ true) ↔ IsAwaited
  unfolding received
  received_wanted = elim (Option-cases (find p.active index)) [
    | inl e ↦ rw (e, received) (ground arith)
    | inr (pp, e) ↦
        rw (e, received)
          (elim (Option-cases (block_index_of pp begin len)) [
            | inl e' ↦ rw e' (
              (λ h. absurd (false≢true h)),
              λ (pp', i, f, b, _).
                  let same : pp ≡ pp' = some-injective pp pp' f in
                  absurd (block_index_of-none pp begin len i e' (rw same b)),
            )
            | inr (i, e') ↦ rw e' (elim (Bool-cases (block_done pp i)) [
              | inl twice ↦ rw twice (
                (λ h. absurd (false≢true h)),
                λ (pp', j, f, b, fresh).
                    let same : pp ≡ pp' = some-injective pp pp' f in
                    let here : i ≡ j =
                      IsBlock-unique pp begin len i j (block_index_of-IsBlock pp begin len i e')
                        (rw same b) in
                    absurd (false≢true (sym (rw (same, here) fresh) ∙ twice)),
              )
              | inr fresh ↦
                  rw fresh (
                    (λ _. (pp, i, refl, block_index_of-IsBlock pp begin len i e', fresh)),
                    λ _. refl,
                  )
            ])
          ])
  ]
