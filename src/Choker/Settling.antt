-- ===== src/Choker/Settling.antt =====
-- What the messages of a round of `Run` leave: who is choked afterwards.
use go_torrent.Base.{
  ℕ, ◌≡◌, refl, sym, ap, ◌∙◌, ◌⊎◌, inl, inr, Bool, true, false, not, ◌&&◌, ◌||◌, List, [], ◌∷◌,
  ◌++◌, arith, ◌==◌, if◌then◌else◌, Bool-cases, All,
}
use go_torrent.Choker.Ranking.{sort-All, contains_id-sort}
use go_torrent.Choker.{
  sort, Peer, Choker, RankedPeer, Effect, store, rank, mem, contains_id, settle, run, choke,
  unchoke,
}

-- Whether peer `i` is choked after the messages, from whether it was before.
unfoldable pub choking_after : List Effect → ℕ → Bool → Bool
choking_after [] i b = b
choking_after (choke j ∷ es) i b = choking_after es i (if j == i then true else b)
choking_after (unchoke j ∷ es) i b = choking_after es i (if j == i then false else b)

unfoldable pub has_id : List Peer → ℕ → Bool
has_id [] i = false
has_id (p ∷ ps) i = p.id == i || has_id ps i

choking_after-append :
    (es fs : List Effect) (i : ℕ) (b : Bool)
    → choking_after (es ++ fs) i b ≡ choking_after fs i (choking_after es i b)
unfolding choking_after
choking_after-append [] fs i b = refl
choking_after-append (choke j ∷ es) fs i b = choking_after-append es fs i _
choking_after-append (unchoke j ∷ es) fs i b = choking_after-append es fs i _

module _ (i : ℕ) (choked wants : Bool) where
  -- Every peer listed under `i` is in this state: the identifier names one peer.
  abbrev pub Agrees : Peer → Type 0
  Agrees p = p.id ≡ i → (p.choking ≡ choked) × (p.interested ≡ wants)

  settle_lem :
      (chosen : List ℕ) (rps : List RankedPeer) (b : Bool)
      → All (λ rp. Agrees rp.peer) rps
      → (b ≡ choked) ⊎ (b ≡ not (mem i chosen))
      → choking_after (settle rps chosen) i b
        ≡ (if contains_id rps i then not (mem i chosen) else b)
  unfolding settle choking_after contains_id
  settle_lem chosen [] b h now = refl
  settle_lem chosen (rp ∷ rps) b h now = ground (
    arith,
    settle_lem chosen rps b h.1,
    settle_lem chosen rps true h.1,
    settle_lem chosen rps false h.1,
    h.0,
    now,
    ap (λ x. mem x chosen) {x = rp.peer.id} {y = i},
  )

  rank_ranked :
      (ps : List Peer) (m : ℕ → ℕ)
      → All Agrees ps
      → All (λ rp. Agrees rp.peer) (rank ps m).ranked
        × (contains_id (rank ps m).ranked i ≡ (has_id ps i && wants))
  unfolding rank contains_id has_id
  rank_ranked [] m h = (tt, refl)
  rank_ranked (p ∷ ps) m h =
      let rest = rank_ranked ps (store m p.id p.downloaded) h.1 in
      elim (Bool-cases p.interested) [
        | inl e ↦
            simp e (((λ q. ((h.0 q).0, sym e ∙ (h.0 q).1)), rest.0), ground (arith, rest.1, h.0))
        | inr e ↦ simp e (rest.0, ground (arith, rest.1, h.0))
      ]

  rank_effects :
      (ps : List Peer) (m : ℕ → ℕ) (b : Bool)
      → All Agrees ps
      → (b ≡ choked) ⊎ (b ≡ true)
      → choking_after (rank ps m).effects i b ≡ (if has_id ps i && not wants then true else b)
  unfolding rank choking_after has_id
  rank_effects [] m b h now = refl
  rank_effects (p ∷ ps) m b h now =
      let m' = store m p.id p.downloaded in
      ground (
        arith,
        rank_effects ps m' b h.1,
        rank_effects ps m' true h.1,
        rank_effects ps m' false h.1,
        h.0,
        now,
      )

settle-absent :
    (chosen : List ℕ) (rps : List RankedPeer) (i : ℕ) (b : Bool)
    → contains_id rps i ≡ false
    → choking_after (settle rps chosen) i b ≡ b
unfolding settle choking_after contains_id
settle-absent chosen [] i b h = refl
settle-absent chosen (rp ∷ rps) i b h = ground (arith, settle-absent chosen rps i b)

-- Where the entries under an identifier, one at least, agree on whether the peer is choked and
-- interested, it is unchoked after the round exactly when it is interested and chosen.
pub choking_after-run :
    (c : Choker) (draw : ℕ → ℕ) (peers : List Peer) (now i : ℕ) (choked wants : Bool)
    → has_id peers i ≡ true
    → All (Agrees i choked wants) peers
    → choking_after (run c draw peers now).effects i choked
      ≡ not (wants && mem i (run c draw peers now).chosen)
unfolding run
choking_after-run c draw peers now i choked wants here h =
    let r = rank peers c.last_bytes in
    let (agrees, listed) = rank_ranked i choked wants peers c.last_bytes h in
    let sorted = sort-All (λ rp. Agrees i choked wants rp.peer) r.ranked agrees in
    let first = rank_effects i choked wants peers c.last_bytes choked h (inl refl) in
    let same = contains_id-sort r.ranked i in
    let chosen = (run c draw peers now).chosen in
    choking_after-append r.effects (settle (sort r.ranked) chosen) i choked
    ∙ elim (Bool-cases wants) [
      | inl e ↦
          let kept : choking_after r.effects i choked ≡ choked = ground (arith, first, here, e) in
          rw kept (
            settle_lem i choked wants chosen (sort r.ranked) choked sorted (inl refl)
            ∙ ground (arith, same, listed, here, e))
      | inr e ↦
          settle-absent chosen (sort r.ranked) i _ (ground (arith, same, listed, here, e))
          ∙ ground (arith, first, here, e)
    ]
