-- ===== src/Picker/Starting.antt =====
-- The pieces that `nextPiece` and `Pick` of internal/picker/picker.go start.
use go_torrent.Base.{
  ℕ, zero, suc, ◌+◌, ◌-◌, ◌≤◌, ◌<◌, max, ◌≡◌, refl, sym, ap, ◌⊎◌, inl, inr, Bool, true, false, ◌&&◌,
  Option, none, some, List, [], ◌∷◌, ◌++◌, arith, ltb, leb, ◌==◌, Bool-cases, Option-cases, length,
  All, length-append, All-append, length-replicate, pos,
}
use go_torrent.Bitfield
use go_torrent.Picker.{
  Strategy, Priority, Picker, put, is_active, complete, in_endgame, rarest_first, sequential, low,
  normal, high,
}
use go_torrent.Picker.Progress.{Request, PieceProgress, fill}
use go_torrent.Picker.Cells.{count_arrived-replicate}
use go_torrent.Picker.Invariant.{IsProgress, put-All, put-Ascending, IsValid}
use go_torrent.Picker.Select.{
  first_wanted, pick_by_strategy, Draws, base_want, pick_tier, by_tier, next_piece, new_progress,
  fill_active, start_pieces, pick,
}
use go_torrent.Picker.Picking.{IsWork, fill-IsWork, fill-IsProgress, fill_active_lem}
use go_torrent.Picker.Rarest.{rarest-IsRarest, IsRarest}

abbrev Wanted : (ℕ → Bool) → ℕ → Option ℕ → Type 0
Wanted want n none = Unit
Wanted want n (some i) = (i < n) × (want i ≡ true)

Wanted-first : (want : ℕ → Bool) (n : ℕ) → Wanted want n (first_wanted want n)
unfolding first_wanted
Wanted-first want zero = tt
Wanted-first want (suc n) =
    let ih = Wanted-first want n in
    elim (Option-cases (first_wanted want n)) [
      | inr (j, e) ↦ let h = rw e at ih in rw e (omega (arith, h.0), h.1)
      | inl e ↦
          rw e (elim (Bool-cases (want n)) [ inl w ↦ rw w (omega arith, w) | inr w ↦ rw w tt ])
    ]

Wanted-rarest :
    (avail : List ℕ) (want : ℕ → Bool) (n : ℕ) (o : Option ℕ)
    → IsRarest avail want n o
    → Wanted want n o
Wanted-rarest avail want n none h = tt
Wanted-rarest avail want n (some i) h = (h.0, ground (arith, h.1))

Wanted-narrow :
    (q want : ℕ → Bool) (n : ℕ) (o : Option ℕ) → Wanted (λ i. q i && want i) n o → Wanted want n o
Wanted-narrow q want n none h = tt
Wanted-narrow q want n (some i) h = (h.0, ground (arith, h.1))

Wanted-by_tier :
    (want : ℕ → Bool) (n : ℕ) (priority : Option (List Priority)) (all : Option ℕ)
    (tier : List Priority → Priority → Option ℕ)
    → Wanted want n all
    → ((pr : List Priority) (t : Priority) → Wanted want n (tier pr t))
    → Wanted want n (by_tier priority all tier)
unfolding by_tier
Wanted-by_tier want n none all tier h hs = h
Wanted-by_tier want n (some pr) all tier h hs = elim (Option-cases (tier pr high)) [
  | inr (i, e) ↦ rw (e, by_tier) (rw e at (hs pr high))
  | inl e ↦
      rw (e, by_tier)
        (elim (Option-cases (tier pr normal)) [
          | inr (i, f) ↦ rw (f, by_tier) (rw f at (hs pr normal))
          | inl f ↦ rw (f, by_tier) (hs pr low)
        ])
]

Strategy-cases : (s : Strategy) → (s ≡ sequential) ⊎ (s ≡ rarest_first)
Strategy-cases sequential = inl refl
Strategy-cases rarest_first = inr refl

module _ (p : Picker) where
  Wanted-strategy :
      (want : ℕ → Bool) (draw : ℕ → ℕ → ℕ)
      → Wanted want p.cfg.num_pieces (pick_by_strategy p want draw)
  unfolding pick_by_strategy
  Wanted-strategy want draw = elim (Strategy-cases p.cfg.strategy) [
    | inl e ↦ rw e (Wanted-first want p.cfg.num_pieces)
    | inr e ↦ rw e (
        Wanted-rarest p.avail want p.cfg.num_pieces _
          (rarest-IsRarest p.avail want draw p.cfg.num_pieces))
  ]

  module _ (peer_has : ℕ → Bool) (draws : Draws) where
    Wanted-tier :
        (pr : List Priority) (tier : Priority)
        → Wanted (base_want p peer_has) p.cfg.num_pieces (pick_tier p pr peer_has draws tier)
    unfolding pick_tier
    Wanted-tier pr tier = Wanted-narrow _ (base_want p peer_has) _ _ (Wanted-strategy _ _)

    -- A piece to start is one of the torrent that is neither verified nor in progress and that
    -- the peer has.
    pub Wanted-next_piece :
        Wanted (base_want p peer_has) p.cfg.num_pieces (next_piece p peer_has draws)
    unfolding next_piece
    Wanted-next_piece = Wanted-by_tier _ _ p.priority _ _ (Wanted-strategy _ _) Wanted-tier

-- Storing a piece that is not in progress makes one more.
length-put :
    (pps : List PieceProgress) (x : PieceProgress)
    → is_active pps x.index ≡ false
    → length (put pps x) ≡ suc (length pps)
unfolding put is_active
length-put [] x h = refl
length-put (pp ∷ pps) x h = elim (Bool-cases (ltb x.index pp.index)) [
  | inl e ↦ rw e refl
  | inr e ↦
      let other : (x.index == pp.index) ≡ false = ground arith in
      let rest : is_active pps x.index ≡ false = ground arith in
      rw (e, other) (ap suc (length-put pps x rest))
]

module _ (peer_has : ℕ → Bool) (draws : Draws) (now : ℕ) (endgame : Bool) where
  abbrev WorkFor : Picker → Request → Type 0
  WorkFor p = IsWork p.cfg.num_pieces p.cfg.piece_length (λ i. Bitfield.has p.have (pos i)) peer_has

  -- What one call hands out and leaves: work for the peer within the room, a valid picker of the
  -- same torrent, and no more work unless the room or the places are used up.
  pub record Picks (p : Picker) (room : ℕ) (r : List Request × Picker) : Type 0 where
    pub work : All (WorkFor p) r.0
    pub within : length r.0 ≤ room
    pub valid : IsValid r.1
    pub places : length r.1.active ≤ max p.cfg.max_active_pieces (length p.active)
    pub used_up :
        (length r.0 ≡ room)
        ⊎ ((p.cfg.max_active_pieces ≤ length r.1.active) ⊎ (next_piece r.1 peer_has draws ≡ none))

  new_progress-IsProgress :
      (p : Picker) (i : ℕ)
      → i < p.cfg.num_pieces
      → Bitfield.has p.have (pos i) ≡ false
      → IsProgress p.cfg.num_pieces p.cfg.piece_length
          (λ i. Bitfield.has p.have (pos i))
          (new_progress p.cfg i)
  unfolding new_progress
  new_progress-IsProgress p i lt m =
      (lt, m, refl, length-replicate _ _, sym (count_arrived-replicate _))

  -- The picker after one more piece is started.
  abbrev after_start : Picker → ℕ → ℕ → Picker
  after_start p i room = record p {
    active = put p.active (fill (new_progress p.cfg i) now endgame room).1;
  }

  -- What a started piece adds to what the later rounds hand out.
  more-Picks :
      (room : ℕ) (p : Picker) (i : ℕ) {rest : List Request × Picker}
      → IsValid p
      → (i < p.cfg.num_pieces) × (base_want p peer_has i ≡ true)
      → (IsValid (after_start p i room)
          → length (after_start p i room).active ≡ suc (length p.active)
          → Picks
              (after_start p i room)
              (room - length (fill (new_progress p.cfg i) now endgame room).0)
              rest)
      → length p.active < p.cfg.max_active_pieces
      → Picks p room ((fill (new_progress p.cfg i) now endgame room).0 ++ rest.0, rest.1)
  unfolding base_want
  more-Picks room p i {rest} v (lt, w) later free =
      let verified_now : ℕ → Bool = λ j. Bitfield.has p.have (pos j) in
      let progress = new_progress-IsProgress p i lt (ground arith) in
      let held : peer_has i ≡ true = ground arith in
      let inactive : is_active p.active i ≡ false = ground arith in
      let (fw, fc) =
        fill-IsWork p.cfg.num_pieces p.cfg.piece_length verified_now peer_has (new_progress p.cfg i)
          progress (unfold new_progress in held) now endgame room in
      let one_more : length (after_start p i room).active ≡ suc (length p.active) =
        length-put p.active _ (unfold fill new_progress in inactive) in
      let then_on =
        later
          (record {
            wide = v.wide;
            packed = v.packed;
            tracked = put-All _ p.active _ v.tracked (
                fill-IsProgress p.cfg.num_pieces p.cfg.piece_length verified_now peer_has _ now
                  endgame room progress);
            sorted = put-Ascending 0 p.active _ (omega arith) v.sorted;
          })
          one_more in
      record {
        work = All-append _ _ _ fw then_on.work;
        within =
            rw (length-append (fill (new_progress p.cfg i) now endgame room).0 rest.0)
              (omega (arith, fc, then_on.within));
        valid = then_on.valid;
        places = omega (arith, then_on.places, one_more, free);
        used_up = elim then_on.used_up [
          | inl all ↦ inl (
              rw (length-append (fill (new_progress p.cfg i) now endgame room).0 rest.0)
                (omega (arith, all, fc)))
          | inr other ↦ inr other
        ];
      }

  start_pieces_lem :
      (fuel room : ℕ) (p : Picker)
      → IsValid p
      → p.cfg.max_active_pieces ≤ fuel + length p.active
      → Picks p room (start_pieces fuel p peer_has draws now endgame room)
  unfolding start_pieces
  start_pieces_lem zero room p v enough = record {
    work = tt;
    within = omega arith;
    valid = v;
    places = omega arith;
    used_up = inr (inl (omega (arith, enough)));
  }
  start_pieces_lem (suc fuel) room p v enough = elim (Bool-cases (room == 0)) [
    | inl none_left ↦ rw none_left (record {
      work = tt;
      within = omega arith;
      valid = v;
      places = omega arith;
      used_up = inl (ground arith);
    })
    | inr some_left ↦ elim (Bool-cases (leb p.cfg.max_active_pieces (length p.active))) [
      | inl full ↦
          rw (some_left, full)
            (record {
              work = tt;
              within = omega arith;
              valid = v;
              places = omega arith;
              used_up = inr (inl (ground arith));
            })
      | inr free ↦
          rw (some_left, free)
            (elim (Option-cases (next_piece p peer_has draws)) [
              | inl nothing ↦ rw nothing (record {
                work = tt;
                within = omega arith;
                valid = v;
                places = omega arith;
                used_up = inr (inr nothing);
              })
              | inr (i, e) ↦ rw e (
                  more-Picks room p i v (rw e at (Wanted-next_piece p peer_has draws))
                    (λ v' len.
                      start_pieces_lem fuel _ (after_start p i room) v'
                        (omega (arith, enough, len)))
                    (ground arith))
            ])
    ]
  ]

-- Work that was handed out before the rest, from a picker with as many pieces in progress.
more_work :
    (peer_has : ℕ → Bool) (draws : Draws) (now : ℕ) (endgame : Bool) (p : Picker)
    (active : List PieceProgress) (room : ℕ) (first : List Request) (rest : List Request × Picker)
    → length active ≡ length p.active
    → length first ≤ room
    → All (WorkFor peer_has draws now endgame p) first
    → Picks peer_has draws now endgame (record p { active = active }) (room - length first) rest
    → Picks peer_has draws now endgame p room (first ++ rest.0, rest.1)
more_work peer_has draws now endgame p active room first rest same within work h = record {
  work = All-append _ first rest.0 work h.work;
  within = rw (length-append first rest.0) (omega (arith, within, h.within));
  valid = h.valid;
  places = omega (arith, h.places, same);
  used_up = elim h.used_up [
    | inl all ↦ inl (rw (length-append first rest.0) (omega (arith, all, within)))
    | inr other ↦ inr other
  ];
}

module _ (p : Picker) (peer_has : ℕ → Bool) (draws : Draws) (limit now : ℕ) (v : IsValid p) where
  -- From a valid picker whose download is not complete, `Pick` hands out at most `max` requests,
  -- each for a block of a missing piece that the peer has, keeps the picker valid and the bound on
  -- the pieces in progress, and stops early only where no place is free or no piece is left to
  -- start.
  pub pick-Picks :
      complete p ≡ false
      → Picks peer_has draws now (in_endgame p) p limit (pick p peer_has draws (pos limit) now)
  unfolding pick
  pick-Picks unfinished = elim (Bool-cases (limit == 0)) [
    | inl e ↦ rw e (record {
      work = tt;
      within = omega arith;
      valid = v;
      places = omega arith;
      used_up = inl (ground arith);
    })
    | inr e ↦
        let endgame = in_endgame p in
        let r = fill_active peer_has now endgame limit p.active in
        let (work, within, tracked, sorted, same) =
          fill_active_lem _ _ _ peer_has now endgame limit 0 p.active v.tracked v.sorted in
        let p' : Picker = record p { active = r.1 } in
        let rest =
          start_pieces_lem peer_has draws now endgame (p.cfg.max_active_pieces - length p.active)
            (limit - length r.0) p'
            (record { wide = v.wide; packed = v.packed; tracked = tracked; sorted = sorted })
            (omega (arith, same)) in
        rw (e, unfinished)
          (more_work peer_has draws now endgame p r.1 limit r.0 _ same within work rest)
  ]
