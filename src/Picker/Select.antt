-- ===== src/Picker/Select.antt =====
-- Choosing a piece and filling a peer's requests: `nextPiece`, `pickByStrategy`,
-- `rarestWithTieBreak`, `start` and `Pick` of internal/picker/picker.go.
use go_torrent.Base.{
  ℕ, zero, suc, ◌+◌, ◌-◌, ◌/◌, Bool, not, ◌&&◌, ◌||◌, Option, none, some, List, [], ◌∷◌, ◌++◌, ltb,
  leb, ◌==◌, if◌then◌else◌, length, get_or, replicate, ℤ, pos, negsuc,
}
use go_torrent.Bitfield
use go_torrent.Picker.{
  Priority, Config, Picker, put, is_active, same_priority, complete, in_endgame, rarest_first,
  sequential, low, normal, high,
}
use go_torrent.Picker.Progress.{Request, PieceProgress, block_size, no_cell, fill}
use go_torrent.Picker.Availability.{count_of}

-- The state of the loop of `rarestWithTieBreak`.
pub record Best : Type 0 where
  pub piece : Option ℕ
  pub count : ℕ
  pub ties : ℕ

-- The state after `i` pieces. `draw i ties` is `Rand.Intn(ties)` at piece `i`.
unfoldable pub rarest : List ℕ → (ℕ → Bool) → (ℕ → ℕ → ℕ) → ℕ → Best
rarest avail want draw zero = record { piece = none; count = 0; ties = 0 }
rarest avail want draw (suc i) =
    let b = rarest avail want draw i in
    let c = count_of avail i in
    if c == 0 || not (want i) then b else elim b.piece [
      | none ↦ record { piece = some i; count = c; ties = 1 }
      | some best ↦
          if ltb c b.count
          then record { piece = some i; count = c; ties = 1 }
          else if c == b.count
          then record {
            piece = if draw i (suc b.ties) == 0 then some i else some best;
            count = b.count;
            ties = suc b.ties;
          }
          else b
    ]

-- The sequential scan, after `i` pieces.
unfoldable pub first_wanted : (ℕ → Bool) → ℕ → Option ℕ
first_wanted want zero = none
first_wanted want (suc i) = elim (first_wanted want i) [
  | some j ↦ some j
  | none ↦ if want i then some i else none
]

unfoldable pub pick_by_strategy : Picker → (ℕ → Bool) → (ℕ → ℕ → ℕ) → Option ℕ
pick_by_strategy p want draw = elim p.cfg.strategy [
  | sequential ↦ first_wanted want p.cfg.num_pieces
  | rarest_first ↦ (rarest p.avail want draw p.cfg.num_pieces).piece
]

-- The draws of one call of `Pick`.
abbrev pub Draws : Type 0
Draws = ℕ → Priority → ℕ → ℕ → ℕ

unfoldable pub base_want : Picker → (ℕ → Bool) → ℕ → Bool
base_want p peer_has i =
    not (Bitfield.has p.have (pos i)) && not (is_active p.active i) && peer_has i

unfoldable pub pick_tier : Picker → List Priority → (ℕ → Bool) → Draws → Priority → Option ℕ
pick_tier p pr peer_has draws tier =
    pick_by_strategy p (λ i. same_priority (get_or pr i normal) tier && base_want p peer_has i)
      (draws (length p.active) tier)

-- The tiers of `priorityTiers`, highest first; without priorities there is one.
unfoldable pub by_tier :
    Option (List Priority) → Option ℕ → (List Priority → Priority → Option ℕ) → Option ℕ
by_tier none all tier = all
by_tier (some pr) all tier = elim (tier pr high) [
  | some i ↦ some i
  | none ↦ elim (tier pr normal) [ some i ↦ some i | none ↦ tier pr low ]
]

unfoldable pub next_piece : Picker → (ℕ → Bool) → Draws → Option ℕ
next_piece p peer_has draws =
    by_tier p.priority (pick_by_strategy p (base_want p peer_has) (draws (length p.active) normal))
      (λ pr tier. pick_tier p pr peer_has draws tier)

unfoldable pub new_progress : Config → ℕ → PieceProgress
new_progress cfg index = record {
  index = index;
  len = cfg.piece_length index;
  cells = replicate ((cfg.piece_length index + (block_size - 1)) / block_size) no_cell;
  done = 0;
}

-- The loop over the pieces in progress, with room for `room` more requests.
unfoldable pub fill_active :
    (ℕ → Bool) → ℕ → Bool → ℕ → List PieceProgress → List Request × List PieceProgress
fill_active peer_has now endgame room [] = ([], [])
fill_active peer_has now endgame room (pp ∷ pps) =
    if room == 0
    then ([], pp ∷ pps)
    else if not (peer_has pp.index)
    then (let rest = fill_active peer_has now endgame room pps in (rest.0, pp ∷ rest.1))
    else let r = fill pp now endgame room in
      let rest = fill_active peer_has now endgame (room - length r.0) pps in
      (r.0 ++ rest.0, r.1 ∷ rest.1)

-- The loop that starts new pieces. Each round starts one, so the free places are fuel enough.
unfoldable pub start_pieces : ℕ → Picker → (ℕ → Bool) → Draws → ℕ → Bool → ℕ → List Request × Picker
start_pieces zero p peer_has draws now endgame room = ([], p)
start_pieces (suc fuel) p peer_has draws now endgame room =
    if room == 0 || leb p.cfg.max_active_pieces (length p.active)
    then ([], p)
    else elim (next_piece p peer_has draws) [
      | none ↦ ([], p)
      | some i ↦
          let r = fill (new_progress p.cfg i) now endgame room in
          let p' = record p { active = put p.active r.1 } in
          let rest = start_pieces fuel p' peer_has draws now endgame (room - length r.0) in
          (r.0 ++ rest.0, rest.1)
    ]

unfoldable pub pick : Picker → (ℕ → Bool) → Draws → ℤ → ℕ → List Request × Picker
pick p peer_has draws (negsuc limit) now = ([], p)
pick p peer_has draws (pos limit) now =
    if limit == 0 || complete p
    then ([], p)
    else let endgame = in_endgame p in
      let r = fill_active peer_has now endgame limit p.active in
      let p' = record p { active = r.1 } in
      let fuel = p.cfg.max_active_pieces - length p.active in
      let rest = start_pieces fuel p' peer_has draws now endgame (limit - length r.0) in
      (r.0 ++ rest.0, rest.1)
