-- ===== src/Picker.antt =====
-- Which blocks to request next: `Picker` of internal/picker/picker.go and priority.go. The map of
-- the pieces in progress is a list in the order of their index, which is the order `activeOrder`
-- sorts them into. The piece lengths and the random draws are arguments: a draw is named by how
-- many pieces are in progress, the tier, the piece looked at and the number of ties. The trace
-- callback `OnPieceStarted`, which only observes, is left out.
pub mod Progress
pub mod Availability
pub mod Cells
pub mod Invariant
pub mod Operations
pub mod Blocks
pub mod Picking
pub mod Starting
pub mod Expiry
pub mod History
mod Tests
pub mod Swarm
pub mod Select
pub mod Receiving
pub mod Rarest
use go_torrent.Base.{
  ℕ, zero, suc, ◌+◌, ◌-◌, Bool, true, false, not, ◌&&◌, ◌||◌, Option, none, some, List, [], ◌∷◌,
  ltb, leb, ◌==◌, if◌then◌else◌, length, get_or, set, ℤ, pos, negsuc, Result, ok, err,
}
use go_torrent.Bitfield
use go_torrent.Bitfield.{Bitfield}
use go_torrent.Picker.Progress.{
  Request, PieceProgress, is_complete, reset, reset_pending, block_index_of, block_done, mark_done,
  expire_cells, pending_requests,
}
use go_torrent.Picker.Availability.{count_of, new_availability}

pub data Strategy : Type 0 where
  rarest_first sequential : Strategy

pub data Priority : Type 0 where
  skip low normal high : Priority

-- Durations are natural numbers once the defaults are in.
pub record Config : Type 0 where
  pub num_pieces : ℕ
  pub piece_length : ℕ → ℕ
  pub strategy : Strategy
  pub max_active_pieces : ℕ
  pub request_timeout : ℕ
  pub endgame_threshold : ℕ
  pub endgame_timeout : ℕ

pub record Picker : Type 0 where
  pub cfg : Config
  pub have : Bitfield
  pub avail : List ℕ
  pub active : List PieceProgress
  pub priority : Option (List Priority)

-- A setting that is not positive takes its default; the defaults are in nanoseconds.
unfoldable pub positive_or : ℤ → ℕ → ℕ
positive_or (pos zero) default = default
positive_or (pos (suc n)) default = suc n
positive_or (negsuc n) default = default

pub data Error : Type 0 where
  no_pieces wrong_width wrong_count : Error

unfoldable pub new : ℤ → (ℕ → ℕ) → Strategy → ℤ → ℤ → ℤ → ℤ → Result Error Picker
new num_pieces piece_length strategy max_active timeout threshold endgame_timeout =
    let n = positive_or num_pieces 0 in
    if n == 0
    then err no_pieces
    else ok (record {
      cfg = record {
        num_pieces = n;
        piece_length = piece_length;
        strategy = strategy;
        max_active_pieces = positive_or max_active 64;
        request_timeout = positive_or timeout 15000000000;
        endgame_threshold = positive_or threshold 8;
        endgame_timeout = positive_or endgame_timeout 3000000000;
      };
      have = Bitfield.new (pos n);
      avail = new_availability (pos n);
      active = [];
      priority = none;
    })

-- The map of pieces in progress.
unfoldable pub find : List PieceProgress → ℕ → Option PieceProgress
find [] i = none
find (pp ∷ pps) i = if pp.index == i then some pp else find pps i

unfoldable pub put : List PieceProgress → PieceProgress → List PieceProgress
put [] x = x ∷ []
put (pp ∷ pps) x =
    let rest = put pps x in
    if ltb x.index pp.index
    then x ∷ pp ∷ pps
    else if x.index == pp.index
    then x ∷ pps
    else pp ∷ rest

unfoldable pub delete : List PieceProgress → ℕ → List PieceProgress
delete [] i = []
delete (pp ∷ pps) i = let rest = delete pps i in if pp.index == i then rest else pp ∷ rest

unfoldable pub is_active : List PieceProgress → ℕ → Bool
is_active [] i = false
is_active (pp ∷ pps) i = pp.index == i || is_active pps i

abbrev pub is_skip : Priority → Bool
is_skip skip = true
is_skip _ = false

abbrev pub same_priority : Priority → Priority → Bool
same_priority skip skip = true
same_priority low low = true
same_priority normal normal = true
same_priority high high = true
same_priority _ _ = false

-- The loop of `Remaining` after `i` pieces.
unfoldable pub count_wanted : List Priority → Bitfield → ℕ → ℕ
count_wanted pr have zero = 0
count_wanted pr have (suc i) =
    let n = count_wanted pr have i in
    if not (is_skip (get_or pr i normal)) && not (Bitfield.has have (pos i)) then suc n else n

unfoldable pub remaining : Picker → ℕ
remaining p = elim p.priority [
  | none ↦ p.cfg.num_pieces - p.have.count
  | some pr ↦ count_wanted pr p.have p.cfg.num_pieces
]

unfoldable pub complete : Picker → Bool
complete p = elim p.priority [ none ↦ Bitfield.complete p.have | some _ ↦ remaining p == 0 ]

unfoldable pub in_endgame : Picker → Bool
in_endgame p = ltb 0 (remaining p) && leb (remaining p) p.cfg.endgame_threshold

unfoldable pub current_timeout : Picker → ℕ
current_timeout p = if in_endgame p then p.cfg.endgame_timeout else p.cfg.request_timeout

unfoldable pub drop_verified : Bitfield → List PieceProgress → List PieceProgress
drop_verified have [] = []
drop_verified have (pp ∷ pps) =
    let rest = drop_verified have pps in
    if Bitfield.has have (pos pp.index) then rest else pp ∷ rest

unfoldable pub set_have : Picker → Bitfield → Result Error Picker
set_have p have =
    if not (have.n == p.cfg.num_pieces)
    then err wrong_width
    else ok (record p { have = have; active = drop_verified have p.active })

unfoldable pub set_priorities : Picker → List Priority → Result Error Picker
set_priorities p pr =
    if not (length pr == p.cfg.num_pieces)
    then err wrong_count
    else ok (record p { priority = some pr })

unfoldable pub set_strategy : Picker → Strategy → Picker
set_strategy p s = record p { cfg = record p.cfg { strategy = s } }

unfoldable pub mark_verified : Picker → ℕ → Picker
mark_verified p index = record p {
  have = Bitfield.set p.have (pos index);
  active = delete p.active index;
}

unfoldable pub mark_failed : Picker → ℕ → Picker
mark_failed p index = elim (find p.active index) [
  | none ↦ record p { have = Bitfield.clear p.have (pos index) }
  | some pp ↦ record p { active = put p.active (reset pp) }
]

unfoldable pub reset_active : List PieceProgress → List PieceProgress
reset_active [] = []
reset_active (pp ∷ pps) = record pp { cells = reset_pending pp.cells } ∷ reset_active pps

unfoldable pub reset_all_pending : Picker → Picker
reset_all_pending p = record p { active = reset_active p.active }

-- What `Received` reports.
pub record Arrival : Type 0 where
  pub picker : Picker
  pub completed : Bool
  pub wanted : Bool

abbrev pub ignored : Picker → Arrival
ignored p = record { picker = p; completed = false; wanted = false }

unfoldable pub received : Picker → ℕ → ℕ → ℕ → Arrival
received p index begin len = elim (find p.active index) [
  | none ↦ ignored p
  | some pp ↦ elim (block_index_of pp begin len) [
    | none ↦ ignored p
    | some i ↦ if block_done pp i then ignored p else record {
      picker = record p { active = put p.active (mark_done pp i) };
      completed = is_complete (mark_done pp i);
      wanted = true;
    }
  ]
]

unfoldable pub expire_active : ℕ → ℕ → List PieceProgress → ℕ × List PieceProgress
expire_active timeout now [] = (0, [])
expire_active timeout now (pp ∷ pps) =
    let r = expire_cells timeout now pp.cells in
    let rest = expire_active timeout now pps in (r.0 + rest.0, record pp { cells = r.1 } ∷ rest.1)

unfoldable pub expire : Picker → ℕ → ℕ × Picker
expire p now =
    let r = expire_active (current_timeout p) now p.active in (r.0, record p { active = r.1 })

unfoldable pub cancels : Picker → ℕ → List Request
cancels p index = elim (find p.active index) [
  | none ↦ []
  | some pp ↦ pending_requests pp 0 pp.cells
]
