-- ===== src/Picker/Progress.antt =====
-- The blocks of one piece in progress: `pieceProgress`, `blockIndexOf` and `fill` of
-- internal/picker/picker.go. The slices `states` and `requested`, always made together, are one
-- list of cells. A length and a time are natural numbers.
use go_torrent.Base.{
  ℕ, zero, suc, ◌+◌, ◌-◌, ◌*◌, ◌/◌, ◌%◌, Bool, true, false, not, ◌&&◌, Option, none, some, List, [],
  ◌∷◌, ltb, leb, ◌==◌, if◌then◌else◌, length, get_or, set,
}

pub data BlockState : Type 0 where
  needed : BlockState
  pending : BlockState
  arrived : BlockState

abbrev pub is_pending : BlockState → Bool
is_pending needed = false
is_pending pending = true
is_pending arrived = false

abbrev pub is_arrived : BlockState → Bool
is_arrived needed = false
is_arrived pending = false
is_arrived arrived = true

pub record Request : Type 0 where
  pub index : ℕ
  pub begin : ℕ
  pub len : ℕ

pub record Cell : Type 0 where
  pub state : BlockState
  pub requested : ℕ

pub record PieceProgress : Type 0 where
  pub index : ℕ
  pub len : ℕ
  pub cells : List Cell
  pub done : ℕ

abbrev pub block_size : ℕ
block_size = 16384

unfoldable pub is_complete : PieceProgress → Bool
is_complete pp = pp.done == length pp.cells

-- Where the block starts past the end of the piece, Go's result is negative and this one is 0.
unfoldable pub block_length : PieceProgress → ℕ → ℕ
block_length pp i =
    if ltb pp.len (i * block_size + block_size) then pp.len - i * block_size else block_size

unfoldable pub reset_cells : List Cell → List Cell
reset_cells [] = []
reset_cells (c ∷ cs) = record c { state = needed } ∷ reset_cells cs

unfoldable pub reset : PieceProgress → PieceProgress
reset pp = record pp { cells = reset_cells pp.cells; done = 0 }

-- `ResetAllPending` on one piece.
unfoldable pub reset_pending : List Cell → List Cell
reset_pending [] = []
reset_pending (c ∷ cs) =
    (if is_pending c.state then record c { state = needed } else c) ∷ reset_pending cs

-- `begin` and `length` come from the wire, so they are not negative.
unfoldable pub block_index_of : PieceProgress → ℕ → ℕ → Option ℕ
block_index_of pp begin len =
    if not (begin % block_size == 0)
    then none
    else let i = begin / block_size in
      if leb (length pp.cells) i
      then none
      else if not (len == block_length pp i)
      then none
      else some i

abbrev pub no_cell : Cell
no_cell = record { state = needed; requested = 0 }

abbrev pub block_done : PieceProgress → ℕ → Bool
block_done pp i = is_arrived (get_or pp.cells i no_cell).state

unfoldable pub mark_done : PieceProgress → ℕ → PieceProgress
mark_done pp i = record pp {
  cells = set pp.cells i (record (get_or pp.cells i no_cell) { state = arrived });
  done = suc pp.done;
}

-- `Expire` on the blocks of one piece.
unfoldable pub is_overdue : ℕ → ℕ → Cell → Bool
is_overdue timeout now c = is_pending c.state && ltb timeout (now - c.requested)

unfoldable pub expire_cells : ℕ → ℕ → List Cell → ℕ × List Cell
expire_cells timeout now [] = (0, [])
expire_cells timeout now (c ∷ cs) =
    let rest = expire_cells timeout now cs in
    if is_overdue timeout now c
    then (suc rest.0, record c { state = needed } ∷ rest.1)
    else (rest.0, c ∷ rest.1)

-- Outside the endgame an outstanding block is left alone.
unfoldable pub skips : Bool → BlockState → Bool
skips endgame needed = false
skips endgame pending = not endgame
skips endgame arrived = true

abbrev pub block_request : PieceProgress → ℕ → Request
block_request pp i = record { index = pp.index; begin = i * block_size; len = block_length pp i }

-- The loop of `fill` from block `i`, with room for `room` more requests.
unfoldable pub fill_cells : PieceProgress → ℕ → Bool → ℕ → ℕ → List Cell → List Request × List Cell
fill_cells pp now endgame room i [] = ([], [])
fill_cells pp now endgame zero i (c ∷ cs) = ([], c ∷ cs)
fill_cells pp now endgame (suc room) i (c ∷ cs) =
    if skips endgame c.state
    then (let rest = fill_cells pp now endgame (suc room) (suc i) cs in (rest.0, c ∷ rest.1))
    else let rest = fill_cells pp now endgame room (suc i) cs in
      (block_request pp i ∷ rest.0, record { state = pending; requested = now } ∷ rest.1)

unfoldable pub fill : PieceProgress → ℕ → Bool → ℕ → List Request × PieceProgress
fill pp now endgame room =
    let r = fill_cells pp now endgame room 0 pp.cells in (r.0, record pp { cells = r.1 })

-- `Cancels` for one piece.
unfoldable pub pending_requests : PieceProgress → ℕ → List Cell → List Request
pending_requests pp i [] = []
pending_requests pp i (c ∷ cs) =
    let rest = pending_requests pp (suc i) cs in
    if is_pending c.state then block_request pp i ∷ rest else rest
