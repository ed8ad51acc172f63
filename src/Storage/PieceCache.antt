-- ===== src/Storage/PieceCache.antt =====
-- The cache of pieces in memory: internal/storage/piececache.go. SHA-1 is a parameter, as a function
-- on byte strings; the lock makes each call one step.
use go_torrent.Base.{
  map_get, map_set, map_delete, ℕ, ◌+◌, ◌-◌, Bool, true, false, not, Option, none, some, List, [],
  ltb, leb, if◌then◌else◌, length, replicate, pos, ok, copy_at,
}
use go_torrent.Bytes.{Bytes, same_text}
use go_torrent.Storage.{FileRegion, Disk, Error, Outcome, write_at}
pub mod Budget
pub mod Blocks
pub mod Flush

pub record CachedPiece : Type 0 where
  pub offset : ℕ
  pub content : Bytes

pub record PieceCache : Type 0 where
  pub max_bytes : ℕ
  pub used : ℕ
  pub pieces : List (ℕ × CachedPiece)

-- `NewPieceCache`. A bound below 0, which the code takes too, is left out: on pieces of at least one
-- byte it refuses to buffer as the bound 0 does.
abbrev pub new : ℕ → PieceCache
new max_bytes = record { max_bytes = max_bytes; used = 0; pieces = [] }

-- `copy(p.content[begin:], data)` and its place in the map; a slice that begins beyond its bytes is a
-- panic, `none`.
unfoldable pub put_block : PieceCache → ℕ → CachedPiece → ℕ → Bytes → Option (Bool × PieceCache)
put_block c index p begin block =
    if leb begin (length p.content)
    then some (
      true,
      record {
        max_bytes = c.max_bytes;
        used = c.used;
        pieces =
            map_set c.pieces index
              (record { offset = p.offset; content = copy_at begin block p.content });
      },
    )
    else none

unfoldable pub write_block : PieceCache → ℕ → ℕ → ℕ → ℕ → Bytes → Option (Bool × PieceCache)
write_block c index piece_offset piece_length begin block = elim (map_get c.pieces index) [
  | some p ↦ put_block c index p begin block
  | none ↦
      if ltb c.max_bytes (c.used + piece_length)
      then some (false, c)
      else let p : CachedPiece = record {
        offset = piece_offset;
        content = replicate piece_length 0;
      } in
        put_block
          (record {
            max_bytes = c.max_bytes;
            used = c.used + piece_length;
            pieces = map_set c.pieces index p;
          })
          index p begin block
]

pub record Verdict : Type 0 where
  pub ok : Bool
  pub found : Bool
  pub error : Option Error

abbrev pub forget : PieceCache → ℕ → CachedPiece → PieceCache
forget c index p = record {
  max_bytes = c.max_bytes;
  used = c.used - length p.content;
  pieces = map_delete c.pieces index;
}

-- What `TryVerify` makes of the outcome of its write.
abbrev pub flushed : PieceCache → Outcome (ℕ × Disk) → Verdict × (PieceCache × Disk)
flushed c r = elim r.error [
  | none ↦ (record { ok = true; found = true; error = none }, (c, r.done.1))
  | some e ↦ (record { ok = false; found = true; error = some e }, (c, r.done.1))
]

-- `none` is a write that goes on.
unfoldable pub try_verify :
    (Bytes → Bytes)
    → List FileRegion
    → ℕ
    → PieceCache × Disk
    → ℕ
    → Bytes
    → Option (Verdict × (PieceCache × Disk))
try_verify sha1 files total (c, disk) index expected = elim (map_get c.pieces index) [
  | none ↦ some (record { ok = false; found = false; error = none }, (c, disk))
  | some p ↦
      if not (same_text (sha1 p.content) expected)
      then some (record { ok = false; found = true; error = none }, (forget c index p, disk))
      else elim (write_at files total disk p.content (pos p.offset)) [
        | none ↦ none
        | some r ↦ some (flushed (forget c index p) r)
      ]
]
