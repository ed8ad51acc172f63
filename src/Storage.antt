-- ===== src/Storage.antt =====
-- A torrent's files as one space of bytes: internal/storage/storage.go, with files that are opened
-- as such and not mapped into memory. A path is a number that stands for its name, for it is only
-- compared; the disk is a map from paths to the bytes of the files that exist. What the disk is
-- asked for it does: a file that is missing is the only error it has.
use go_torrent.Base.{
  holds_at, search, map_get, map_set, ℕ, zero, suc, ◌+◌, ◌-◌, min, Bool, false, Option, none, some,
  List, [], ◌∷◌, ◌++◌, ltb, leb, ◌==◌, if◌then◌else◌, length, get_elem?, replicate, ℤ, pos, negsuc,
  copy_at, segment,
}
use go_torrent.Bytes.{Bytes}
pub mod Layout
pub mod Flat
pub mod Reading
pub mod Writing
pub mod Allocation
pub mod PieceCache
pub mod Handles
mod Tests

pub record FileRegion : Type 0 where
  pub path : ℕ
  pub offset : ℕ
  pub length : ℕ

abbrev pub end_of : FileRegion → ℕ
end_of f = f.offset + f.length

abbrev pub Disk : Type 0
Disk = List (ℕ × Bytes)

pub data Error : Type 0 where
  negative_offset : Error
  eof : Error
  outside : Error
  opening : Error
  unexpected_eof : Error
  overruns : Error

-- The loop of `New` over several files, where it stands at an offset: each path as `Resolve` gives
-- it, with the file's length.
unfoldable pub place_files : ℕ → List (Option ℕ × ℕ) → Option (List FileRegion)
place_files offset [] = some []
place_files offset ((none, len) ∷ fs) = none
place_files offset ((some path, len) ∷ fs) = elim (place_files (offset + len) fs) [
  | none ↦ none
  | some regions ↦ some (record { path = path; offset = offset; length = len } ∷ regions)
]

-- Whether file `i` ends after an offset, the test of the binary search.
abbrev pub ends_after : ℕ → FileRegion → Bool
ends_after offset f = ltb offset (end_of f)

-- The index of the file with the offset; `none` is -1.
unfoldable pub region_at : List FileRegion → ℕ → Option ℕ
region_at files offset =
    let n = length files in
    let i = search n (holds_at (ends_after offset) files) 0 n in
    elim (get_elem? files i) [ none ↦ none | some f ↦ if leb f.offset offset then some i else none ]

-- `s.files[idx]`, where there is one.
abbrev pub file_at : List FileRegion → ℕ → Option FileRegion
file_at files offset = elim (region_at files offset) [ none ↦ none | some i ↦ get_elem? files i ]

-- What a transfer came to: the bytes that it read, or the number that it wrote, and its error.
pub record Outcome {ℓ} (A : Type ℓ) : Type ℓ where
  pub done : A
  pub error : Option Error

-- A round of a loop starts the next one or returns.
pub data Round {ℓ} (A : Type ℓ) (R : Type ℓ) : Type ℓ where
  again : A → Round A R
  return : R → Round A R

-- A round of the loop of `ReadAt`, where it has read some of the `len` bytes from `off` on.
unfoldable pub read_round : List FileRegion → ℕ → Disk → ℕ → ℕ → Bytes → Round Bytes (Outcome Bytes)
read_round files total disk len off read =
    let current = off + length read in
    if leb len (length read)
    then return (record { done = read; error = none })
    else if leb total current
    then return (record { done = read; error = some eof })
    else elim (file_at files current) [
      | none ↦ return (record { done = read; error = some outside })
      | some region ↦
          let want = min (len - length read) (end_of region - current) in
          if want == 0 then again read else elim (map_get disk region.path) [
            | none ↦ return (record { done = read; error = some opening })
            | some content ↦
                let chunk = segment (current - region.offset) want content in
                if ltb (length chunk) want
                then return (record { done = read ++ chunk; error = some unexpected_eof })
                else again (read ++ chunk)
          ]
    ]

-- The loop on fuel; `none` is one that goes on.
unfoldable pub read_loop : ℕ → List FileRegion → ℕ → Disk → ℕ → ℕ → Bytes → Option (Outcome Bytes)
read_loop zero files total disk len off read = none
read_loop (suc fuel) files total disk len off read =
    elim (read_round files total disk len off read) [
      | again more ↦ read_loop fuel files total disk len off more
      | return r ↦ some r
    ]

-- `ReadAt` for `len` bytes: each round reads one at least.
unfoldable pub read_at : List FileRegion → ℕ → Disk → ℕ → ℤ → Option (Outcome Bytes)
read_at files total disk len (negsuc k) = some (record { done = []; error = some negative_offset })
read_at files total disk len (pos off) =
    if leb total off
    then some (record { done = []; error = some eof })
    else if len == 0
    then some (record { done = []; error = none })
    else read_loop (suc len) files total disk len off []

-- `WriteAt` of a file: what lies between its end and the offset becomes zeros.
abbrev pub write_file : ℕ → Bytes → Bytes → Bytes
write_file n src content = copy_at n src (content ++ replicate (n + length src - length content) 0)

-- A round of the loop of `WriteAt`, where it has written some of the bytes.
unfoldable pub write_round :
    List FileRegion → Bytes → ℕ → ℕ × Disk → Round (ℕ × Disk) (Outcome (ℕ × Disk))
write_round files p off (written, disk) =
    let current = off + written in
    if leb (length p) written
    then return (record { done = (written, disk); error = none })
    else elim (file_at files current) [
      | none ↦ return (record { done = (written, disk); error = some outside })
      | some region ↦
          let want = min (length p - written) (end_of region - current) in
          if want == 0 then again (written, disk) else elim (map_get disk region.path) [
            | none ↦ return (record { done = (written, disk); error = some opening })
            | some content ↦
                let changed =
                  write_file (current - region.offset) (segment written want p) content in
                again (written + want, map_set disk region.path changed)
          ]
    ]

unfoldable pub write_loop : ℕ → List FileRegion → Bytes → ℕ → ℕ × Disk → Option (Outcome (ℕ × Disk))
write_loop zero files p off state = none
write_loop (suc fuel) files p off state = elim (write_round files p off state) [
  | again more ↦ write_loop fuel files p off more
  | return r ↦ some r
]

unfoldable pub write_at : List FileRegion → ℕ → Disk → Bytes → ℤ → Option (Outcome (ℕ × Disk))
write_at files total disk p (negsuc k) =
    some (record { done = (0, disk); error = some negative_offset })
write_at files total disk p (pos off) =
    if ltb total (off + length p)
    then some (record { done = (0, disk); error = some overruns })
    else write_loop (suc (length p)) files p off (0, disk)
