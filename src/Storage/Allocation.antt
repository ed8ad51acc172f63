-- ===== src/Storage/Allocation.antt =====
-- `Allocate` and `EnsureFileAllocated` of internal/storage/storage.go. The disk makes every file and
-- directory that it is asked for; the context is not cancelled.
use go_torrent.Base.{
  map_set, ℕ, zero, suc, ◌+◌, ◌-◌, min, Bool, true, false, not, Option, none, some, List, [], ◌∷◌,
  ◌++◌, ltb, leb, ◌==◌, if◌then◌else◌, length, get_elem?, get_or, set, take, replicate, ℤ, pos,
  negsuc, Result, ok, err,
}
use go_torrent.Bytes.{Bytes}
use go_torrent.Storage.{FileRegion, Disk, write_file}
use go_torrent.Storage.Flat.{content_of}
pub mod Effect

pub record Storage : Type 0 where
  pub files : List FileRegion
  pub skip : Option (List Bool)
  pub total : ℕ
  pub full : Bool
  pub allocated : Bool

pub data AllocationError : Type 0 where
  no_space : AllocationError
  out_of_range : AllocationError

unfoldable pub is_skipped : Storage → ℕ → Bool
is_skipped s i = elim s.skip [ none ↦ false | some skip ↦ get_or skip i false ]

-- The lengths of the files from index `i` on that are not skipped.
unfoldable pub wanted_from : Storage → ℕ → List FileRegion → ℕ
wanted_from s i [] = 0
wanted_from s i (f ∷ fs) =
    let rest = wanted_from s (suc i) fs in if is_skipped s i then rest else f.length + rest

unfoldable pub wanted_total : Storage → ℕ
wanted_total s = elim s.skip [ none ↦ s.total | some skip ↦ wanted_from s 0 s.files ]

-- Whether the free space is enough; `none` is space that is not known, for want of an answer or for
-- one below 0.
unfoldable pub check_free_space : Storage → Option ℕ → Bool
check_free_space s none = true
check_free_space s (some available) = leb (wanted_total s) available

abbrev pub truncate : ℕ → Bytes → Bytes
truncate len content = take len content ++ replicate (len - length content) 0

abbrev pub zero_chunk : ℕ
zero_chunk = 1048576

-- The loop of `writeZeros`, by chunks. Each round goes on by a chunk, so the length is fuel enough.
unfoldable pub write_zeros : ℕ → ℕ → ℕ → ℕ → Bytes → Bytes
write_zeros zero chunk len off content = content
write_zeros (suc fuel) chunk len off content =
    let n = min chunk (len - off) in
    let rest = write_zeros fuel chunk len (off + chunk) (write_file off (replicate n 0) content) in
    if ltb off len then rest else content

abbrev pub resize : ℕ → Bytes → Bytes
resize len old = if length old == len then old else truncate len old

-- What `allocateFile` makes of a file with some bytes; one that it creates has none.
unfoldable pub prepare : Bool → ℕ → Bytes → Bytes
prepare full len old =
    let sized = resize len old in if full then write_zeros len zero_chunk len 0 sized else sized

unfoldable pub allocate_file : Bool → FileRegion → Disk → Disk
allocate_file full f disk = map_set disk f.path (prepare full f.length (content_of disk f.path))

-- The loop of `Allocate` over the files from index `i` on.
unfoldable pub allocate_files : Storage → ℕ → List FileRegion → Disk → Disk
allocate_files s i [] disk = disk
allocate_files s i (f ∷ fs) disk =
    allocate_files s (suc i) fs (if is_skipped s i then disk else allocate_file s.full f disk)

unfoldable pub allocate : Option ℕ → Storage × Disk → Result AllocationError (Storage × Disk)
allocate available (s, disk) =
    if s.allocated
    then ok (s, disk)
    else if not (check_free_space s available)
    then err no_space
    else ok (
      record { files = s.files; skip = s.skip; total = s.total; full = s.full; allocated = true },
      allocate_files s 0 s.files disk,
    )

unfoldable pub ensure_file_allocated : ℤ → Storage × Disk → Result AllocationError (Storage × Disk)
ensure_file_allocated (negsuc k) state = err out_of_range
ensure_file_allocated (pos i) (s, disk) = elim (get_elem? s.files i) [
  | none ↦ err out_of_range
  | some f ↦
      if not (is_skipped s i)
      then ok (s, disk)
      else ok (
        record {
          files = s.files;
          skip = elim s.skip [ none ↦ none | some skip ↦ some (set skip i false) ];
          total = s.total;
          full = s.full;
          allocated = s.allocated;
        },
        allocate_file s.full f disk,
      )
]
