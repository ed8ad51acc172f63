-- ===== src/Storage/Tests.antt =====
-- Examples for the storage: two files on a disk, of three bytes and of two.
use go_torrent.Base.{
  search, map_get, map_set, ℕ, zero, suc, ◌+◌, ◌≤◌, ◌<◌, ◌≡◌, refl, true, false, none, some, List,
  [], ◌∷◌, arith, pos, ok, segment,
}
use go_torrent.Bytes.{Bytes, same_text}
use go_torrent.Storage.{
  FileRegion, Disk, place_files, region_at, read_round, read_loop, read_at, write_round, write_loop,
  write_at, eof, opening, unexpected_eof, overruns,
}
use go_torrent.Storage.Layout.{IsContiguous}
use go_torrent.Storage.Flat.{flat, IsDistinct, IsStored}
use go_torrent.Storage.Reading.{expected, read_at-flat}
use go_torrent.Storage.Writing.{Wrote, write_at-flat}
use go_torrent.Storage.Allocation.{
  Storage, is_skipped, wanted_from, wanted_total, check_free_space, write_zeros, prepare,
  allocate_file, allocate_files, allocate,
}
use go_torrent.Storage.Allocation.Effect.{
  zeros, Allocated, IsReady, allocate-Allocated, allocate_sparse_keeps, allocate_full_zeros,
}
use go_torrent.Storage.PieceCache.{PieceCache, new, put_block, write_block, try_verify}
use go_torrent.Storage.PieceCache.Blocks.{Block, put_all, covered}
use go_torrent.Storage.PieceCache.Budget.{
  IsWithin, call, run_calls, run_calls-IsWithin, write, verify,
}
use go_torrent.Storage.PieceCache.Flush.{Flushes, IsWhole, try_verify-Flushes}

abbrev two_files : List FileRegion
two_files =
    record { path = 7; offset = 0; length = 3 } ∷ record { path = 9; offset = 3; length = 2 } ∷ []

abbrev disk : Disk
disk = (7, 1 ∷ 2 ∷ 3 ∷ []) ∷ (9, 4 ∷ 5 ∷ []) ∷ []

placed : place_files 0 ((some 7, 3) ∷ (some 9, 2) ∷ []) ≡ some two_files
unfolding place_files
placed = refl

refused : place_files 0 ((some 7, 3) ∷ (none, 2) ∷ []) ≡ none
unfolding place_files
refused = refl

reads_across :
    read_at two_files 5 disk 9 (pos 1)
    ≡ some (record { done = 2 ∷ 3 ∷ 4 ∷ 5 ∷ []; error = some eof })
unfolding read_at read_loop read_round region_at search map_get
reads_across = refl

reads_missing :
    read_at two_files 5 ((7, 1 ∷ 2 ∷ 3 ∷ []) ∷ []) 4 (pos 1)
    ≡ some (record { done = 2 ∷ 3 ∷ []; error = some opening })
unfolding read_at read_loop read_round region_at search map_get
reads_missing = refl

reads_short :
    read_at two_files 5 ((7, 1 ∷ 2 ∷ []) ∷ []) 4 (pos 1)
    ≡ some (record { done = 2 ∷ []; error = some unexpected_eof })
unfolding read_at read_loop read_round region_at search map_get
reads_short = refl

writes_across :
    write_at two_files 5 disk (8 ∷ 8 ∷ 8 ∷ []) (pos 1)
    ≡ some (record { done = (3, (7, 1 ∷ 8 ∷ 8 ∷ []) ∷ (9, 8 ∷ 5 ∷ []) ∷ []); error = none })
unfolding write_at write_loop write_round region_at search map_get map_set
writes_across = refl

overruns_test :
    write_at two_files 5 disk (8 ∷ 8 ∷ 8 ∷ []) (pos 3)
    ≡ some (record { done = (0, disk); error = some overruns })
unfolding write_at
overruns_test = refl

two_files-IsContiguous : IsContiguous 0 two_files 5
two_files-IsContiguous = (refl, (refl, refl))

two_files-IsDistinct : IsDistinct two_files
two_files-IsDistinct = ((refl, tt), (tt, tt))

disk-IsStored : IsStored two_files 5 disk
unfolding map_get
disk-IsStored = record {
  contiguous = two_files-IsContiguous;
  distinct = two_files-IsDistinct;
  allocated = ((1 ∷ 2 ∷ 3 ∷ [], refl, refl), ((4 ∷ 5 ∷ [], refl, refl), tt));
}

read_at-flat_example : read_at two_files 5 disk 9 (pos 1) ≡ some (expected two_files 5 disk 9 1)
read_at-flat_example = read_at-flat two_files 5 disk disk-IsStored 9 1 (omega arith)

write_at-flat_example :
    Wrote two_files 5 disk (8 ∷ 8 ∷ 8 ∷ []) 1 (write_at two_files 5 disk (8 ∷ 8 ∷ 8 ∷ []) (pos 1))
write_at-flat_example =
    write_at-flat two_files 5 disk (8 ∷ 8 ∷ 8 ∷ []) 1 disk-IsStored (omega arith)

abbrev sparse_storage : Storage
sparse_storage = record {
  files = two_files;
  skip = some (false ∷ false ∷ []);
  total = 5;
  full = false;
  allocated = false;
}

abbrev full_storage : Storage
full_storage = record { files = two_files; skip = none; total = 5; full = true; allocated = false }

wants_sparse : (i : ℕ) → is_skipped sparse_storage i ≡ false
unfolding is_skipped
wants_sparse zero = refl
wants_sparse (suc zero) = refl
wants_sparse (suc (suc i)) = refl

sparse-IsReady : IsReady sparse_storage (some 5)
unfolding check_free_space wanted_total wanted_from is_skipped
sparse-IsReady = record {
  contiguous = two_files-IsContiguous;
  distinct = two_files-IsDistinct;
  wanted = wants_sparse;
  fresh = refl;
  space = refl;
}

full-IsReady : IsReady full_storage none
unfolding check_free_space is_skipped
full-IsReady = record {
  contiguous = two_files-IsContiguous;
  distinct = two_files-IsDistinct;
  wanted = λ i. refl;
  fresh = refl;
  space = refl;
}

allocate-Allocated_example :
    Allocated sparse_storage (allocate (some 5) (sparse_storage, (7, 1 ∷ []) ∷ []))
allocate-Allocated_example =
    allocate-Allocated sparse_storage (some 5) ((7, 1 ∷ []) ∷ []) sparse-IsReady

abbrev done_with : Storage → Storage
done_with s = record {
  files = s.files;
  skip = s.skip;
  total = s.total;
  full = s.full;
  allocated = true;
}

sparse_returns : allocate (some 5) (sparse_storage, disk) ≡ ok (done_with sparse_storage, disk)
unfolding allocate check_free_space wanted_total wanted_from is_skipped allocate_files allocate_file
    prepare map_get map_set
sparse_returns = refl

allocate_sparse_keeps_example : flat two_files disk ≡ flat two_files disk
allocate_sparse_keeps_example =
    allocate_sparse_keeps sparse_storage (some 5) disk sparse-IsReady (done_with sparse_storage)
      disk sparse_returns refl disk-IsStored

full_returns :
    allocate none (full_storage, disk)
    ≡ ok (done_with full_storage, (7, 0 ∷ 0 ∷ 0 ∷ []) ∷ (9, 0 ∷ 0 ∷ []) ∷ [])
unfolding allocate check_free_space is_skipped allocate_files allocate_file prepare write_zeros
    map_get map_set
full_returns = refl

allocate_full_zeros_example : flat two_files ((7, 0 ∷ 0 ∷ 0 ∷ []) ∷ (9, 0 ∷ 0 ∷ []) ∷ []) ≡ zeros 5
allocate_full_zeros_example =
    allocate_full_zeros full_storage none disk full-IsReady (done_with full_storage) _ full_returns
      refl

abbrev blocks : List Block
blocks = (2, 6 ∷ 6 ∷ []) ∷ (0, 8 ∷ 8 ∷ []) ∷ []

abbrev identity : Bytes → Bytes
identity xs = xs

blocks-covered : (i : ℕ) → 1 ≤ i → i < 1 + 4 → covered 1 blocks i ≡ true
blocks-covered i low high = ground arith

blocks-IsWhole : IsWhole 5 (new 100) 0 1 4 blocks
unfolding map_get
blocks-IsWhole = record {
  absent = refl;
  room = omega arith;
  within = omega arith;
  some_bytes = omega arith;
  fits = (omega arith, (omega arith, tt));
  complete = blocks-covered;
}

hash_matches :
    same_text (identity (segment 1 4 (put_all 1 blocks (flat two_files disk)))) (8 ∷ 8 ∷ 6 ∷ 6 ∷ [])
    ≡ true
unfolding same_text flat map_get
hash_matches = refl

try_verify-Flushes_example :
    Flushes identity two_files 5 (new 100) disk 0 1 4 blocks (8 ∷ 8 ∷ 6 ∷ 6 ∷ [])
try_verify-Flushes_example =
    try_verify-Flushes identity two_files 5 (new 100) disk 0 1 4 blocks (8 ∷ 8 ∷ 6 ∷ 6 ∷ [])
      disk-IsStored blocks-IsWhole hash_matches

abbrev buffered_one : PieceCache
buffered_one = record {
  max_bytes = 6;
  used = 4;
  pieces = (0, record { offset = 1; content = 0 ∷ 0 ∷ 6 ∷ 6 ∷ [] }) ∷ [];
}

-- The second piece finds no room.
calls_run :
    run_calls identity two_files 5
      (write 0 1 4 2 (6 ∷ 6 ∷ []) ∷ write 1 5 4 0 (6 ∷ []) ∷ verify 2 [] ∷ [])
      (new 6, disk)
    ≡ some (buffered_one, disk)
unfolding run_calls call write_block put_block try_verify map_get map_set
calls_run = refl

run_calls-IsWithin_example : IsWithin buffered_one
run_calls-IsWithin_example =
    run_calls-IsWithin identity two_files 5 6 disk
      (write 0 1 4 2 (6 ∷ 6 ∷ []) ∷ write 1 5 4 0 (6 ∷ []) ∷ verify 2 [] ∷ []) buffered_one disk
      calls_run
