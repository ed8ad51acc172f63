-- ===== src/Storage/Allocation/Effect.antt =====
-- What `Allocate` of internal/storage/storage.go makes of the files.
use go_torrent.Base.{
  err, map_get, map_set, ℕ, zero, suc, ◌+◌, ◌-◌, ◌≤◌, ◌<◌, min, ◌≡◌, refl, sym, ap, ap₂, subst, ◌∙◌,
  inl, inr, Bool, true, false, Option, some, List, [], ◌∷◌, ◌++◌, arith, ltb, leb, ◌==◌, Bool-cases,
  length, take, replicate, All, length-append, length-replicate, length-take, copy_full, Result, ok,
  map_get-set, map_get-set_other, copy_at, length-copy_at, copy_at-nothing, copy_at-append,
}
use go_torrent.Bytes.{Bytes}
use go_torrent.Storage.Layout.{IsContiguous, contiguous_le}
use go_torrent.Storage.{FileRegion, end_of, Disk}
use go_torrent.Storage.Flat.{
  content_of, flat, Exists, HasOtherPath, IsDistinct, IsStored, content_of-found,
  content_of-map_set_other,
}
use go_torrent.Storage.Writing.{write_file-inside}
use go_torrent.Storage.Allocation.{
  Storage, AllocationError, is_skipped, check_free_space, zero_chunk, write_zeros, resize, prepare,
  allocate_file, allocate_files, allocate,
}

abbrev pub zeros : ℕ → Bytes
zeros n = replicate n 0

pub length-zeros : (n : ℕ) → length (zeros n) ≡ n
length-zeros n = length-replicate {A = ℕ} n 0

length-resize : (len : ℕ) (old : Bytes) → length (resize len old) ≡ len
length-resize len old = ground (
  arith,
  length-append (take len old) (zeros (len - length old)),
  length-take len old,
  length-zeros (len - length old),
)

zeros-add : (a b : ℕ) → zeros a ++ zeros b ≡ zeros (a + b)
zeros-add zero b = let e : 0 + b ≡ b = omega arith in rw e refl
zeros-add (suc a) b =
    let e : suc a + b ≡ suc (a + b) = omega arith in rw e (ap (λ r. 0 ∷ r) (zeros-add a b))

write_zeros-copy_at :
    (fuel chunk len off : ℕ) (content : Bytes)
    → 0 < chunk
    → length content ≡ len
    → len ≤ off + fuel
    → write_zeros fuel chunk len off content ≡ copy_at off (zeros (len - off)) content
unfolding write_zeros
write_zeros-copy_at zero chunk len off content some_chunk sized enough =
    let e : len - off ≡ 0 = omega arith in rw e (sym (copy_at-nothing off content))
write_zeros-copy_at (suc fuel) chunk len off content some_chunk sized enough =
    let n = min chunk (len - off) in
    let counted = length-zeros n in
    elim (Bool-cases (ltb off len)) [
      | inl e ↦
          let within : off < len = ground arith in
          let inside = write_file-inside off (zeros n) content (omega arith) in
          let written = copy_at off (zeros n) content in
          let rest =
            write_zeros-copy_at fuel chunk len (off + chunk) written some_chunk
              (length-copy_at off (zeros n) content ∙ sized) (omega arith) in
          rw (e, inside)
            (rest ∙ elim (Bool-cases (leb chunk (len - off))) [
              | inl whole ↦
                  let is : n ≡ chunk = ground arith in
                  let sum : n + (len - (off + chunk)) ≡ len - off = ground arith in
                  let joined =
                    copy_at-append {A = ℕ} off (zeros n) (zeros (len - (off + chunk))) content
                      (omega arith) in
                  let next : off + length (zeros n) ≡ off + chunk = omega arith in
                  rw next at joined
                  ∙ ap (λ z. copy_at off z content)
                      (zeros-add n (len - (off + chunk)) ∙ ap (λ k. zeros k) sum)
              | inr short ↦
                  let is : n ≡ len - off = ground arith in
                  let sum : len - (off + chunk) ≡ 0 = ground arith in
                  rw sum (
                    copy_at-nothing (off + chunk) written
                    ∙ ap (λ k. copy_at off (zeros k) content) is)
            ])
      | inr e ↦
          let none_left : len - off ≡ 0 = ground arith in
          rw (e, none_left) (sym (copy_at-nothing off content))
    ]

prepare_full : (len : ℕ) (old : Bytes) → prepare true len old ≡ zeros len
unfolding prepare
prepare_full len old =
    let sized = length-resize len old in
    let zero_off : len - 0 ≡ len = omega arith in
    let counted = length-zeros len in
    write_zeros-copy_at len zero_chunk len 0 (resize len old) (omega arith) sized (omega arith)
    ∙ rw zero_off (copy_full (resize len old) (zeros len) (omega arith))

length-prepare : (full : Bool) (len : ℕ) (old : Bytes) → length (prepare full len old) ≡ len
length-prepare true len old = ap length (prepare_full len old) ∙ length-zeros len
length-prepare false len old = unfold prepare in length-resize len old

-- The bytes that are found for the files.
abbrev Found : Disk → (FileRegion → Bytes) → List FileRegion → Type 0
Found disk content fs = All (λ f. map_get disk f.path ≡ some (content f)) fs

abbrev Held : Disk → (FileRegion → Bytes) → List FileRegion → Type 0
Held disk content fs = All (λ f. content_of disk f.path ≡ content f) fs

Held-map_set :
    (fs : List FileRegion) (disk : Disk) (content : FileRegion → Bytes) (g : FileRegion) (c : Bytes)
    → All (HasOtherPath g) fs
    → Held disk content fs
    → Held (map_set disk g.path c) content fs
Held-map_set [] disk content g c d h = tt
Held-map_set (f ∷ fs) disk content g c d h = (
  content_of-map_set_other disk f.path g.path c d.0 ∙ h.0,
  Held-map_set fs disk content g c d.1 h.1,
)

content_of-Held : (fs : List FileRegion) (disk : Disk) → Held disk (λ f. content_of disk f.path) fs
content_of-Held [] disk = tt
content_of-Held (f ∷ fs) disk = (refl, content_of-Held fs disk)

module _ (s : Storage) (wanted : (i : ℕ) → is_skipped s i ≡ false) where
  allocate_files_other :
      (fs : List FileRegion) (i : ℕ) (disk : Disk) (g : FileRegion)
      → All (HasOtherPath g) fs
      → map_get (allocate_files s i fs disk) g.path ≡ map_get disk g.path
  unfolding allocate_files allocate_file
  allocate_files_other [] i disk g d = refl
  allocate_files_other (f ∷ fs) i disk g d =
      let c = prepare s.full f.length (content_of disk f.path) in
      let e : (f.path == g.path) ≡ false = ground (arith, d.0) in
      rw (wanted i) (
        allocate_files_other fs (suc i) (map_set disk f.path c) g d.1
        ∙ map_get-set_other disk g.path f.path c e)

  allocate_files-Found :
      (fs : List FileRegion) (i : ℕ) (disk : Disk) (content : FileRegion → Bytes)
      → IsDistinct fs
      → Held disk content fs
      → Found (allocate_files s i fs disk) (λ f. prepare s.full f.length (content f)) fs
  unfolding allocate_files allocate_file
  allocate_files-Found [] i disk content d h = tt
  allocate_files-Found (f ∷ fs) i disk content d h =
      let c = prepare s.full f.length (content_of disk f.path) in
      let here =
        allocate_files_other fs (suc i) (map_set disk f.path c) f d.0
        ∙ map_get-set disk f.path c
        ∙ ap (λ b. some (prepare s.full f.length b)) h.0 in
      let others =
        allocate_files-Found fs (suc i) (map_set disk f.path c) content d.1
          (Held-map_set fs disk content f c d.0 h.1) in
      let step : allocate_files s i (f ∷ fs) disk
          ≡ allocate_files s (suc i) fs (map_set disk f.path c) =
        rw (wanted i) refl in
      subst (λ now. Found now (λ f. prepare s.full f.length (content f)) (f ∷ fs)) (sym step)
        (here, others)

Found-Exists :
    (fs : List FileRegion) (disk : Disk) (full : Bool) (content : FileRegion → Bytes)
    → Found disk (λ f. prepare full f.length (content f)) fs
    → All (Exists disk) fs
Found-Exists [] disk full content h = tt
Found-Exists (f ∷ fs) disk full content h = (
  (prepare full f.length (content f), h.0, length-prepare full f.length (content f)),
  Found-Exists fs disk full content h.1,
)

-- The bytes of files that are each what another disk has, where it has them whole.
flat_kept :
    (fs : List FileRegion) (disk now : Disk)
    → All (Exists disk) fs
    → Found now (λ f. prepare false f.length (content_of disk f.path)) fs
    → flat fs now ≡ flat fs disk
unfolding flat prepare
flat_kept [] disk now a h = refl
flat_kept (f ∷ fs) disk now (e, a) h =
    let is = content_of-found disk f.path e.0 e.1 in
    let whole : (length e.0 == f.length) ≡ true = let l = e.2 in ground arith in
    let same : prepare false f.length (content_of disk f.path) ≡ content_of disk f.path =
      rw (is, whole) refl in
    ap₂ (λ b c. b ++ c) (content_of-found now f.path _ h.0 ∙ same) (flat_kept fs disk now a h.1)

flat-zeros :
    (fs : List FileRegion) (o total : ℕ) (now : Disk) (content : FileRegion → Bytes)
    → IsContiguous o fs total
    → Found now (λ f. prepare true f.length (content f)) fs
    → flat fs now ≡ zeros (total - o)
unfolding flat
flat-zeros [] o total now content c h = let e : total - o ≡ 0 = omega (arith, c) in rw e refl
flat-zeros (f ∷ fs) o total now content c h =
    let s = c.0 in
    let rest = flat-zeros fs (end_of f) total now content c.1 h.1 in
    let later = contiguous_le fs (end_of f) total c.1 in
    let sum : f.length + (total - end_of f) ≡ total - o = omega arith in
    ap₂ (λ b c. b ++ c) (content_of-found now f.path _ h.0 ∙ prepare_full f.length (content f)) rest
    ∙ zeros-add f.length (total - end_of f)
    ∙ ap zeros sum

-- What `Allocate` leaves behind that returns without an error.
pub record Allocated (s : Storage) (r : Result AllocationError (Storage × Disk)) : Type 0 where
  pub after : Disk
  pub returns :
      r
      ≡ ok (
        record { files = s.files; skip = s.skip; total = s.total; full = s.full; allocated = true },
        after,
      )
  pub stored : IsStored s.files s.total after

-- The state of a torrent that wants all its files and has the space for them.
pub record IsReady (s : Storage) (available : Option ℕ) : Type 0 where
  pub contiguous : IsContiguous 0 s.files s.total
  pub distinct : IsDistinct s.files
  pub wanted : (i : ℕ) → is_skipped s i ≡ false
  pub fresh : s.allocated ≡ false
  pub space : check_free_space s available ≡ true

module _ (s : Storage) (available : Option ℕ) (disk : Disk) (ready : IsReady s available) where
  found :
      Found
        (allocate_files s 0 s.files disk)
        (λ f. prepare s.full f.length (content_of disk f.path))
        s.files
  found =
      allocate_files-Found s ready.wanted s.files 0 disk (λ f. content_of disk f.path)
        ready.distinct (content_of-Held s.files disk)

  returned : Result AllocationError (Storage × Disk) → Disk
  returned (ok r) = r.1
  returned (err e) = disk

  allocate_runs :
      allocate available (s, disk)
      ≡ ok (
        record { files = s.files; skip = s.skip; total = s.total; full = s.full; allocated = true },
        allocate_files s 0 s.files disk,
      )
  unfolding allocate
  allocate_runs = simp (ready.fresh, ready.space) refl

  -- For files that follow one another, with paths of their own, none skipped and not yet allocated,
  -- and free space that is enough or unknown: the allocation succeeds, and each file then exists
  -- with its length, whatever the disk held before.
  pub allocate-Allocated : Allocated s (allocate available (s, disk))
  allocate-Allocated = record {
    after = allocate_files s 0 s.files disk;
    returns = allocate_runs;
    stored = record {
      contiguous = ready.contiguous;
      distinct = ready.distinct;
      allocated = Found-Exists s.files _ s.full (λ f. content_of disk f.path) found;
    };
  }

  module _ (t : Storage) (after : Disk)
      (returns : allocate available (s, disk) ≡ ok (t, after)) where
    after_is : allocate_files s 0 s.files disk ≡ after
    unfolding returned
    after_is = ap returned (sym allocate_runs ∙ returns)

    found_after : Found after (λ f. prepare s.full f.length (content_of disk f.path)) s.files
    found_after =
        subst (λ d. Found d (λ f. prepare s.full f.length (content_of disk f.path)) s.files)
          after_is found

    -- For files that follow one another, with paths of their own, none skipped and not yet
    -- allocated, and free space that is enough or unknown: a sparse allocation of files that exist
    -- with their lengths already leaves all their bytes as they are.
    pub allocate_sparse_keeps :
        s.full ≡ false → IsStored s.files s.total disk → flat s.files after ≡ flat s.files disk
    allocate_sparse_keeps sparse stored = flat_kept s.files disk after stored.allocated (
        subst (λ b. Found after (λ f. prepare b f.length (content_of disk f.path)) s.files) sparse
          found_after)

    -- For files that follow one another, with paths of their own, none skipped and not yet
    -- allocated, and free space that is enough or unknown: after a full allocation every byte of
    -- every file is zero, whatever the disk held before, an existing download too.
    pub allocate_full_zeros : s.full ≡ true → flat s.files after ≡ zeros s.total
    allocate_full_zeros full =
        let all : s.total - 0 ≡ s.total = omega arith in
        flat-zeros s.files 0 s.total after (λ f. content_of disk f.path) ready.contiguous
          (subst (λ b. Found after (λ f. prepare b f.length (content_of disk f.path)) s.files) full
            found_after)
        ∙ ap zeros all
