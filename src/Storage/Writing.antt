-- ===== src/Storage/Writing.antt =====
-- `WriteAt` of internal/storage/storage.go against the bytes of the files, one after the other.
use go_torrent.Base.{
  map_set, ℕ, zero, suc, ◌+◌, ◌-◌, ◌≤◌, ◌<◌, min, ◌≡◌, refl, sym, ap, ◌∙◌, inl, inr, false, Option,
  none, some, List, [], ◌++◌, append-nil, arith, ltb, leb, ◌==◌, Bool-cases, length, take,
  length-take, take_all, pos, copy_at, length-copy_at, copy_at-prefix, copy_at-suffix,
  copy_at-nothing, copy_at-append, segment, take-add, segment-copy_at,
}
use go_torrent.Bytes.{Bytes}
use go_torrent.Storage.{
  FileRegion, end_of, Disk, Outcome, read_at, write_file, write_round, write_loop, write_at, again,
  return,
}
use go_torrent.Storage.Flat.{flat, IsStored, IsLocated, IsStored-IsFound}
use go_torrent.Storage.Reading.{length-segment_le, length-stored, read_at-flat}

pub write_file-inside :
    (n : ℕ) (src content : Bytes)
    → n + length src ≤ length content
    → write_file n src content ≡ copy_at n src content
write_file-inside n src content h =
    let e : n + length src - length content ≡ 0 = omega arith in
    ap (λ c. copy_at n src c) (rw e (append-nil content))

-- A change of a file is the change of all bytes where it stands.
copy_at-splits :
    (files : List FileRegion) (disk : Disk) (f : FileRegion) (at : IsLocated files disk 0 f) (n : ℕ)
    (src : Bytes)
    → n + length src ≤ f.length
    → flat files (map_set disk f.path (write_file n src at.content))
      ≡ copy_at (f.offset + n) src (flat files disk)
copy_at-splits files disk f at n src h =
    let size = at.size in
    let starts = at.starts in
    let e : f.offset + n ≡ length at.before + n = omega arith in
    let prefix = copy_at-prefix at.before src (at.content ++ at.after) n in
    let suffix = copy_at-suffix n src at.content at.after (omega arith) in
    let inside = write_file-inside n src at.content (omega arith) in
    at.changes (write_file n src at.content)
    ∙ ap (λ c. at.before ++ (c ++ at.after)) inside
    ∙ rw (e, at.splits) (sym (prefix ∙ ap (λ r. at.before ++ r) suffix))

-- What a round does that has bytes left: it writes the next of them, one at least.
record Writes (files : List FileRegion) (total : ℕ) (p : Bytes) (off k : ℕ) (disk : Disk)
    : Type 0 where
  more : ℕ
  some_more : 0 < more
  fits : k + more ≤ length p
  changed : Disk
  stored : IsStored files total changed
  is : flat files changed ≡ copy_at (off + k) (segment k more p) (flat files disk)
  rounds : write_round files p off (k, disk) ≡ again (k + more, changed)

write_round-Writes :
    (files : List FileRegion) (total : ℕ) (p : Bytes) (off k : ℕ) (disk : Disk)
    → IsStored files total disk
    → off + length p ≤ total
    → k < length p
    → Writes files total p off k disk
unfolding write_round
write_round-Writes files total p off k disk stored h l =
    let there = IsStored-IsFound files total disk (off + k) stored (omega arith) in
    let f = there.file in
    let at = there.located in
    let want = min (length p - k) (end_of f - (off + k)) in
    let n = off + k - f.offset in
    let src = segment k want p in
    let low = there.low in
    let high = there.high in
    let size = at.size in
    let longer : length src ≡ want = length-segment_le k want p (omega arith) in
    let before : leb (length p) k ≡ false = ground arith in
    let asks : (want == 0) ≡ false = ground arith in
    let e : f.offset + n ≡ off + k = omega arith in
    let inside = write_file-inside n src at.content (omega arith) in
    let splits = copy_at-splits files disk f at n src (omega arith) in
    record {
      more = want;
      some_more = omega arith;
      fits = omega arith;
      changed = map_set disk f.path (write_file n src at.content);
      stored = record {
        contiguous = stored.contiguous;
        distinct = stored.distinct;
        allocated =
            at.keeps (write_file n src at.content)
              (ap length inside ∙ length-copy_at n src at.content ∙ size);
      };
      is = rw e at splits;
      rounds = rw (before, there.at) (rw (asks, at.found) refl);
    }

-- What a write came to: it wrote all bytes, and all others are as they were.
pub record Wrote (files : List FileRegion) (total : ℕ) (disk : Disk) (p : Bytes) (off : ℕ)
    (r : Option (Outcome (ℕ × Disk))) : Type 0 where
  pub after : Disk
  pub returns : r ≡ some (record { done = (length p, after); error = none })
  pub stored : IsStored files total after
  pub is : flat files after ≡ copy_at off p (flat files disk)

module _ (files : List FileRegion) (total : ℕ) (disk : Disk) (p : Bytes) (off : ℕ)
    (sized : length (flat files disk) ≡ total) (fits : off + length p ≤ total) where
  write_loop-Wrote :
      (fuel k : ℕ) (now : Disk)
      → IsStored files total now
      → flat files now ≡ copy_at off (take k p) (flat files disk)
      → k ≤ length p
      → length p < k + fuel
      → Wrote files total disk p off (write_loop fuel files p off (k, now))
  unfolding write_loop
  write_loop-Wrote zero k now stored so_far l enough = absurd (omega arith)
  write_loop-Wrote (suc fuel) k now stored so_far l enough = elim (Bool-cases (leb (length p) k)) [
    | inl e ↦
        let same : k ≡ length p = ground arith in
        let stops : write_round files p off (k, now)
            ≡ return (record { done = (k, now); error = none }) =
          unfold write_round in rw e refl in
        record {
          after = now;
          returns = rw (write_loop, stops) (rw same refl);
          stored = stored;
          is = so_far ∙ ap (λ q. copy_at off q (flat files disk)) (take_all k p (ground arith));
        }
    | inr e ↦
        let r = write_round-Writes files total p off k now stored fits (ground arith) in
        let m = r.some_more in
        let f = r.fits in
        let t : length (take k p) ≡ k = omega (arith, length-take k p) in
        let joined =
          copy_at-append {A = ℕ} off (take k p) (segment k r.more p) (flat files disk)
            (omega arith) in
        let parts : take k p ++ segment k r.more p ≡ take (k + r.more) p = take-add k r.more p in
        let grown : flat files r.changed ≡ copy_at off (take (k + r.more) p) (flat files disk) =
          r.is
          ∙ ap (λ c. copy_at (off + k) (segment k r.more p) c) so_far
          ∙ rw t at joined
          ∙ ap (λ q. copy_at off q (flat files disk)) parts in
        let rest = write_loop-Wrote fuel (k + r.more) r.changed r.stored grown f (omega arith) in
        record {
          after = rest.after;
          returns = rw (write_loop, r.rounds) rest.returns;
          stored = rest.stored;
          is = rest.is;
        }
  ]

-- For files that follow one another, with paths of their own, each allocated with its length: a
-- write within the torrent returns, without an error and with the count of all bytes; the bytes of
-- the files, one after the other, are then those before with the new ones from the offset on, and
-- each file still has its length.
pub write_at-flat :
    (files : List FileRegion) (total : ℕ) (disk : Disk) (p : Bytes) (off : ℕ)
    → IsStored files total disk
    → off + length p ≤ total
    → Wrote files total disk p off (write_at files total disk p (pos off))
unfolding write_at
write_at-flat files total disk p off stored h =
    let inside : ltb total (off + length p) ≡ false = ground arith in
    let none_yet : flat files disk ≡ copy_at off [] (flat files disk) =
      sym (copy_at-nothing off (flat files disk)) in
    rw inside (
      write_loop-Wrote files total disk p off (length-stored files total disk stored) h
        (suc (length p)) 0 disk stored none_yet (omega arith) (omega arith))

-- What was written into the torrent is read there.
pub read_at-write_at :
    (files : List FileRegion) (total : ℕ) (disk : Disk) (p : Bytes) (off : ℕ)
    → IsStored files total disk
    → off + length p ≤ total
    → off < total
    → (after : Disk) × (write_at files total disk p (pos off)
        ≡ some (record { done = (length p, after); error = none }))
      × (read_at files total after (length p) (pos off) ≡ some (record { done = p; error = none }))
read_at-write_at files total disk p off stored h l =
    let w = write_at-flat files total disk p off stored h in
    let sized = length-stored files total disk stored in
    let fits : ltb total (off + length p) ≡ false = ground arith in
    let same = segment-copy_at off p (flat files disk) (omega arith) in
    (
      w.after,
      w.returns,
      read_at-flat files total w.after w.stored (length p) off l ∙ rw (w.is, same, fits) refl,
    )
