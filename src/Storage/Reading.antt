-- ===== src/Storage/Reading.antt =====
-- `ReadAt` of internal/storage/storage.go against the bytes of the files, one after the other.
use go_torrent.Base.{
  ℕ, zero, suc, ◌+◌, ◌-◌, ◌≤◌, ◌<◌, min, ◌≡◌, refl, sym, ap, ap₂, ◌∙◌, inl, inr, true, false, none,
  some, List, [], ◌++◌, arith, ltb, leb, ◌==◌, if◌then◌else◌, Bool-cases, length, drop,
  length-append, length-take, length-drop, take_all, pos, segment, segment-prefix, segment-suffix,
  segment-add,
}
use go_torrent.Bytes.{Bytes}
use go_torrent.Storage.{
  FileRegion, end_of, Disk, Outcome, read_round, read_loop, read_at, eof, again, return,
}
use go_torrent.Storage.Flat.{flat, IsStored, IsLocated, length-flat, IsStored-IsFound}

-- A stretch of a file is the stretch of all bytes where it stands.
pub segment-splits :
    {files : List FileRegion} {disk : Disk} {f : FileRegion} (at : IsLocated files disk 0 f)
    (n m : ℕ)
    → n + m ≤ f.length
    → segment (f.offset + n) m (flat files disk) ≡ segment n m at.content
segment-splits {files = files} {disk = disk} {f = f} at n m h =
    let size = at.size in
    let starts = at.starts in
    let e : f.offset + n ≡ length at.before + n = omega arith in
    rw (e, at.splits)
      (segment-prefix at.before (at.content ++ at.after) n m
        ∙ segment-suffix n m at.content at.after (omega arith))

pub end_le :
    {files : List FileRegion} {disk : Disk} {f : FileRegion} (at : IsLocated files disk 0 f)
    → end_of f ≤ length (flat files disk)
end_le {files = files} {disk = disk} {f = f} at =
    let size = at.size in
    let starts = at.starts in
    let e = ap length at.splits in
    omega
      (arith, length-append at.before (at.content ++ at.after), length-append at.content at.after)

pub length-segment_le : (n m : ℕ) (xs : Bytes) → n + m ≤ length xs → length (segment n m xs) ≡ m
length-segment_le n m xs h = omega (arith, length-take m (drop n xs), length-drop n xs)

-- What a round does that starts before the end: it reads the next bytes, one at least.
record Reads (files : List FileRegion) (total : ℕ) (disk : Disk) (len off : ℕ) (read : Bytes)
    : Type 0 where
  chunk : Bytes
  some_more : 0 < length chunk
  fits : length (read ++ chunk) ≤ len
  ends : off + length (read ++ chunk) ≤ total
  same : read ++ chunk ≡ segment off (length (read ++ chunk)) (flat files disk)
  rounds : read_round files total disk len off read ≡ again (read ++ chunk)

-- What `ReadAt` comes to: the bytes from the offset on, and the end of the torrent where it is met.
abbrev pub expected : List FileRegion → ℕ → Disk → ℕ → ℕ → Outcome Bytes
expected files total disk len off = record {
  done = segment off len (flat files disk);
  error = if ltb total (off + len) then some eof else none;
}

module _ (files : List FileRegion) (total : ℕ) (disk : Disk)
    (stored : IsStored files total disk) where
  pub length-stored : length (flat files disk) ≡ total
  length-stored = omega (arith, length-flat files disk 0 total stored.contiguous stored.allocated)

  read_round-Reads :
      (len off : ℕ) (read : Bytes)
      → read ≡ segment off (length read) (flat files disk)
      → length read < len
      → off + length read < total
      → Reads files total disk len off read
  unfolding read_round
  read_round-Reads len off read so_far kl kt =
      let s = flat files disk in
      let k = length read in
      let there = IsStored-IsFound files total disk (off + k) stored kt in
      let f = there.file in
      let at = there.located in
      let want = min (len - k) (end_of f - (off + k)) in
      let chunk = segment (off + k - f.offset) want at.content in
      let sized = length-stored in
      let low = there.low in
      let high = there.high in
      let size = at.size in
      let is : segment (off + k) want s ≡ chunk =
        let e : f.offset + (off + k - f.offset) ≡ off + k = omega arith in
        let splits =
          segment-splits {files = files} {disk = disk} {f = f} at (off + k - f.offset) want
            (omega arith) in
        rw e at splits in
      let longer : length chunk ≡ want =
        length-segment_le (off + k - f.offset) want at.content (omega arith) in
      let sum : length (read ++ chunk) ≡ k + want = omega (arith, length-append read chunk) in
      let before : leb len k ≡ false = ground arith in
      let inside : leb total (off + k) ≡ false = ground arith in
      let asks : (want == 0) ≡ false = ground arith in
      let gets : ltb (length chunk) want ≡ false = ground arith in
      record {
        chunk = chunk;
        some_more = omega arith;
        fits = omega arith;
        ends = let l = end_le at in omega arith;
        same = rw sum (ap₂ (λ a b. a ++ b) so_far (sym is) ∙ segment-add off k want s);
        rounds = rw (before, inside, there.at) (rw (asks, at.found) (rw gets refl));
      }

  read_loop-expected :
      (fuel len off : ℕ) (read : Bytes)
      → read ≡ segment off (length read) (flat files disk)
      → length read ≤ len
      → off + length read ≤ total
      → len < length read + fuel
      → read_loop fuel files total disk len off read ≡ some (expected files total disk len off)
  unfolding read_loop
  read_loop-expected zero len off read so_far kl kt enough = absurd (omega arith)
  read_loop-expected (suc fuel) len off read so_far kl kt enough =
      let s = flat files disk in
      let sized = length-stored in
      elim (Bool-cases (leb len (length read))) [
        | inl e ↦
            let same : length read ≡ len = ground arith in
            let fits : ltb total (off + len) ≡ false = ground arith in
            let is = rw same at so_far in
            let stops : read_round files total disk len off read
                ≡ return (record { done = read; error = none }) =
              unfold read_round in rw e refl in
            rw (read_loop, stops, fits) (ap (λ r. some (record { done = r; error = none })) is)
        | inr e ↦ elim (Bool-cases (leb total (off + length read))) [
          | inl t ↦
              let fits : ltb total (off + len) ≡ true = ground arith in
              let all_read =
                take_all (length read) (drop off s) (ground (arith, length-drop off s)) in
              let all_len = take_all len (drop off s) (ground (arith, length-drop off s)) in
              let is = so_far ∙ (all_read ∙ sym all_len) in
              let stops : read_round files total disk len off read
                  ≡ return (record { done = read; error = some eof }) =
                unfold read_round in rw (e, t) refl in
              rw (read_loop, stops, fits)
                (ap (λ r. some (record { done = r; error = some eof })) is)
          | inr t ↦
              let r = read_round-Reads len off read so_far (ground arith) (ground arith) in
              let m = r.some_more in
              let sum = length-append read r.chunk in
              rw (read_loop, r.rounds)
                (read_loop-expected fuel len off (read ++ r.chunk) r.same r.fits r.ends
                  (omega arith))
        ]
      ]

  -- For files that follow one another, with paths of their own, each allocated with its length: a
  -- read that starts within the torrent returns the bytes of the files, one after the other, from
  -- the offset on, as many as were asked for or are there, and reports the end of the torrent
  -- exactly where it has fewer.
  pub read_at-flat :
      (len off : ℕ)
      → off < total
      → read_at files total disk len (pos off) ≡ some (expected files total disk len off)
  unfolding read_at
  read_at-flat len off h =
      let inside : leb total off ≡ false = ground arith in
      elim (Bool-cases (len == 0)) [
        | inl e ↦
            let same : len ≡ 0 = ground arith in
            let fits : ltb total (off + len) ≡ false = ground arith in
            rw (inside, e, fits) (rw same refl)
        | inr e ↦
            rw (inside, e)
              (read_loop-expected (suc len) len off [] refl (omega arith) (omega arith)
                (omega arith))
      ]
