-- ===== src/Storage/PieceCache/Flush.antt =====
-- A piece that the cache of internal/storage/piececache.go buffers, verifies and writes at once,
-- against one whose blocks are written as they arrive.
use go_torrent.Base.{
  map_get, map_set, ℕ, ◌+◌, ◌≤◌, ◌<◌, ◌≡◌, refl, sym, ap, ap₂, subst, ◌∙◌, true, false, Option,
  none, some, List, [], ◌∷◌, arith, ltb, leb, if◌then◌else◌, length, pos, map_get-set,
  map_get-delete, copy_at, length-copy_at, segment, segment-copy_at,
}
use go_torrent.Bytes.{Bytes, same_text}
use go_torrent.Storage.{FileRegion, Disk, write_at}
use go_torrent.Storage.Flat.{flat, IsStored}
use go_torrent.Storage.Reading.{length-stored, expected}
use go_torrent.Storage.Writing.{write_at-flat}
use go_torrent.Storage.Allocation.Effect.{zeros, length-zeros}
use go_torrent.Storage.PieceCache.{
  CachedPiece, PieceCache, put_block, write_block, forget, try_verify,
}
use go_torrent.Storage.PieceCache.Blocks.{
  Block, put_all, covered, Fits, length-put_all, put_all-covered, copy_at-put_all,
}

-- All blocks of a piece, given to the cache, where it takes them.
unfoldable pub buffer : PieceCache → ℕ → ℕ → ℕ → List Block → Option PieceCache
buffer c index off len [] = some c
buffer c index off len ((begin, b) ∷ bs) = elim (write_block c index off len begin b) [
  | none ↦ none
  | some r ↦ if r.0 then buffer r.1 index off len bs else none
]

-- All blocks of a piece, each written by `WriteAt`, where none fails.
unfoldable pub write_each : List FileRegion → ℕ → ℕ → List Block → Disk → Option Disk
write_each files total off [] disk = some disk
write_each files total off ((begin, b) ∷ bs) disk =
    elim (write_at files total disk b (pos (off + begin))) [
      | none ↦ none
      | some r ↦ elim r.error [ none ↦ write_each files total off bs r.done.1 | some e ↦ none ]
    ]

-- The disk after the blocks were written.
pub record WroteEach (files : List FileRegion) (total : ℕ) (off : ℕ) (bs : List Block) (disk : Disk)
    : Type 0 where
  pub straight : Disk
  pub writes : write_each files total off bs disk ≡ some straight
  pub kept : IsStored files total straight
  pub contents : flat files straight ≡ put_all off bs (flat files disk)

write_each-WroteEach :
    (files : List FileRegion) (total off len : ℕ) (bs : List Block) (disk : Disk)
    → IsStored files total disk
    → off + len ≤ total
    → Fits len bs
    → WroteEach files total off bs disk
unfolding write_each
write_each-WroteEach files total off len [] disk stored l fits = record {
  straight = disk;
  writes = refl;
  kept = stored;
  contents = refl;
}
write_each-WroteEach files total off len ((begin, b) ∷ bs) disk stored l fits =
    let f = fits.0 in
    let w = write_at-flat files total disk b (off + begin) stored (omega arith) in
    let rest = write_each-WroteEach files total off len bs w.after w.stored l fits.1 in
    record {
      straight = rest.straight;
      writes = rw (write_each, w.returns) rest.writes;
      kept = rest.kept;
      contents = rest.contents ∙ ap (λ x. put_all off bs x) w.is;
    }

-- The cache after the blocks were buffered.
record Buffered (c : PieceCache) (index off len : ℕ) (bs : List Block) (d : Bytes) : Type 0 where
  held : PieceCache
  buffers : buffer c index off len bs ≡ some held
  there : map_get held.pieces index ≡ some (record { offset = off; content = put_all 0 bs d })

buffer-Buffered :
    (c : PieceCache) (index off len : ℕ) (bs : List Block) (d : Bytes)
    → map_get c.pieces index ≡ some (record { offset = off; content = d })
    → Fits (length d) bs
    → Buffered c index off len bs d
unfolding buffer write_block put_block
buffer-Buffered c index off len [] d e fits = record { held = c; buffers = refl; there = e }
buffer-Buffered c index off len ((begin, b) ∷ bs) d e fits =
    let f = fits.0 in
    let zero_off : 0 + begin ≡ begin = omega arith in
    let next = copy_at begin b d in
    let same : length next ≡ length d = length-copy_at begin b d in
    let inside : leb begin (length d) ≡ true = ground arith in
    let p : CachedPiece = record { offset = off; content = next } in
    let c' : PieceCache = record {
      max_bytes = c.max_bytes;
      used = c.used;
      pieces = map_set c.pieces index p;
    } in
    let rest =
      buffer-Buffered c' index off len bs next (map_get-set c.pieces index p)
        (subst (λ n. Fits n bs) (sym same) fits.1) in
    record {
      held = rest.held;
      buffers = rw (buffer, e) (rw inside rest.buffers);
      there = rw zero_off rest.there;
    }

buffer_new :
    (c : PieceCache) (index off len : ℕ) (bs : List Block)
    → map_get c.pieces index ≡ none
    → c.used + len ≤ c.max_bytes
    → Fits len bs
    → 0 < len
    → ((i : ℕ) → off ≤ i → i < off + len → covered off bs i ≡ true)
    → Buffered c index off len bs (zeros len)
unfolding buffer write_block put_block
buffer_new c index off len [] e room fits some_bytes all =
    let no : covered off [] off ≡ true = all off (omega arith) (omega arith) in
    absurd (ground arith)
buffer_new c index off len ((begin, b) ∷ bs) e room fits some_bytes all =
    let p : CachedPiece = record { offset = off; content = zeros len } in
    let c' : PieceCache = record {
      max_bytes = c.max_bytes;
      used = c.used + len;
      pieces = map_set c.pieces index p;
    } in
    let sized : length (zeros len) ≡ len = length-zeros len in
    let has_room : ltb c.max_bytes (c.used + len) ≡ false = ground arith in
    let now = map_get-set c.pieces index p in
    let fits' = subst (λ n. Fits n ((begin, b) ∷ bs)) (sym sized) fits in
    let rest = buffer-Buffered c' index off len ((begin, b) ∷ bs) (zeros len) now fits' in
    let inside : leb begin (length (zeros len)) ≡ true = let f = fits.0 in ground arith in
    let same : buffer c index off len ((begin, b) ∷ bs)
        ≡ buffer c' index off len ((begin, b) ∷ bs) =
      rw (buffer, e, has_room, now, inside) refl in
    record { held = rest.held; buffers = same ∙ rest.buffers; there = rest.there }

-- What comes of a piece that is buffered block by block and then verified, beside its blocks written
-- one by one: the same bytes on disk, and a cache that holds the piece no more.
pub record Flushes (sha1 : Bytes → Bytes) (files : List FileRegion) (total : ℕ) (c : PieceCache)
    (disk : Disk) (index off len : ℕ) (bs : List Block) (expected : Bytes) : Type 0 where
  pub held : PieceCache
  pub buffers : buffer c index off len bs ≡ some held
  pub emptied : PieceCache
  pub after : Disk
  pub verifies :
      try_verify sha1 files total (held, disk) index expected
      ≡ some (record { ok = true; found = true; error = none }, (emptied, after))
  pub forgets : map_get emptied.pieces index ≡ none
  pub straight : Disk
  pub writes : write_each files total off bs disk ≡ some straight
  pub same : flat files after ≡ flat files straight

-- The blocks of a piece that the cache has room for, where they cover the piece.
pub record IsWhole (total : ℕ) (c : PieceCache) (index off len : ℕ) (bs : List Block) : Type 0 where
  pub absent : map_get c.pieces index ≡ none
  pub room : c.used + len ≤ c.max_bytes
  pub within : off + len ≤ total
  pub some_bytes : 0 < len
  pub fits : Fits len bs
  pub complete : (i : ℕ) → off ≤ i → i < off + len → covered off bs i ≡ true

-- A piece put together in the cache is what its blocks leave on disk.
assembled :
    (off len : ℕ) (bs : List Block) (s : Bytes)
    → Fits len bs
    → off + len ≤ length s
    → ((i : ℕ) → off ≤ i → i < off + len → covered off bs i ≡ true)
    → copy_at off (put_all 0 bs (zeros len)) s ≡ put_all off bs s
assembled off len bs s fits l all =
    let sized = length-zeros len in
    copy_at-put_all off bs (zeros len) s (subst (λ n. Fits n bs) (sym sized) fits) (omega arith)
    ∙ put_all-covered off bs (zeros len) s (λ i low high. all i low (omega arith))

-- For a piece of the torrent that the cache does not hold yet and has room for, on files that are
-- allocated, with blocks that lie in the piece and cover it in any order: where the piece that its
-- blocks leave on disk has the hash expected, the cache takes every block, verifies the piece,
-- writes it without an error and drops it, and the bytes on disk are those that writing each block
-- as it arrives leaves.
pub try_verify-Flushes :
    (sha1 : Bytes → Bytes) (files : List FileRegion) (total : ℕ) (c : PieceCache) (disk : Disk)
    (index off len : ℕ) (bs : List Block) (expected : Bytes)
    → IsStored files total disk
    → IsWhole total c index off len bs
    → same_text (sha1 (segment off len (put_all off bs (flat files disk)))) expected ≡ true
    → Flushes sha1 files total c disk index off len bs expected
unfolding try_verify
try_verify-Flushes sha1 files total c disk index off len bs expected stored whole hash =
    let s = flat files disk in
    let d = put_all 0 bs (zeros len) in
    let sized = length-stored files total disk stored in
    let l : length d ≡ len = length-put_all 0 bs (zeros len) ∙ length-zeros len in
    let within = whole.within in
    let is = assembled off len bs s whole.fits (omega arith) whole.complete in
    let read : segment off len (put_all off bs s) ≡ d =
      ap₂ (λ n x. segment off n x) (sym l) (sym is) ∙ segment-copy_at off d s (omega arith) in
    let accepted : same_text (sha1 d) expected ≡ true = rw read at hash in
    let b =
      buffer_new c index off len bs whole.absent whole.room whole.fits whole.some_bytes
        whole.complete in
    let w = write_at-flat files total disk d off stored (omega arith) in
    let direct = write_each-WroteEach files total off len bs disk stored within whole.fits in
    record {
      held = b.held;
      buffers = b.buffers;
      emptied = forget b.held index (record { offset = off; content = d });
      after = w.after;
      verifies = rw (try_verify, b.there, accepted, w.returns) refl;
      forgets = map_get-delete b.held.pieces index;
      straight = direct.straight;
      writes = direct.writes;
      same = w.is ∙ is ∙ sym direct.contents;
    }
