-- ===== src/Storage/PieceCache/Budget.antt =====
-- The bytes that the cache of internal/storage/piececache.go holds, against its bound.
use go_torrent.Base.{
  map_get, map_set, map_delete, ℕ, ◌+◌, ◌≤◌, ◌≡◌, refl, sym, ap, ◌∙◌, inl, inr, Bool, false, Option,
  none, some, List, [], ◌∷◌, arith, ltb, leb, ◌==◌, Bool-cases, Option-cases, length, replicate,
  length-replicate, pos, map_get-set, map_get-set_other, copy_at, length-copy_at,
}
use go_torrent.Bytes.{Bytes, same_text}
use go_torrent.Storage.{FileRegion, Disk, write_at}
use mathlib.Core.Option.{none-ne-some}
use go_torrent.Storage.PieceCache.{
  CachedPiece, PieceCache, new, put_block, write_block, forget, try_verify,
}

abbrev pub size_of : Option CachedPiece → ℕ
size_of none = 0
size_of (some p) = length p.content

abbrev pub total_size : List (ℕ × CachedPiece) → ℕ
total_size [] = 0
total_size ((k, p) ∷ m) = length p.content + total_size m

-- No key stands twice.
abbrev pub IsKeyed : List (ℕ × CachedPiece) → Type 0
IsKeyed [] = Unit
IsKeyed ((k, p) ∷ m) = (map_get m k ≡ none) × IsKeyed m

-- The count is that of the bytes held, which are within the bound.
pub record IsWithin (c : PieceCache) : Type 0 where
  pub keyed : IsKeyed c.pieces
  pub counted : c.used ≡ total_size c.pieces
  pub bounded : c.used ≤ c.max_bytes

total_size-map_set :
    (m : List (ℕ × CachedPiece)) (key : ℕ) (p : CachedPiece)
    → total_size (map_set m key p) + size_of (map_get m key) ≡ total_size m + length p.content
unfolding map_get map_set
total_size-map_set [] key p = omega arith
total_size-map_set ((k, q) ∷ m) key p = elim (Bool-cases (k == key)) [
  | inl e ↦ rw e (omega arith)
  | inr e ↦ rw e (omega (arith, total_size-map_set m key p))
]

map_delete_absent :
    (m : List (ℕ × CachedPiece)) (key : ℕ) → map_get m key ≡ none → map_delete m key ≡ m
unfolding map_get map_delete
map_delete_absent [] key h = refl
map_delete_absent ((k, q) ∷ m) key h = elim (Bool-cases (k == key)) [
  | inl e ↦ absurd (none-ne-some _ (sym (rw e at h)))
  | inr e ↦ rw e (ap (λ r. (k, q) ∷ r) (map_delete_absent m key (rw e at h)))
]

total_size-map_delete :
    (m : List (ℕ × CachedPiece)) (key : ℕ)
    → IsKeyed m
    → total_size (map_delete m key) + size_of (map_get m key) ≡ total_size m
unfolding map_get map_delete
total_size-map_delete [] key keyed = refl
total_size-map_delete ((k, q) ∷ m) key keyed = elim (Bool-cases (k == key)) [
  | inl e ↦
      let same : k ≡ key = ground arith in
      let gone = map_delete_absent m key (rw same at keyed.0) in rw (e, gone) (omega arith)
  | inr e ↦ rw e (omega (arith, total_size-map_delete m key keyed.1))
]

IsKeyed-map_set :
    (m : List (ℕ × CachedPiece)) (key : ℕ) (p : CachedPiece) → IsKeyed m → IsKeyed (map_set m key p)
unfolding map_set
IsKeyed-map_set [] key p keyed = (unfold map_get in refl, tt)
IsKeyed-map_set ((k, q) ∷ m) key p keyed = elim (Bool-cases (k == key)) [
  | inl e ↦ let same : k ≡ key = ground arith in rw e (rw same at keyed)
  | inr e ↦
      let other : (key == k) ≡ false = ground arith in
      rw e (map_get-set_other m k key p other ∙ keyed.0, IsKeyed-map_set m key p keyed.1)
]

map_get-delete_other :
    (m : List (ℕ × CachedPiece)) (key other : ℕ)
    → map_get m key ≡ none
    → map_get (map_delete m other) key ≡ none
unfolding map_get map_delete
map_get-delete_other [] key other h = refl
map_get-delete_other ((k, q) ∷ m) key other h = elim (Bool-cases (k == key)) [
  | inl e ↦ absurd (none-ne-some _ (sym (rw e at h)))
  | inr e ↦
      let rest = map_get-delete_other m key other (rw e at h) in
      elim (Bool-cases (k == other)) [ inl f ↦ rw f rest | inr f ↦ rw f (rw e rest) ]
]

IsKeyed-map_delete : (m : List (ℕ × CachedPiece)) (key : ℕ) → IsKeyed m → IsKeyed (map_delete m key)
unfolding map_delete
IsKeyed-map_delete [] key keyed = tt
IsKeyed-map_delete ((k, q) ∷ m) key keyed = elim (Bool-cases (k == key)) [
  | inl e ↦ rw e (IsKeyed-map_delete m key keyed.1)
  | inr e ↦ rw e (map_get-delete_other m k key keyed.0, IsKeyed-map_delete m key keyed.1)
]

-- The outcome of a call, if it has one, keeps the bound.
abbrev Keeps : Option (Bool × PieceCache) → Type 0
Keeps none = Unit
Keeps (some r) = IsWithin r.1

put_block-Keeps :
    (c : PieceCache) (index : ℕ) (p : CachedPiece) (begin : ℕ) (block : Bytes)
    → IsWithin c
    → map_get c.pieces index ≡ some p
    → Keeps (put_block c index p begin block)
unfolding put_block
put_block-Keeps c index p begin block h e = elim (Bool-cases (leb begin (length p.content))) [
  | inr beyond ↦ rw beyond tt
  | inl fits ↦
      let q : CachedPiece = record { offset = p.offset; content = copy_at begin block p.content } in
      let same : length (copy_at begin block p.content) ≡ length p.content =
        length-copy_at begin block p.content in
      let sum = rw e at (total_size-map_set c.pieces index q) in
      let counted = h.counted in
      let held : IsWithin
          (record { max_bytes = c.max_bytes; used = c.used; pieces = map_set c.pieces index q }) =
        record {
          keyed = IsKeyed-map_set c.pieces index q h.keyed;
          counted = omega arith;
          bounded = h.bounded;
        } in
      rw fits held
]

write_block-Keeps :
    (c : PieceCache) (index piece_offset piece_length begin : ℕ) (block : Bytes)
    → IsWithin c
    → Keeps (write_block c index piece_offset piece_length begin block)
unfolding write_block
write_block-Keeps c index piece_offset piece_length begin block h =
    elim (Option-cases (map_get c.pieces index)) [
      | inr (p, e) ↦ rw (Keeps, e) (put_block-Keeps c index p begin block h e)
      | inl e ↦ elim (Bool-cases (ltb c.max_bytes (c.used + piece_length))) [
        | inl full ↦ rw (Keeps, e, full) h
        | inr room ↦
            let p : CachedPiece = record {
              offset = piece_offset;
              content = replicate piece_length 0;
            } in
            let len : length p.content ≡ piece_length = length-replicate piece_length _ in
            let sum = rw e at (total_size-map_set c.pieces index p) in
            let counted = h.counted in
            let started : IsWithin (record {
              max_bytes = c.max_bytes;
              used = c.used + piece_length;
              pieces = map_set c.pieces index p;
            }) =
              record {
                keyed = IsKeyed-map_set c.pieces index p h.keyed;
                counted = omega arith;
                bounded = ground arith;
              } in
            rw (Keeps, e, room)
              (put_block-Keeps _ index p begin block started (map_get-set c.pieces index p))
      ]
    ]

forget-IsWithin :
    (c : PieceCache) (index : ℕ) (p : CachedPiece)
    → IsWithin c
    → map_get c.pieces index ≡ some p
    → IsWithin (forget c index p)
forget-IsWithin c index p h e =
    let sum = rw e at (total_size-map_delete c.pieces index h.keyed) in
    let counted = h.counted in
    let bounded = h.bounded in
    record {
      keyed = IsKeyed-map_delete c.pieces index h.keyed;
      counted = omega arith;
      bounded = omega arith;
    }

-- The calls that a cache is given.
pub data Call : Type 0 where
  write : ℕ → ℕ → ℕ → ℕ → Bytes → Call
  verify : ℕ → Bytes → Call

module _ (sha1 : Bytes → Bytes) (files : List FileRegion) (total : ℕ) where
  unfoldable pub call : Call → PieceCache × Disk → Option (PieceCache × Disk)
  call (write index piece_offset piece_length begin block) (c, disk) =
      elim (write_block c index piece_offset piece_length begin block) [
        | none ↦ none
        | some r ↦ some (r.1, disk)
      ]
  call (verify index expected) (c, disk) =
      elim (try_verify sha1 files total (c, disk) index expected) [
        | none ↦ none
        | some r ↦ some r.1
      ]

  unfoldable pub run_calls : List Call → PieceCache × Disk → Option (PieceCache × Disk)
  run_calls [] state = some state
  run_calls (k ∷ ks) state = elim (call k state) [ none ↦ none | some next ↦ run_calls ks next ]

  abbrev Holds : Option (PieceCache × Disk) → Type 0
  Holds none = Unit
  Holds (some state) = IsWithin state.0

  verify-Holds :
      (index : ℕ) (expected : Bytes) (c : PieceCache) (disk : Disk)
      → IsWithin c
      → Holds (call (verify index expected) (c, disk))
  unfolding call try_verify
  verify-Holds index expected c disk h = elim (Option-cases (map_get c.pieces index)) [
    | inl e ↦ rw (Holds, e) h
    | inr (p, e) ↦ elim (Bool-cases (same_text (sha1 p.content) expected)) [
      | inr differs ↦ rw (Holds, e, differs) (forget-IsWithin c index p h e)
      | inl same ↦ elim (Option-cases (write_at files total disk p.content (pos p.offset))) [
        | inl w ↦ rw (Holds, e, same) (rw w tt)
        | inr (r, w) ↦ elim (Option-cases r.error) [
          | inl fine ↦ rw (Holds, e, same) (rw w (rw fine (forget-IsWithin c index p h e)))
          | inr (x, bad) ↦ rw (Holds, e, same) (rw w (rw bad (forget-IsWithin c index p h e)))
        ]
      ]
    ]
  ]

  call-Holds : (k : Call) (c : PieceCache) (disk : Disk) → IsWithin c → Holds (call k (c, disk))
  unfolding call
  call-Holds (write index piece_offset piece_length begin block) c disk h =
      let kept = write_block-Keeps c index piece_offset piece_length begin block h in
      elim (Option-cases (write_block c index piece_offset piece_length begin block)) [
        | inl e ↦ rw (Holds, e) tt
        | inr (r, e) ↦ rw (Holds, e) (rw e at kept)
      ]
  call-Holds (verify index expected) c disk h = verify-Holds index expected c disk h

  run_calls-Holds :
      (ks : List Call) (c : PieceCache) (disk : Disk) → IsWithin c → Holds (run_calls ks (c, disk))
  unfolding run_calls
  run_calls-Holds [] c disk h = h
  run_calls-Holds (k ∷ ks) c disk h =
      let kept = call-Holds k c disk h in
      elim (Option-cases (call k (c, disk))) [
        | inl e ↦ rw (Holds, e) tt
        | inr (s, e) ↦ rw (Holds, e) (run_calls-Holds ks s.0 s.1 (rw e at kept))
      ]

  -- Whatever a new cache is asked to buffer and to verify, where no call panics, the count of its
  -- bytes is that of the bytes it holds, each piece held once, and within its bound.
  pub run_calls-IsWithin :
      (max_bytes : ℕ) (disk : Disk) (ks : List Call) (c : PieceCache) (after : Disk)
      → run_calls ks (new max_bytes, disk) ≡ some (c, after)
      → IsWithin c
  run_calls-IsWithin max_bytes disk ks c after e =
      let start : IsWithin (new max_bytes) = record {
        keyed = tt;
        counted = refl;
        bounded = omega arith;
      } in
      let held = run_calls-Holds ks (new max_bytes) disk start in rw e at held
