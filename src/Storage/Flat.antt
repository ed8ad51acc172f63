-- ===== src/Storage/Flat.antt =====
-- The bytes of a torrent as the files of internal/storage/storage.go hold them, one after the other.
use go_torrent.Base.{
  first, map_get, map_set, ℕ, ◌+◌, ◌≤◌, ◌<◌, ◌≡◌, refl, sym, ap, ap₂, subst, ◌∙◌, inl, inr, Bool,
  true, false, none, some, List, [], ◌∷◌, ◌++◌, append_assoc, arith, ◌==◌, Bool-cases, length, All,
  length-append, map_get-set, map_get-set_other,
}
use go_torrent.Bytes.{Bytes}
use mathlib.Core.Option.{some-injective, none-ne-some}
use go_torrent.Storage.{FileRegion, end_of, Disk, file_at}
use go_torrent.Storage.Layout.{IsContiguous, contains, file_at-first}

abbrev pub content_of : Disk → ℕ → Bytes
content_of disk path = elim (map_get disk path) [ none ↦ [] | some c ↦ c ]

unfoldable pub flat : List FileRegion → Disk → Bytes
flat [] disk = []
flat (f ∷ fs) disk = content_of disk f.path ++ flat fs disk

-- The file exists, with its length.
abbrev pub Exists : Disk → FileRegion → Type 0
Exists disk f = (c : Bytes) × (map_get disk f.path ≡ some c) × (length c ≡ f.length)

abbrev pub HasOtherPath : FileRegion → FileRegion → Type 0
HasOtherPath f g = (f.path == g.path) ≡ false

abbrev pub IsDistinct : List FileRegion → Type 0
IsDistinct [] = Unit
IsDistinct (f ∷ fs) = All (HasOtherPath f) fs × IsDistinct fs

-- A torrent's files, allocated on a disk.
pub record IsStored (files : List FileRegion) (total : ℕ) (disk : Disk) : Type 0 where
  pub contiguous : IsContiguous 0 files total
  pub distinct : IsDistinct files
  pub allocated : All (Exists disk) files

-- A file's bytes among all bytes, where those start at an offset, and what a change of the file does.
pub record IsLocated (files : List FileRegion) (disk : Disk) (o : ℕ) (f : FileRegion) : Type 0 where
  pub before : Bytes
  pub content : Bytes
  pub after : Bytes
  pub found : map_get disk f.path ≡ some content
  pub size : length content ≡ f.length
  pub splits : flat files disk ≡ before ++ (content ++ after)
  pub starts : o + length before ≡ f.offset
  pub changes : (c : Bytes) → flat files (map_set disk f.path c) ≡ before ++ (c ++ after)
  pub keeps : (c : Bytes) → length c ≡ f.length → All (Exists (map_set disk f.path c)) files

pub content_of-found :
    (disk : Disk) (path : ℕ) (c : Bytes) → map_get disk path ≡ some c → content_of disk path ≡ c
content_of-found disk path c e = rw (content_of, e) refl

pub content_of-map_set :
    (disk : Disk) (path : ℕ) (c : Bytes) → content_of (map_set disk path c) path ≡ c
content_of-map_set disk path c = content_of-found _ path c (map_get-set disk path c)

pub content_of-map_set_other :
    (disk : Disk) (path other : ℕ) (c : Bytes)
    → (other == path) ≡ false
    → content_of (map_set disk other c) path ≡ content_of disk path
content_of-map_set_other disk path other c h =
    ap (λ o. elim o [ none ↦ [] | some c ↦ c ]) (map_get-set_other disk path other c h)

flat-map_set_other :
    (fs : List FileRegion) (disk : Disk) (f : FileRegion) (c : Bytes)
    → All (HasOtherPath f) fs
    → flat fs (map_set disk f.path c) ≡ flat fs disk
unfolding flat
flat-map_set_other [] disk f c h = refl
flat-map_set_other (g ∷ fs) disk f c h =
    ap₂ (λ a b. a ++ b) (content_of-map_set_other disk g.path f.path c h.0)
      (flat-map_set_other fs disk f c h.1)

Exists-map_set_other :
    (fs : List FileRegion) (disk : Disk) (f : FileRegion) (c : Bytes)
    → All (HasOtherPath f) fs
    → All (Exists disk) fs
    → All (Exists (map_set disk f.path c)) fs
Exists-map_set_other [] disk f c h a = tt
Exists-map_set_other (g ∷ fs) disk f c h (e, a) = (
  (e.0, map_get-set_other disk g.path f.path c h.0 ∙ e.1, e.2),
  Exists-map_set_other fs disk f c h.1 a,
)

-- The file that a search finds is none that it passed.
first-other :
    (fs : List FileRegion) (test : FileRegion → Bool) (f g : FileRegion)
    → All (HasOtherPath g) fs
    → first test fs ≡ some f
    → (f.path == g.path) ≡ false
first-other [] test f g h e = absurd (none-ne-some _ e)
first-other (x ∷ fs) test f g h e = elim (Bool-cases (test x)) [
  | inl t ↦ let same : x ≡ f = some-injective x f (rw t at e) in rw (← same) (ground (arith, h.0))
  | inr t ↦ first-other fs test f g h.1 (rw t at e)
]

first-IsLocated :
    (fs : List FileRegion) (disk : Disk) (o total offset : ℕ) (f : FileRegion)
    → IsContiguous o fs total
    → IsDistinct fs
    → All (Exists disk) fs
    → first (contains offset) fs ≡ some f
    → IsLocated fs disk o f
unfolding flat
first-IsLocated [] disk o total offset f c d a e = absurd (none-ne-some _ e)
first-IsLocated (g ∷ fs) disk o total offset f c d ((b, m, l), a) e =
    elim (Bool-cases (contains offset g)) [
      | inl t ↦
          let same : g ≡ f = some-injective g f (rw t at e) in
          subst (λ f. IsLocated (g ∷ fs) disk o f) same
            (record {
              before = [];
              content = b;
              after = flat fs disk;
              found = m;
              size = l;
              splits = ap (λ r. r ++ flat fs disk) (content_of-found disk g.path b m);
              starts = let s = c.0 in omega arith;
              changes = λ x.
                  ap₂ (λ a b. a ++ b) (content_of-map_set disk g.path x)
                    (flat-map_set_other fs disk g x d.0);
              keeps = λ x k.
                  ((x, map_get-set disk g.path x, k), Exists-map_set_other fs disk g x d.0 a);
            })
      | inr t ↦
          let rest = first-IsLocated fs disk (end_of g) total offset f c.1 d.1 a (rw t at e) in
          let other = first-other fs (contains offset) f g d.0 (rw t at e) in
          record {
            before = b ++ rest.before;
            content = rest.content;
            after = rest.after;
            found = rest.found;
            size = rest.size;
            splits =
                ap₂ (λ a r. a ++ r) (content_of-found disk g.path b m) rest.splits
                ∙ sym (append_assoc b rest.before _);
            starts =
                let s = c.0 in let r = rest.starts in omega (arith, length-append b rest.before);
            changes = λ x.
                ap₂ (λ a r. a ++ r)
                  (content_of-map_set_other disk g.path f.path x other
                    ∙ content_of-found disk g.path b m)
                  (rest.changes x)
                ∙ sym (append_assoc b rest.before _);
            keeps =
                λ x k. ((b, map_get-set_other disk g.path f.path x other ∙ m, l), rest.keeps x k);
          }
    ]

first_exists :
    (fs : List FileRegion) (o total offset : ℕ)
    → IsContiguous o fs total
    → o ≤ offset
    → offset < total
    → (f : FileRegion) × (first (contains offset) fs ≡ some f) × (contains offset f ≡ true)
first_exists [] o total offset c h l = absurd (omega arith)
first_exists (f ∷ fs) o total offset c h l = elim (Bool-cases (contains offset f)) [
  | inl t ↦ (f, rw t refl, t)
  | inr t ↦ let s = c.0 in rw t (first_exists fs (end_of f) total offset c.1 (ground arith) l)
]

-- The files of a torrent hold as many bytes as it has.
pub length-flat :
    (fs : List FileRegion) (disk : Disk) (o total : ℕ)
    → IsContiguous o fs total
    → All (Exists disk) fs
    → o + length (flat fs disk) ≡ total
unfolding flat
length-flat [] disk o total c a = omega (arith, c)
length-flat (f ∷ fs) disk o total c ((b, m, l), a) =
    let s = c.0 in
    let e = content_of-found disk f.path b m in
    rw e (omega (arith, length-append b (flat fs disk), length-flat fs disk (end_of f) total c.1 a))

-- The file with an offset of the torrent, and its place.
pub record IsFound (files : List FileRegion) (disk : Disk) (offset : ℕ) : Type 0 where
  pub file : FileRegion
  pub at : file_at files offset ≡ some file
  pub low : file.offset ≤ offset
  pub high : offset < end_of file
  pub located : IsLocated files disk 0 file

pub IsStored-IsFound :
    (files : List FileRegion) (total : ℕ) (disk : Disk) (offset : ℕ)
    → IsStored files total disk
    → offset < total
    → IsFound files disk offset
IsStored-IsFound files total disk offset s l =
    let (f, e, t) = first_exists files 0 total offset s.contiguous (omega arith) l in
    record {
      file = f;
      at = file_at-first files total offset s.contiguous ∙ e;
      low = ground arith;
      high = ground arith;
      located = first-IsLocated files disk 0 total offset f s.contiguous s.distinct s.allocated e;
    }
