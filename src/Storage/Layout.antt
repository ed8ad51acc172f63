-- ===== src/Storage/Layout.antt =====
-- Where files lie in a torrent's space of bytes: `New` and `regionAt` of internal/storage/storage.go.
use go_torrent.Base.{
  holds_at, first, first-IsBorder, search, ℕ, zero, suc, ◌+◌, ◌≤◌, ◌<◌, ◌≡◌, refl, subst, inl, inr,
  Bool, true, ◌&&◌, Option, none, some, List, [], ◌∷◌, arith, ltb, leb, if◌then◌else◌, Bool-cases,
  Option-cases, length, get_elem?, IsBorder, search-IsBorder,
}
use mathlib.Core.Option.{some-injective, none-ne-some}
use go_torrent.Storage.{FileRegion, end_of, place_files, ends_after, region_at, file_at}

-- The files follow one another from the first offset to the second.
abbrev pub IsContiguous : ℕ → List FileRegion → ℕ → Type 0
IsContiguous o [] total = o ≡ total
IsContiguous o (f ∷ fs) total = (f.offset ≡ o) × IsContiguous (end_of f) fs total

pub contiguous_le : (fs : List FileRegion) (o total : ℕ) → IsContiguous o fs total → o ≤ total
contiguous_le [] o total c = omega (arith, c)
contiguous_le (f ∷ fs) o total c =
    let s = c.0 in omega (arith, contiguous_le fs (end_of f) total c.1)

abbrev pub contains : ℕ → FileRegion → Bool
contains offset f = leb f.offset offset && ltb offset (end_of f)

all_end_after :
    (fs : List FileRegion) (o total offset k : ℕ)
    → IsContiguous o fs total
    → offset < o
    → k < length fs
    → holds_at (ends_after offset) fs k ≡ true
all_end_after [] o total offset k c h l = absurd (omega arith)
all_end_after (f ∷ fs) o total offset zero c h l = let e = c.0 in ground arith
all_end_after (f ∷ fs) o total offset (suc k) c h l =
    let e = c.0 in all_end_after fs (end_of f) total offset k c.1 (omega arith) (omega arith)

ends_rise :
    (fs : List FileRegion) (o total offset a b : ℕ)
    → IsContiguous o fs total
    → a ≤ b
    → b < length fs
    → holds_at (ends_after offset) fs a ≡ true
    → holds_at (ends_after offset) fs b ≡ true
ends_rise [] o total offset a b c ab l h = absurd (omega arith)
ends_rise (f ∷ fs) o total offset zero zero c ab l h = h
ends_rise (f ∷ fs) o total offset (suc a) zero c ab l h = absurd (omega arith)
ends_rise (f ∷ fs) o total offset zero (suc b) c ab l h =
    all_end_after fs (end_of f) total offset b c.1 (ground arith) (omega arith)
ends_rise (f ∷ fs) o total offset (suc a) (suc b) c ab l h =
    ends_rise fs (end_of f) total offset a b c.1 (omega arith) (omega arith) h

-- The test of the offset that the code makes last.
abbrev checked : ℕ → Option FileRegion → Option FileRegion
checked offset o = elim o [ none ↦ none | some f ↦ if leb f.offset offset then some f else none ]

first-contains :
    (fs : List FileRegion) (o total offset : ℕ)
    → IsContiguous o fs total
    → o ≤ offset
    → checked offset (first (ends_after offset) fs) ≡ first (contains offset) fs
first-contains [] o total offset c h = refl
first-contains (f ∷ fs) o total offset c h = elim (Bool-cases (ends_after offset f)) [
  | inl e ↦ let s = c.0 in let t : leb f.offset offset ≡ true = ground arith in rw (e, t) refl
  | inr e ↦
      let s = c.0 in
      let t : leb f.offset offset ≡ true = ground arith in
      rw (e, t) (first-contains fs (end_of f) total offset c.1 (ground arith))
]

-- Where files follow one another from offset 0, the binary search finds the file that a search
-- through all of them would find.
pub file_at-first :
    (files : List FileRegion) (total offset : ℕ)
    → IsContiguous 0 files total
    → file_at files offset ≡ first (contains offset) files
unfolding region_at
file_at-first files total offset c =
    let n = length files in
    let test = holds_at (ends_after offset) files in
    let border : IsBorder test n (search n test 0 n) =
      search-IsBorder test n (λ a b ab l h. ends_rise files 0 total offset a b c ab l h) in
    let found = first-IsBorder (ends_after offset) files (search n test 0 n) border in
    let linear = first-contains files 0 total offset c (omega arith) in
    elim (Option-cases (get_elem? files (search n test 0 n))) [
      | inl e ↦ let l = rw (← found, e) at linear in rw (file_at, e) l
      | inr (f, e) ↦
          let l = rw (← found, e) at linear in
          elim (Bool-cases (leb f.offset offset)) [
            | inl t ↦ rw (file_at, e, t) (rw e (rw t at l))
            | inr t ↦ rw (file_at, e, t) (rw t at l)
          ]
    ]

abbrev pub total_of : List (Option ℕ × ℕ) → ℕ
total_of [] = 0
total_of ((path, len) ∷ fs) = len + total_of fs

-- `New` places the files one after the other, for as many bytes as they have together.
pub place_files-IsContiguous :
    (fs : List (Option ℕ × ℕ)) (offset : ℕ) (regions : List FileRegion)
    → place_files offset fs ≡ some regions
    → IsContiguous offset regions (offset + total_of fs)
unfolding place_files
place_files-IsContiguous [] offset regions h =
    subst (λ r. IsContiguous offset r (offset + 0)) (some-injective [] regions h) (omega arith)
place_files-IsContiguous ((none, len) ∷ fs) offset regions h = absurd (none-ne-some _ h)
place_files-IsContiguous ((some path, len) ∷ fs) offset regions h =
    elim (Option-cases (place_files (offset + len) fs)) [
      | inl e ↦ absurd (none-ne-some _ (rw e at h))
      | inr (rs, e) ↦
          let rest = place_files-IsContiguous fs (offset + len) rs e in
          let here =
            some-injective (record { path = path; offset = offset; length = len } ∷ rs) regions
              (rw e at h) in
          let sum : offset + len + total_of fs ≡ offset + (len + total_of fs) = omega arith in
          subst (λ r. IsContiguous offset r (offset + (len + total_of fs))) here
            (refl, rw sum at rest)
    ]
