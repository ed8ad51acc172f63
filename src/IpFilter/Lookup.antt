-- ===== src/IpFilter/Lookup.antt =====
-- `Blocked` of internal/ipfilter/ipfilter.go against a search through all ranges.
use go_torrent.Base.{
  search, IsBorder, search-IsBorder, ℕ, zero, suc, ◌-◌, ◌≤◌, ◌<◌, ◌≡◌, refl, Bool, true, false,
  ◌&&◌, ◌||◌, some, List, [], ◌∷◌, arith, ltb, leb, ◌==◌, if◌then◌else◌, length, All, sort_by,
  IsSorted, sort_by-IsSorted, count_if, count_if-sort_by,
}
use go_torrent.IpFilter.{Range, starts_before, load, range_at, blocked}

-- Whether one of the ranges holds the address.
abbrev pub holds : ℕ → Range → Bool
holds ip r = leb r.start ip && leb ip r.end

abbrev pub any_holds : List Range → ℕ → Bool
any_holds [] ip = false
any_holds (r ∷ rs) ip = holds ip r || any_holds rs ip

-- Each range ends before all that follow start.
abbrev pub AreApart : List Range → Type 0
AreApart [] = Unit
AreApart (r ∷ rs) = All (λ s. r.end < s.start) rs × AreApart rs

All-range_at :
    (P : Range → Type 0) (rs : List Range) (k : ℕ) → All P rs → k < length rs → P (range_at rs k)
All-range_at P [] k h l = absurd (omega arith)
All-range_at P (r ∷ rs) zero h l = h.0
All-range_at P (r ∷ rs) (suc k) h l = All-range_at P rs k h.1 (omega arith)

starts_rise :
    (rs : List Range) (a b : ℕ)
    → IsSorted starts_before rs
    → a ≤ b
    → b < length rs
    → (range_at rs a).start ≤ (range_at rs b).start
starts_rise [] a b h ab l = absurd (omega arith)
starts_rise (r ∷ rs) zero zero h ab l = omega arith
starts_rise (r ∷ rs) (suc a) zero h ab l = absurd (omega arith)
starts_rise (r ∷ rs) zero (suc b) h ab l =
    let later : starts_before (range_at rs b) r ≡ false =
      All-range_at (λ s. starts_before s r ≡ false) rs b h.0 (omega arith) in
    ground arith
starts_rise (r ∷ rs) (suc a) (suc b) h ab l = starts_rise rs a b h.1 (omega arith) (omega arith)

abbrev beyond : List Range → ℕ → ℕ → Bool
beyond rs ip k = ltb ip (range_at rs k).start

-- The outcome of `Blocked` for the border that the search found.
abbrev verdict : List Range → ℕ → ℕ → Bool
verdict rs ip i = if i == 0 then false else leb ip (range_at rs (i - 1)).end

IsBorder-rest :
    (r : Range) (rs : List Range) (ip i : ℕ)
    → IsBorder (beyond (r ∷ rs) ip) (length (r ∷ rs)) (suc i)
    → IsBorder (beyond rs ip) (length rs) i
IsBorder-rest r rs ip i h = record {
  inside = let l = h.inside in omega arith;
  before = λ k l. h.before (suc k) (omega arith);
  after = λ k l n. h.after (suc k) (omega arith) (omega arith);
}

none_before :
    (rs : List Range) (ip : ℕ) → IsBorder (beyond rs ip) (length rs) 0 → any_holds rs ip ≡ false
none_before [] ip h = refl
none_before (r ∷ rs) ip h =
    let first : ltb ip r.start ≡ true = h.after 0 (omega arith) (omega arith) in
    let others = none_before rs ip (record {
      inside = omega arith;
      before = λ k l. absurd (omega arith);
      after = λ k l n. h.after (suc k) (omega arith) (omega arith);
    }) in
    ground arith

any_holds-verdict :
    (rs : List Range) (ip i : ℕ)
    → AreApart rs
    → IsBorder (beyond rs ip) (length rs) i
    → any_holds rs ip ≡ verdict rs ip i
any_holds-verdict [] ip zero apart h = refl
any_holds-verdict [] ip (suc i) apart h = let l = h.inside in absurd (omega arith)
any_holds-verdict (r ∷ rs) ip zero apart h = none_before (r ∷ rs) ip h
any_holds-verdict (r ∷ rs) ip (suc zero) apart h =
    let first : ltb ip r.start ≡ false = h.before 0 (omega arith) in
    let others = none_before rs ip (IsBorder-rest r rs ip 0 h) in ground arith
any_holds-verdict (r ∷ rs) ip (suc (suc i)) apart h =
    let second : ltb ip (range_at rs 0).start ≡ false = h.before 1 (omega arith) in
    let l = h.inside in
    let ended : r.end < (range_at rs 0).start =
      All-range_at (λ s. r.end < s.start) rs 0 apart.0 (omega arith) in
    let others = any_holds-verdict rs ip (suc i) apart.1 (IsBorder-rest r rs ip (suc i) h) in
    let passed : leb ip r.end ≡ false = ground arith in ground (arith, others)

trivial : (rs : List Range) → All (λ r. Unit {0}) rs
trivial [] = tt
trivial (r ∷ rs) = (tt, trivial rs)

any_holds-count :
    (rs : List Range) (ip : ℕ) → any_holds rs ip ≡ ltb 0 (count_if starts_before (holds ip) rs)
any_holds-count [] ip = refl
any_holds-count (r ∷ rs) ip = ground (arith, any_holds-count rs ip)

-- Where the loaded ranges do not overlap, `Blocked` tells of an address whether one of the ranges
-- given holds it, as a search through all of them would.
pub blocked-load :
    (ranges : List Range) (ip : ℕ)
    → AreApart (load ranges)
    → blocked (load ranges) (some ip) ≡ any_holds ranges ip
unfolding blocked load
blocked-load ranges ip apart =
    let rs = sort_by starts_before ranges in
    let sorted =
      sort_by-IsSorted starts_before (λ r. Unit {0}) (λ a b u v e. ground arith)
        (λ a b c u v w e f. ground arith) ranges (trivial ranges) in
    let border : IsBorder (beyond rs ip) (length rs)
        (search (length rs) (beyond rs ip) 0 (length rs)) =
      search-IsBorder (beyond rs ip) (length rs)
        (λ a b ab bn e. let up = starts_rise rs a b sorted ab bn in ground arith) in
    let found =
      any_holds-verdict rs ip (search (length rs) (beyond rs ip) 0 (length rs)) apart border in
    ground (
      arith,
      found,
      any_holds-count rs ip,
      any_holds-count ranges ip,
      count_if-sort_by starts_before (holds ip) ranges,
    )
