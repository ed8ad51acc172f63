-- ===== src/IpFilter.antt =====
-- The list of blocked addresses: internal/ipfilter/ipfilter.go. An address in its form of 16 bytes is
-- the number that it spells; one that has no such form, or is nil, is `none`. A filter that is nil
-- is left out: it blocks nothing. `sort.Search` is the binary search of Go's library.
use go_torrent.Base.{
  ℕ, ◌-◌, search, Bool, true, false, ◌&&◌, ◌||◌, Option, none, some, List, [], ◌∷◌, ltb, leb, ◌==◌,
  if◌then◌else◌, length, get_or, sort_by,
}
pub mod Lookup
mod Tests

pub record Range : Type 0 where
  pub start : ℕ
  pub end : ℕ

abbrev pub starts_before : Range → Range → Bool
starts_before a b = ltb a.start b.start

-- The sorted ranges are the filter.
unfoldable pub load : List Range → List Range
load ranges = sort_by starts_before ranges

abbrev pub nowhere : Range
nowhere = record { start = 0; end = 0 }

abbrev pub range_at : List Range → ℕ → Range
range_at ranges i = get_or ranges i nowhere

unfoldable pub blocked : List Range → Option ℕ → Bool
blocked ranges none = false
blocked ranges (some ip) =
    let n = length ranges in
    let i = search n (λ i. ltb ip (range_at ranges i).start) 0 n in
    if i == 0 then false else leb ip (range_at ranges (i - 1)).end

unfoldable pub count : List Range → ℕ
count ranges = length ranges
