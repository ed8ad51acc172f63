-- ===== src/IpFilter/Tests.antt =====
-- A run of the filter, and the theorem at concrete inputs.
use go_torrent.Base.{◌≡◌, some, List, [], ◌∷◌, sort_by, insert_by, arith}
use go_torrent.IpFilter.{Range, load, blocked}
use go_torrent.IpFilter.Lookup.{AreApart, any_holds, blocked-load}

abbrev ranges : List Range
ranges =
    record { start = 40; end = 49 }
    ∷ record { start = 10; end = 19 }
    ∷ record { start = 60; end = 60 }
    ∷ []

ranges-AreApart : AreApart (load ranges)
unfolding load sort_by insert_by
ranges-AreApart = ((omega arith, (omega arith, tt)), ((omega arith, tt), (tt, tt)))

blocked-load_example : blocked (load ranges) (some 45) ≡ any_holds ranges 45
blocked-load_example = blocked-load ranges 45 ranges-AreApart
