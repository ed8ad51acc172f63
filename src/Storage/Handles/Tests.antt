-- ===== src/Storage/Handles/Tests.antt =====
-- Examples for the cache of open files, with room for one.
use go_torrent.Base.{
  map_get, map_set, map_delete, ◌≡◌, refl, true, false, none, some, [], ◌∷◌, arith,
}
use go_torrent.Storage.Handles.{
  CacheEntry, HandleCache, new_handle_cache, without, evict, last_idle, trim, open_file, acquire,
  release,
}
use go_torrent.Storage.Handles.Kept.{closed_once}
use go_torrent.Storage.Handles.Held.{Reaches, closes-Reaches, acquires, releases, here, onwards}

abbrev start : HandleCache
start = new_handle_cache 1

abbrev one_open : HandleCache
one_open = (acquire start 7 false true).0

-- The first file is held, so the cache grows beyond its bound.
abbrev two_open : HandleCache
two_open = (acquire one_open 9 true true).0

abbrev one_released : HandleCache
one_released = release two_open 0

abbrev one_closed : HandleCache
one_closed = (acquire one_released 8 false true).0

abbrev held_entry : CacheEntry
held_entry = record { path = 7; writable = false; refs = 1; evicted = false; closes = 0 }

abbrev closed_entry : CacheEntry
closed_entry = record { path = 7; writable = false; refs = 0; evicted = true; closes = 1 }

overshoots : two_open.lru ≡ 1 ∷ 0 ∷ []
unfolding new_handle_cache acquire open_file trim last_idle map_get map_set
overshoots = refl

evicts : one_closed.lru ≡ 2 ∷ 1 ∷ []
unfolding new_handle_cache acquire open_file trim last_idle map_get map_set release evict without
    map_delete
evicts = refl

reopens : (acquire one_open 7 true false).1 ≡ none
unfolding new_handle_cache acquire open_file trim last_idle map_get map_set evict without map_delete
reopens = refl

held_at : map_get two_open.entries 0 ≡ some held_entry
unfolding new_handle_cache acquire open_file trim last_idle map_get map_set
held_at = refl

closed_at : map_get one_closed.entries 0 ≡ some closed_entry
unfolding new_handle_cache acquire open_file trim last_idle map_get map_set release evict without
    map_delete
closed_at = refl

steps : Reaches start one_closed
steps =
    onwards
      (onwards (onwards (onwards here (acquires 7 false true)) (acquires 9 true true))
        (releases 0 held_entry held_at (omega arith)))
      (acquires 8 false true)

closes-Reaches_example : closed_entry.closes ≡ closed_once closed_entry
closes-Reaches_example = closes-Reaches 1 one_closed 0 closed_entry steps closed_at
