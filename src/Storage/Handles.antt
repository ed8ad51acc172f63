-- ===== src/Storage/Handles.antt =====
-- The cache of open files: internal/storage/handles.go. An entry is a number into the table of all
-- entries there ever were, for callers hold entries that the cache has evicted; `closes` counts the
-- calls of `Close` on its file. An element of the list stands for its entry. Whether a file can be
-- opened is an argument.
use go_torrent.Base.{
  map_get, map_set, map_delete, ℕ, zero, suc, ◌-◌, Bool, true, false, not, ◌||◌, Option, none, some,
  List, [], ◌∷◌, leb, ◌==◌, if◌then◌else◌, length,
}
pub mod Kept
pub mod Held
mod Tests

pub record CacheEntry : Type 0 where
  pub path : ℕ
  pub writable : Bool
  pub refs : ℕ
  pub evicted : Bool
  pub closes : ℕ

pub record HandleCache : Type 0 where
  pub max_files : ℕ
  pub entries : List (ℕ × CacheEntry)
  pub by_path : List (ℕ × ℕ)
  pub lru : List ℕ
  pub next : ℕ

abbrev pub default_max_open_files : ℕ
default_max_open_files = 64

-- A bound that is not positive is 0.
unfoldable pub new_handle_cache : ℕ → HandleCache
new_handle_cache n = record {
  max_files = if n == 0 then default_max_open_files else n;
  entries = [];
  by_path = [];
  lru = [];
  next = 0;
}

unfoldable pub without : ℕ → List ℕ → List ℕ
without id [] = []
without id (x ∷ xs) = let rest = without id xs in if x == id then rest else x ∷ rest

-- `entry.file.Close()`, where nobody holds the entry.
abbrev pub close_if_idle : CacheEntry → CacheEntry
close_if_idle e = if e.refs == 0 then record e { closes = suc e.closes } else e

unfoldable pub evict : HandleCache → ℕ → CacheEntry → HandleCache
evict c id e = record {
  max_files = c.max_files;
  entries = map_set c.entries id (close_if_idle (record e { evicted = true }));
  by_path = map_delete c.by_path e.path;
  lru = without id c.lru;
  next = c.next;
}

-- The last entry of a list that nobody holds, the loop of `trim` from the back.
unfoldable pub last_idle : List (ℕ × CacheEntry) → List ℕ → Option (ℕ × CacheEntry)
last_idle entries [] = none
last_idle entries (id ∷ ids) = elim (last_idle entries ids) [
  | some found ↦ some found
  | none ↦ elim (map_get entries id) [
    | none ↦ none
    | some e ↦ if e.refs == 0 then some (id, e) else none
  ]
]

-- Each round of `trim` takes an entry off the list, so its length is fuel enough.
unfoldable pub trim : ℕ → HandleCache → HandleCache
trim zero c = c
trim (suc fuel) c =
    if leb (length c.lru) c.max_files
    then c
    else elim (last_idle c.entries c.lru) [ none ↦ c | some (id, e) ↦ trim fuel (evict c id e) ]

unfoldable pub open_file : HandleCache → ℕ → Bool → Bool → HandleCache × Option ℕ
open_file c path write opens =
    let e : CacheEntry = record {
      path = path;
      writable = write;
      refs = 1;
      evicted = false;
      closes = 0;
    } in
    let opened : HandleCache = record {
      max_files = c.max_files;
      entries = map_set c.entries c.next e;
      by_path = map_set c.by_path path c.next;
      lru = c.next ∷ c.lru;
      next = suc c.next;
    } in
    if opens then (trim (length opened.lru) opened, some c.next) else (c, none)

-- `acquire`; the entry stands for the file and its release function.
unfoldable pub acquire : HandleCache → ℕ → Bool → Bool → HandleCache × Option ℕ
acquire c path write opens = elim (map_get c.by_path path) [
  | none ↦ open_file c path write opens
  | some id ↦ elim (map_get c.entries id) [
    | none ↦ (c, none)
    | some e ↦
        if not write || e.writable
        then (
          record {
            max_files = c.max_files;
            entries = map_set c.entries id (record e { refs = suc e.refs });
            by_path = c.by_path;
            lru = id ∷ without id c.lru;
            next = c.next;
          },
          some id,
        )
        else open_file (evict c id e) path write opens
  ]
]

abbrev pub let_go : CacheEntry → CacheEntry
let_go e =
    let left : CacheEntry = record e { refs = e.refs - 1 } in
    if left.evicted then close_if_idle left else left

unfoldable pub release : HandleCache → ℕ → HandleCache
release c id = elim (map_get c.entries id) [
  | none ↦ c
  | some e ↦ record c { entries = map_set c.entries id (let_go e) }
]

-- The loop of `closeAll`, which takes the front of the list while there is one; each round takes an
-- entry off the list, so its length is fuel enough.
unfoldable pub close_entries : ℕ → HandleCache → HandleCache
close_entries zero c = c
close_entries (suc fuel) c = elim c.lru [
  | [] ↦ c
  | id ∷ ids ↦ elim (map_get c.entries id) [ none ↦ c | some e ↦ close_entries fuel (evict c id e) ]
]

unfoldable pub close_all : HandleCache → HandleCache
close_all c = close_entries (length c.lru) c
