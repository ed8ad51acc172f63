-- ===== src/Engine/Queue.antt =====
-- `SetQueuePosition`, `SetForceStart` and `reevaluateQueue` of internal/engine/queue.go. An info hash
-- is a number, the map of torrents a list in no order that matters. A limit is a natural number, 0
-- for none, as a negative one counts too.
use go_torrent.Base.{
  sort_by, ℕ, suc, Bool, true, false, not, ◌&&◌, ◌||◌, Option, none, some, List, [], ◌∷◌, ◌++◌, ltb,
  leb, ◌==◌, if◌then◌else◌, length, take, drop, ℤ, pos, negsuc, Result, ok, err,
}
use go_torrent.Torrent.State.{State, ◌is◌, downloading, seeding, paused}

pub record Managed : Type 0 where
  pub hash : ℕ
  pub queue_pos : ℕ
  pub force_start : Bool
  pub queue_held : Bool
  pub state : State
  pub left : ℕ

pub data Error : Type 0 where
  not_managed : Error

abbrev pub earlier : Managed → Managed → Bool
earlier a b = ltb a.queue_pos b.queue_pos

unfoldable pub find_hash : ℕ → List Managed → Option Managed
find_hash h [] = none
find_hash h (m ∷ ms) = let rest = find_hash h ms in if m.hash == h then some m else rest

-- `append(entries[:idx], entries[idx+1:]...)`, `idx` the first entry with the hash.
unfoldable pub take_out : ℕ → List Managed → List Managed
take_out h [] = []
take_out h (m ∷ ms) = let rest = take_out h ms in if m.hash == h then ms else m ∷ rest

unfoldable pub clamp : ℤ → ℕ → ℕ
clamp (negsuc n) len = 0
clamp (pos n) len = if ltb len n then len else n

unfoldable pub renumber : ℕ → List Managed → List Managed
renumber i [] = []
renumber i (m ∷ ms) = record m { queue_pos = i } ∷ renumber (suc i) ms

-- `SetQueuePosition` as far as it holds the lock.
unfoldable pub place : List Managed → ℕ → ℤ → Result Error (List Managed)
place torrents h position =
    let entries = sort_by earlier torrents in
    elim (find_hash h entries) [
      | none ↦ err not_managed
      | some moved ↦
          let others = take_out h entries in
          let at = clamp position (length others) in
          ok (renumber 0 (take at others ++ (moved ∷ drop at others)))
    ]

unfoldable pub force_first : ℕ → Bool → List Managed → List Managed
force_first h force [] = []
force_first h force (m ∷ ms) =
    let rest = force_first h force ms in
    if m.hash == h then record m { force_start = force } ∷ ms else m ∷ rest

pub record Candidate : Type 0 where
  pub hash : ℕ
  pub queue_pos : ℕ
  pub force_start : Bool
  pub paused : Bool

pub record Limits : Type 0 where
  pub max_downloads : ℕ
  pub max_seeds : ℕ
  pub max_total : ℕ

abbrev pub candidate : Managed → Candidate
candidate m = record {
  hash = m.hash;
  queue_pos = m.queue_pos;
  force_start = m.force_start;
  paused = m.state is paused;
}

-- The torrents that the queue may act on: the others are passed over.
unfoldable pub is_ours : Managed → Bool
is_ours m =
    if m.state is paused && not m.queue_held
    then false
    else if not (m.state is downloading) && not (m.state is seeding) && not (m.state is paused)
    then false
    else true

-- The candidates that are complete, or those that are not.
unfoldable pub candidates : Bool → List Managed → List Candidate
candidates complete [] = []
candidates complete (m ∷ ms) =
    let rest = candidates complete ms in
    if not (is_ours m)
    then rest
    else if complete
    then (if m.left == 0 then candidate m ∷ rest else rest)
    else if m.left == 0
    then rest
    else candidate m ∷ rest

-- The order of `sortByPriority`: force-started first, then by position.
unfoldable pub outranks : Candidate → Candidate → Bool
outranks a b =
    if a.force_start
    then (if b.force_start then ltb a.queue_pos b.queue_pos else true)
    else if b.force_start
    then false
    else ltb a.queue_pos b.queue_pos

abbrev pub sort_by_priority : List Candidate → List Candidate
sort_by_priority cs = sort_by outranks cs

unfoldable pub select_allowed : List Candidate → ℕ → List Candidate
select_allowed cs limit = if limit == 0 || leb (length cs) limit then cs else take limit cs

-- The keys of a map of hashes.
unfoldable pub has_hash : ℕ → List Candidate → Bool
has_hash h [] = false
has_hash h (c ∷ cs) = c.hash == h || has_hash h cs

unfoldable pub filter_allowed : List Candidate → List Candidate → List Candidate
filter_allowed allowed [] = []
filter_allowed allowed (c ∷ cs) =
    let rest = filter_allowed allowed cs in if has_hash c.hash allowed then c ∷ rest else rest

pub record Kept : Type 0 where
  pub downloads : List Candidate
  pub seeds : List Candidate

unfoldable pub cap_total : List Candidate → List Candidate → ℕ → Kept
cap_total downloads seeds limit =
    let combined = sort_by_priority (downloads ++ seeds) in
    let allowed = if ltb limit (length combined) then take limit combined else combined in
    record { downloads = filter_allowed allowed downloads; seeds = filter_allowed allowed seeds }

-- What `reevaluateQueue` decides to keep running.
unfoldable pub decide : Limits → List Managed → Kept
decide l torrents =
    let downloads = select_allowed (sort_by_priority (candidates false torrents)) l.max_downloads in
    let seeds = select_allowed (sort_by_priority (candidates true torrents)) l.max_seeds in
    if ltb 0 l.max_total
    then cap_total downloads seeds l.max_total
    else record { downloads = downloads; seeds = seeds }

pub data Action : Type 0 where
  resume pause : ℕ → Action

-- The calls of the last loop.
unfoldable pub act : List Candidate → List Candidate → List Action
act keep [] = []
act keep (c ∷ cs) =
    let rest = act keep cs in
    if has_hash c.hash keep
    then (if c.paused then resume c.hash ∷ rest else rest)
    else if c.paused
    then rest
    else pause c.hash ∷ rest

unfoldable pub set_queue_held : ℕ → Bool → List Managed → List Managed
set_queue_held h held [] = []
set_queue_held h held (m ∷ ms) =
    let rest = set_queue_held h held ms in
    if m.hash == h then record m { queue_held = held } ∷ rest else m ∷ rest

-- `succeeds` tells whether the call to the torrent did. A call that fails leaves the mark as it was.
unfoldable pub mark_held : (Action → Bool) → List Action → List Managed → List Managed
mark_held succeeds [] torrents = torrents
mark_held succeeds (resume h ∷ as') torrents =
    mark_held succeeds as'
      (if succeeds (resume h) then set_queue_held h false torrents else torrents)
mark_held succeeds (pause h ∷ as') torrents =
    mark_held succeeds as' (if succeeds (pause h) then set_queue_held h true torrents else torrents)

pub record Round : Type 0 where
  pub actions : List Action
  pub torrents : List Managed

unfoldable pub reevaluate_queue : (Action → Bool) → Limits → List Managed → Round
reevaluate_queue succeeds l torrents =
    if l.max_downloads == 0 && l.max_seeds == 0 && l.max_total == 0
    then record { actions = []; torrents = torrents }
    else let kept = decide l torrents in
      let downloads = sort_by_priority (candidates false torrents) in
      let seeds = sort_by_priority (candidates true torrents) in
      let actions = act (kept.downloads ++ kept.seeds) (downloads ++ seeds) in
      record { actions = actions; torrents = mark_held succeeds actions torrents }

unfoldable pub set_queue_position :
    (Action → Bool) → Limits → List Managed → ℕ → ℤ → Result Error Round
set_queue_position succeeds l torrents h position = elim (place torrents h position) [
  | err e ↦ err e
  | ok placed ↦ ok (reevaluate_queue succeeds l placed)
]

unfoldable pub set_force_start :
    (Action → Bool) → Limits → List Managed → ℕ → Bool → Result Error Round
set_force_start succeeds l torrents h force = elim (find_hash h torrents) [
  | none ↦ err not_managed
  | some _ ↦ ok (reevaluate_queue succeeds l (force_first h force torrents))
]
