-- ===== src/Engine/Tests.antt =====
-- Runs of the queue, and the theorems at concrete inputs.
use go_torrent.Base.{
  ◌+◌, sort_by, insert_by, ℕ, ◌≡◌, refl, Bool, true, false, not, List, [], ◌∷◌, ◌++◌, arith, length,
  pos, ok,
}
use go_torrent.Torrent.State.{State, ◌is◌, downloading, seeding, paused}
use go_torrent.Engine.Queue.{
  Round, place, act, is_ours, cap_total, filter_allowed, find_hash, take_out, clamp, renumber,
  Managed, set_queue_position, Candidate, Limits, candidates, outranks, select_allowed, has_hash,
  decide, resume, pause, reevaluate_queue,
}
use go_torrent.Engine.Position.{IsNumbered, hashes, set_queue_position_moves}
use go_torrent.Engine.Limits.{Within, decide-Within}
use go_torrent.Engine.Alone.{IsOut, has_ours, paused_after, reevaluate_queue_settles}

abbrev entry : ℕ → ℕ → Bool → State → ℕ → Managed
entry h p force s left = record {
  hash = h;
  queue_pos = p;
  force_start = force;
  queue_held = s is paused;
  state = s;
  left = left;
}

-- Two downloads that run, one that the queue holds and is to be forced, and one that seeds.
abbrev torrents : List Managed
torrents =
    entry 11 2 false downloading 100
    ∷ entry 12 0 false downloading 50
    ∷ entry 13 1 true paused 70
    ∷ entry 14 3 false seeding 0
    ∷ []

abbrev limits : Limits
limits = record { max_downloads = 2; max_seeds = 0; max_total = 2 }

abbrev unlimited : Limits
unlimited = record { max_downloads = 0; max_seeds = 0; max_total = 0 }

actions_of_round :
    (reevaluate_queue (λ a. true) limits torrents).actions ≡ resume 13 ∷ pause 11 ∷ pause 14 ∷ []
unfolding reevaluate_queue decide select_allowed has_hash candidates outranks act sort_by is_ours
    insert_by cap_total filter_allowed
actions_of_round = refl

abbrev moved : List Managed
moved =
    entry 12 0 false downloading 50
    ∷ entry 13 1 true paused 70
    ∷ entry 14 2 false seeding 0
    ∷ entry 11 3 false downloading 100
    ∷ []

abbrev one_round : Round
one_round = record { actions = []; torrents = moved }

move_past_the_end : set_queue_position (λ a. true) unlimited torrents 11 (pos 9) ≡ ok one_round
unfolding set_queue_position place find_hash take_out clamp renumber sort_by insert_by
    reevaluate_queue
move_past_the_end = refl

set_queue_position_moves_example : IsNumbered 0 moved × (hashes moved ≡ 12 ∷ 13 ∷ 14 ∷ 11 ∷ [])
unfolding clamp sort_by insert_by
set_queue_position_moves_example =
    set_queue_position_moves (λ a. true) unlimited torrents one_round 11 (pos 9) move_past_the_end

decide-Within_example :
    Within (length (decide limits torrents).downloads) 2
    × Within (length (decide limits torrents).seeds) 0
    × Within (length (decide limits torrents).downloads + length (decide limits torrents).seeds) 2
decide-Within_example = decide-Within limits torrents (λ h. ground arith)

abbrev queued : ℕ → ℕ → Bool → Candidate
queued h p force = record { hash = h; queue_pos = p; force_start = force; paused = false }

abbrev waiting : List Candidate
waiting = queued 1 4 false ∷ queued 2 7 true ∷ queued 3 0 false ∷ []

-- The user paused torrent 15.
abbrev with_stopped : List Managed
with_stopped = record (entry 15 4 false paused 30) { queue_held = false } ∷ torrents

stopped-IsOut : IsOut 15 with_stopped
unfolding is_ours
stopped-IsOut = (
  λ e. refl,
  (λ e. ground arith, (λ e. ground arith, (λ e. ground arith, (λ e. ground arith, tt)))),
)

has_ours_13 : has_ours 13 with_stopped ≡ true
unfolding is_ours has_ours
has_ours_13 = refl

reevaluate_queue_settles_example :
    paused_after (reevaluate_queue (λ a. true) limits with_stopped).actions 13 true
    ≡ not
        (has_hash 13 ((decide limits with_stopped).downloads ++ (decide limits with_stopped).seeds))
reevaluate_queue_settles_example =
    reevaluate_queue_settles (λ a. true) limits with_stopped 13 true refl has_ours_13
      (
        λ e. ground arith,
        (λ e. ground arith, (λ e. ground arith, (λ e. refl, (λ e. ground arith, tt)))),
      )
