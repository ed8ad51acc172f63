-- ===== src/Engine/Position.antt =====
-- What `SetQueuePosition` of internal/engine/queue.go leaves.
use go_torrent.Base.{
  Bool, true, false, ◌&&◌, sort_by, ℕ, zero, suc, ◌≡◌, refl, sym, ap, ap₂, ◌∙◌, inl, inr, Option,
  none, some, List, [], ◌∷◌, ◌++◌, arith, ◌==◌, if◌then◌else◌, Bool-cases, Option-cases, length,
  take, drop, ℤ, Result, ok, err,
}
use go_torrent.Engine.Queue.{
  Managed, Error, earlier, find_hash, take_out, clamp, renumber, set_queue_position, place,
  set_queue_held, mark_held, Action, resume, pause, Limits, Round, reevaluate_queue,
}

-- The positions count up from `i`.
abbrev pub IsNumbered : ℕ → List Managed → Type 0
IsNumbered i [] = Unit
IsNumbered i (m ∷ ms) = (m.queue_pos ≡ i) × IsNumbered (suc i) ms

renumber-IsNumbered : (i : ℕ) (ms : List Managed) → IsNumbered i (renumber i ms)
unfolding renumber
renumber-IsNumbered i [] = tt
renumber-IsNumbered i (m ∷ ms) = (refl, renumber-IsNumbered (suc i) ms)

abbrev pub hashes : List Managed → List ℕ
hashes [] = []
hashes (m ∷ ms) = m.hash ∷ hashes ms

hashes-renumber : (i : ℕ) (ms : List Managed) → hashes (renumber i ms) ≡ hashes ms
unfolding renumber
hashes-renumber i [] = refl
hashes-renumber i (m ∷ ms) = ap (λ r. m.hash ∷ r) (hashes-renumber (suc i) ms)

hashes-append : (xs ys : List Managed) → hashes (xs ++ ys) ≡ hashes xs ++ hashes ys
hashes-append [] ys = refl
hashes-append (x ∷ xs) ys = ap (λ r. x.hash ∷ r) (hashes-append xs ys)

hashes-take : (k : ℕ) (xs : List Managed) → hashes (take k xs) ≡ take k (hashes xs)
hashes-take zero xs = refl
hashes-take (suc k) [] = refl
hashes-take (suc k) (x ∷ xs) = ap (λ r. x.hash ∷ r) (hashes-take k xs)

hashes-drop : (k : ℕ) (xs : List Managed) → hashes (drop k xs) ≡ drop k (hashes xs)
hashes-drop zero xs = refl
hashes-drop (suc k) [] = refl
hashes-drop (suc k) (x ∷ xs) = hashes-drop k xs

-- The hashes in the order of the queue, without the first `h`.
abbrev pub without : ℕ → List ℕ → List ℕ
without h [] = []
without h (x ∷ xs) = if x == h then xs else x ∷ without h xs

hashes-take_out : (h : ℕ) (ms : List Managed) → hashes (take_out h ms) ≡ without h (hashes ms)
unfolding take_out
hashes-take_out h [] = refl
hashes-take_out h (m ∷ ms) = elim (Bool-cases (m.hash == h)) [
  | inl e ↦ rw e refl
  | inr e ↦ rw e (ap (λ r. m.hash ∷ r) (hashes-take_out h ms))
]

abbrev Named : ℕ → Option Managed → Type 0
Named h none = Unit
Named h (some m) = m.hash ≡ h

find_hash-Named : (h : ℕ) (ms : List Managed) → Named h (find_hash h ms)
unfolding find_hash
find_hash-Named h [] = tt
find_hash-Named h (m ∷ ms) = elim (Bool-cases (m.hash == h)) [
  | inl e ↦ rw e (ground arith)
  | inr e ↦ rw e (find_hash-Named h ms)
]

-- The queue as its hashes in the order of the positions.
abbrev pub in_order : List Managed → List ℕ
in_order torrents = hashes (sort_by earlier torrents)

IsNumbered-set_queue_held :
    (h : ℕ) (held : Bool) (i : ℕ) (ms : List Managed)
    → IsNumbered i ms
    → IsNumbered i (set_queue_held h held ms)
unfolding set_queue_held
IsNumbered-set_queue_held h held i [] n = tt
IsNumbered-set_queue_held h held i (m ∷ ms) n = elim (Bool-cases (m.hash == h)) [
  | inl e ↦ rw e (n.0, IsNumbered-set_queue_held h held (suc i) ms n.1)
  | inr e ↦ rw e (n.0, IsNumbered-set_queue_held h held (suc i) ms n.1)
]

hashes-set_queue_held :
    (h : ℕ) (held : Bool) (ms : List Managed) → hashes (set_queue_held h held ms) ≡ hashes ms
unfolding set_queue_held
hashes-set_queue_held h held [] = refl
hashes-set_queue_held h held (m ∷ ms) = elim (Bool-cases (m.hash == h)) [
  | inl e ↦ rw e (ap (λ r. m.hash ∷ r) (hashes-set_queue_held h held ms))
  | inr e ↦ rw e (ap (λ r. m.hash ∷ r) (hashes-set_queue_held h held ms))
]

-- The queue of the torrents: who is where.
abbrev Queued : List ℕ → List Managed → Type 0
Queued hs ms = IsNumbered 0 ms × (hashes ms ≡ hs)

Queued-mark :
    (hs : List ℕ) (b : Bool) (h : ℕ) (held : Bool) (ms : List Managed)
    → Queued hs ms
    → Queued hs (if b then set_queue_held h held ms else ms)
Queued-mark hs true h held ms q =
    (IsNumbered-set_queue_held h held 0 ms q.0, hashes-set_queue_held h held ms ∙ q.1)
Queued-mark hs false h held ms q = q

Queued-mark_held :
    (hs : List ℕ) (succeeds : Action → Bool) (actions : List Action) (ms : List Managed)
    → Queued hs ms
    → Queued hs (mark_held succeeds actions ms)
unfolding mark_held
Queued-mark_held hs succeeds [] ms q = q
Queued-mark_held hs succeeds (resume h ∷ as') ms q =
    Queued-mark_held hs succeeds as' _ (Queued-mark hs (succeeds (resume h)) h false ms q)
Queued-mark_held hs succeeds (pause h ∷ as') ms q =
    Queued-mark_held hs succeeds as' _ (Queued-mark hs (succeeds (pause h)) h true ms q)

Queued-reevaluate_queue :
    (hs : List ℕ) (succeeds : Action → Bool) (l : Limits) (ms : List Managed)
    → Queued hs ms
    → Queued hs (reevaluate_queue succeeds l ms).torrents
unfolding reevaluate_queue
Queued-reevaluate_queue hs succeeds l ms q =
    elim (Bool-cases (l.max_downloads == 0 && l.max_seeds == 0 && l.max_total == 0)) [
      | inl e ↦ rw e q
      | inr e ↦ rw e (Queued-mark_held hs succeeds _ ms q)
    ]

-- The order after the torrent `h` is moved to a position.
abbrev pub reordered : List Managed → ℕ → ℤ → List ℕ
reordered torrents h position =
    let others = without h (in_order torrents) in
    let at = clamp position (length others) in take at others ++ (h ∷ drop at others)

abbrev Moved : List Managed → ℕ → ℤ → Result Error Round → Type 0
Moved torrents h position (err _) = Unit
Moved torrents h position (ok round) = Queued (reordered torrents h position) round.torrents

length-hashes : (ms : List Managed) → length (hashes ms) ≡ length ms
length-hashes [] = refl
length-hashes (m ∷ ms) = ap suc (length-hashes ms)

moved :
    (succeeds : Action → Bool) (l : Limits) (torrents : List Managed) (h : ℕ) (position : ℤ)
    → Moved torrents h position (set_queue_position succeeds l torrents h position)
unfolding set_queue_position place
moved succeeds l torrents h position =
    let entries = sort_by earlier torrents in
    elim (Option-cases (find_hash h entries)) [
      | inl e ↦ rw (e, set_queue_position) tt
      | inr (m, e) ↦
          let name : m.hash ≡ h = rw e at (find_hash-Named h entries) in
          let others = take_out h entries in
          let same = hashes-take_out h entries in
          let len : length (without h (hashes entries)) ≡ length others =
            ap length (sym same) ∙ length-hashes others in
          let at = clamp position (length others) in
          let placed = renumber 0 (take at others ++ (m ∷ drop at others)) in
          let queued : Queued (reordered torrents h position) placed = (
            renumber-IsNumbered 0 _,
            rw (len, ← same)
                (hashes-renumber 0 _
                  ∙ hashes-append (take at others) _
                  ∙ ap₂ (λ l r. l ++ (m.hash ∷ r)) (hashes-take at others) (hashes-drop at others)
                  ∙ ap (λ x. take at (hashes others) ++ (x ∷ drop at (hashes others))) name),
          ) in
          rw (e, set_queue_position)
            (Queued-reevaluate_queue (reordered torrents h position) succeeds l placed queued)
    ]

-- When `SetQueuePosition` succeeds, the others keep their order around the torrent it moves, which
-- stands at the place asked for, cut to the length of the queue, and the positions are 0, 1, 2 and
-- so on.
pub set_queue_position_moves :
    (succeeds : Action → Bool) (l : Limits) (torrents : List Managed) (round : Round) (h : ℕ)
    (position : ℤ)
    → set_queue_position succeeds l torrents h position ≡ ok round
    → IsNumbered 0 round.torrents × (hashes round.torrents ≡ reordered torrents h position)
set_queue_position_moves succeeds l torrents round h position e =
    rw e at (moved succeeds l torrents h position)
