-- ===== src/Engine/Alone.antt =====
-- Whom `reevaluateQueue` of internal/engine/queue.go leaves alone, and whom it acts on.
use go_torrent.Base.{
  ℕ, ◌+◌, ◌≡◌, refl, ap, ◌⊎◌, inl, inr, Bool, true, false, not, ◌&&◌, ◌||◌, List, [], ◌∷◌, ◌++◌,
  arith, ◌==◌, if◌then◌else◌, Bool-cases, All, count_if, count_if-sort_by, sort_by-All, ltb, ◌≤◌,
  ◌∙◌,
}
use go_torrent.Torrent.State.{paused, ◌is◌}
use go_torrent.Engine.Queue.{
  Managed, Candidate, Limits, is_ours, candidate, candidates, outranks, sort_by_priority, has_hash,
  Action, act, decide, reevaluate_queue, resume, pause,
}

pub mentions : ℕ → List Action → Bool
mentions h [] = false
mentions h (resume x ∷ as') = x == h || mentions h as'
mentions h (pause x ∷ as') = x == h || mentions h as'

abbrev hash_count : ℕ → List Candidate → ℕ
hash_count h cs = count_if outranks (λ c. c.hash == h) cs

act_absent :
    (h : ℕ) (keep cs : List Candidate) → hash_count h cs ≡ 0 → mentions h (act keep cs) ≡ false
unfolding act mentions
act_absent h keep [] e = refl
act_absent h keep (c ∷ cs) e = ground (arith, act_absent h keep cs)

-- Every torrent with the hash `h` is outside the queue's reach: paused, but not by the queue, or still
-- being fetched or checked, or failed.
abbrev pub IsOut : ℕ → List Managed → Type 0
IsOut h torrents = All (λ m. m.hash ≡ h → is_ours m ≡ false) torrents

hash_count-candidates :
    (h : ℕ) (complete : Bool) (ms : List Managed)
    → IsOut h ms
    → hash_count h (candidates complete ms) ≡ 0
unfolding candidates
hash_count-candidates h complete [] out = refl
hash_count-candidates h complete (m ∷ ms) out =
    ground (arith, hash_count-candidates h complete ms out.1, out.0)

hash_count-append :
    (h : ℕ) (xs ys : List Candidate) → hash_count h (xs ++ ys) ≡ hash_count h xs + hash_count h ys
hash_count-append h [] ys = omega arith
hash_count-append h (x ∷ xs) ys = omega (arith, hash_count-append h xs ys)

-- A torrent that somebody else paused, or that is not downloading or seeding, is neither paused nor
-- resumed by the queue.
pub reevaluate_queue_leaves :
    (succeeds : Action → Bool) (l : Limits) (torrents : List Managed) (h : ℕ)
    → IsOut h torrents
    → mentions h (reevaluate_queue succeeds l torrents).actions ≡ false
unfolding reevaluate_queue
reevaluate_queue_leaves succeeds l torrents h out =
    elim (Bool-cases (l.max_downloads == 0 && l.max_seeds == 0 && l.max_total == 0)) [
      | inl e ↦ rw e (unfold mentions in refl)
      | inr e ↦ rw e (
          act_absent h _ _ (
            omega (
              arith,
              hash_count-append h (sort_by_priority (candidates false torrents))
                  (sort_by_priority (candidates true torrents)),
              count_if-sort_by outranks (λ c. c.hash == h) (candidates false torrents),
              count_if-sort_by outranks (λ c. c.hash == h) (candidates true torrents),
              hash_count-candidates h false torrents out,
              hash_count-candidates h true torrents out,
            )))
    ]

-- What the actions do to whether the torrent `h` is paused, if they succeed.
pub paused_after : List Action → ℕ → Bool → Bool
paused_after [] h b = b
paused_after (resume x ∷ as') h b = paused_after as' h (if x == h then false else b)
paused_after (pause x ∷ as') h b = paused_after as' h (if x == h then true else b)

-- Every candidate with the hash `h` is paused, or none is.
abbrev pub Agrees : ℕ → Bool → List Candidate → Type 0
Agrees h b cs = All (λ c. c.hash ≡ h → c.paused ≡ b) cs

has_hash-eq : (h x : ℕ) (cs : List Candidate) → (x == h) ≡ true → has_hash x cs ≡ has_hash h cs
has_hash-eq h x cs e = ap (λ y. has_hash y cs) (ground arith)

has_hash_first :
    (h : ℕ) (c : Candidate) (cs : List Candidate)
    → has_hash h (c ∷ cs) ≡ (c.hash == h || has_hash h cs)
unfolding has_hash
has_hash_first h c cs = refl

-- A candidate ends up running exactly when it is kept.
paused_after-act :
    (h : ℕ) (keep cs : List Candidate) (b was : Bool)
    → Agrees h was cs
    → (b ≡ was) ⊎ (b ≡ not (has_hash h keep))
    → paused_after (act keep cs) h b ≡ (if has_hash h cs then not (has_hash h keep) else b)
unfolding act paused_after
paused_after-act h keep [] b was a now = unfold has_hash in refl
paused_after-act h keep (c ∷ cs) b was a now = ground (
  arith,
  paused_after-act h keep cs b was a.1,
  paused_after-act h keep cs true was a.1,
  paused_after-act h keep cs false was a.1,
  a.0,
  now,
  has_hash-eq h c.hash keep,
  has_hash_first h c cs,
)

has_hash-count : (h : ℕ) (cs : List Candidate) → has_hash h cs ≡ ltb 0 (hash_count h cs)
unfolding has_hash
has_hash-count h [] = refl
has_hash-count h (c ∷ cs) = ground (arith, has_hash-count h cs)

-- Some torrent with the hash `h` is one that the queue may act on.
unfoldable pub has_ours : ℕ → List Managed → Bool
has_ours h [] = false
has_ours h (m ∷ ms) = (m.hash == h && is_ours m) || has_ours h ms

hash_count-ours :
    (h : ℕ) (ms : List Managed)
    → has_ours h ms ≡ true
    → 1 ≤ hash_count h (candidates false ms) + hash_count h (candidates true ms)
unfolding has_ours candidates
hash_count-ours h [] e = ground arith
hash_count-ours h (m ∷ ms) e = ground (arith, hash_count-ours h ms)

module _ (P : Candidate → Type 0) where
  All-append : (xs ys : List Candidate) → All P xs → All P ys → All P (xs ++ ys)
  All-append [] ys a b = b
  All-append (x ∷ xs) ys a b = (a.0, All-append xs ys a.1 b)

  All-if : (b : Bool) (xs ys : List Candidate) → All P xs → All P ys → All P (if b then xs else ys)
  All-if true xs ys a b = a
  All-if false xs ys a b = b

Agrees-candidates :
    (h : ℕ) (b complete : Bool) (ms : List Managed)
    → All (λ m. m.hash ≡ h → (m.state is paused) ≡ b) ms
    → Agrees h b (candidates complete ms)
unfolding candidates
Agrees-candidates h b complete [] a = tt
Agrees-candidates h b complete (m ∷ ms) a =
    let P : Candidate → Type 0 = λ c. c.hash ≡ h → c.paused ≡ b in
    let rest = candidates complete ms in
    let more : List Candidate = candidate m ∷ rest in
    let old : All P rest = Agrees-candidates h b complete ms a.1 in
    let new : All P more = (a.0, old) in
    All-if P (not (is_ours m)) rest _ old (
      All-if P complete _ _ (All-if P (m.left == 0) more rest new old)
        (All-if P (m.left == 0) rest more old new))

-- With a limit set, where the torrents under a hash agree on being paused and one is within reach
-- of the queue, it runs after the calls of the round, if they succeed, exactly when the queue
-- decided to keep it.
pub reevaluate_queue_settles :
    (succeeds : Action → Bool) (l : Limits) (torrents : List Managed) (h : ℕ) (was : Bool)
    → (l.max_downloads == 0 && l.max_seeds == 0 && l.max_total == 0) ≡ false
    → has_ours h torrents ≡ true
    → All (λ m. m.hash ≡ h → (m.state is paused) ≡ was) torrents
    → paused_after (reevaluate_queue succeeds l torrents).actions h was
      ≡ not (has_hash h ((decide l torrents).downloads ++ (decide l torrents).seeds))
unfolding reevaluate_queue
reevaluate_queue_settles succeeds l torrents h was limited ours a =
    let ds = sort_by_priority (candidates false torrents) in
    let ss = sort_by_priority (candidates true torrents) in
    let keep = (decide l torrents).downloads ++ (decide l torrents).seeds in
    let P : Candidate → Type 0 = λ c. c.hash ≡ h → c.paused ≡ was in
    let there : has_hash h (ds ++ ss) ≡ true = ground (
      arith,
      has_hash-count h (ds ++ ss),
      hash_count-append h ds ss,
      count_if-sort_by outranks (λ c. c.hash == h) (candidates false torrents),
      count_if-sort_by outranks (λ c. c.hash == h) (candidates true torrents),
      hash_count-ours h torrents ours,
    ) in
    rw limited (
      paused_after-act h keep (ds ++ ss) was was
        (All-append P ds ss
          (sort_by-All outranks P (candidates false torrents)
            (Agrees-candidates h was false torrents a))
          (sort_by-All outranks P (candidates true torrents)
            (Agrees-candidates h was true torrents a)))
        (inl refl)
      ∙ (rw there refl))
