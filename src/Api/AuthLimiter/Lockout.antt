-- ===== src/Api/AuthLimiter/Lockout.antt =====
-- When `AuthFailureLimiter` of internal/api/authlimiter.go locks an address out.
use go_torrent.Base.{
  All-append, subst, ◌||◌, ℕ, suc, ◌+◌, ◌≤◌, ◌<◌, ◌≡◌, refl, ap, ◌∙◌, true, false, none, some, List,
  [], ◌∷◌, ◌++◌, ltb, leb, ◌==◌, if◌then◌else◌, Bool-cases, length, length-append, All, inl, inr,
  arith, map_get, map_get-set, map_get-set_other,
}
use go_torrent.Api.AuthLimiter.{Limiter, new_limiter, allowed, recent, failures_of, record_failure}

-- A failed login: the address, and when.
pub record Attempt : Type 0 where
  pub addr : ℕ
  pub time : ℕ

abbrev pub record_all : Limiter → List Attempt → Limiter
record_all l [] = l
record_all l (a ∷ as') = record_all (record_failure l a.time a.addr) as'

-- How many of the attempts are from the address.
abbrev pub attempts_of : ℕ → List Attempt → ℕ
attempts_of addr [] = 0
attempts_of addr (a ∷ as') = (if a.addr == addr then 1 else 0) + attempts_of addr as'

-- Those from the address are in the window that ends at `last`.
abbrev pub InWindow : ℕ → ℕ → ℕ → List Attempt → Type 0
InWindow window addr last as' =
    All (λ a. a.addr ≡ addr → (a.time ≤ last) × (last < a.time + window)) as'

-- What the limiter knows of the address after `n` failures in that window: all are kept, and fewer
-- than the limit do not lock it.
record IsCounted (l : Limiter) (m w o addr last n : ℕ) : Type 0 where
  same_max : l.max_fails ≡ m
  same_window : l.window ≡ w
  same_lockout : l.lockout ≡ o
  recent_ones : All (λ t. (t ≤ last) × (last < t + w)) (failures_of l addr)
  counted : length (failures_of l addr) ≡ n
  open_below : n < m → map_get l.locked_at addr ≡ none

recent_all :
    (w now last : ℕ) (ts : List ℕ)
    → now ≤ last
    → All (λ t. (t ≤ last) × (last < t + w)) ts
    → recent w now ts ≡ ts
unfolding recent
recent_all w now last [] h hs = refl
recent_all w now last (t ∷ ts) h hs =
    let first = hs.0.1 in
    let inside : ltb now (t + w) ≡ true = ground arith in
    rw (inside, recent_all w now last ts h hs.1) refl

module _ (l : Limiter) (positive : (l.max_fails == 0) ≡ false) where
  failures_of-own :
      (now addr : ℕ)
      → failures_of (record_failure l now addr) addr
        ≡ recent l.window now (failures_of l addr) ++ (now ∷ [])
  unfolding record_failure
  failures_of-own now addr =
      let kept = recent l.window now (failures_of l addr) ++ (now ∷ []) in
      rw positive (rw (map_get-set l.failures addr kept, failures_of) refl)

  failures_of-other :
      (now addr other : ℕ)
      → (other == addr) ≡ false
      → failures_of (record_failure l now other) addr ≡ failures_of l addr
  unfolding record_failure
  failures_of-other now addr other differs =
      let kept = recent l.window now (failures_of l other) ++ (now ∷ []) in
      rw positive (rw (map_get-set_other l.failures addr other kept differs, failures_of) refl)

  locked-own :
      (now addr : ℕ)
      → map_get (record_failure l now addr).locked_at addr ≡ (
          if leb l.max_fails (length (failures_of (record_failure l now addr) addr))
          then some now
          else map_get l.locked_at addr)
  locked-own now addr =
      let kept = recent l.window now (failures_of l addr) ++ (now ∷ []) in
      rw (failures_of-own now addr) (
        unfold record_failure in
        (rw positive (elim (Bool-cases (leb l.max_fails (length kept))) [
          | inl e ↦ rw e (map_get-set l.locked_at addr now)
          | inr e ↦ rw e refl
        ])))

  locked-other :
      (now addr other : ℕ)
      → (other == addr) ≡ false
      → map_get (record_failure l now other).locked_at addr ≡ map_get l.locked_at addr
  unfolding record_failure
  locked-other now addr other differs =
      let kept = recent l.window now (failures_of l other) ++ (now ∷ []) in
      rw positive (elim (Bool-cases (leb l.max_fails (length kept))) [
        | inl e ↦ rw e (map_get-set_other l.locked_at addr other now differs)
        | inr e ↦ rw e refl
      ])

  limits_stay :
      (now addr : ℕ)
      → ((record_failure l now addr).max_fails ≡ l.max_fails)
        × ((record_failure l now addr).window ≡ l.window)
        × ((record_failure l now addr).lockout ≡ l.lockout)
  unfolding record_failure
  limits_stay now addr = rw positive (refl, refl, refl)

module _ (m w o addr last : ℕ) (some_limit : (m == 0) ≡ false) where
  count_own :
      (l : Limiter) (n time : ℕ)
      → IsCounted l m w o addr last n
      → time ≤ last
      → last < time + w
      → IsCounted (record_failure l time addr) m w o addr last (suc n)
  count_own l n time c before inside =
      let positive : (l.max_fails == 0) ≡ false = rw c.same_max some_limit in
      let (max_stays, window_stays, lockout_stays) = limits_stay l positive time addr in
      let old = failures_of l addr in
      let kept : recent l.window time old ≡ old =
        rw c.same_window (recent_all w time last old before c.recent_ones) in
      let now : failures_of (record_failure l time addr) addr ≡ old ++ (time ∷ []) =
        failures_of-own l positive time addr ∙ ap (λ ts. ts ++ (time ∷ [])) kept in
      let size : length (failures_of (record_failure l time addr) addr) ≡ suc n =
        ap length now ∙ omega (arith, length-append old (time ∷ []), c.counted) in
      record {
        same_max = max_stays ∙ c.same_max;
        same_window = window_stays ∙ c.same_window;
        same_lockout = lockout_stays ∙ c.same_lockout;
        recent_ones = rw now (
            All-append (λ t. (t ≤ last) × (last < t + w)) old (time ∷ []) c.recent_ones
              ((before, inside), tt));
        counted = size;
        open_below = λ below.
            let few : leb l.max_fails (suc n) ≡ false = ground (arith, c.same_max) in
            locked-own l positive time addr ∙ (rw size (rw few (c.open_below (omega arith))));
      }

  count_other :
      (l : Limiter) (n time other : ℕ)
      → IsCounted l m w o addr last n
      → (other == addr) ≡ false
      → IsCounted (record_failure l time other) m w o addr last n
  count_other l n time other c differs =
      let positive : (l.max_fails == 0) ≡ false = rw c.same_max some_limit in
      let (max_stays, window_stays, lockout_stays) = limits_stay l positive time other in
      let same = failures_of-other l positive time addr other differs in
      record {
        same_max = max_stays ∙ c.same_max;
        same_window = window_stays ∙ c.same_window;
        same_lockout = lockout_stays ∙ c.same_lockout;
        recent_ones = rw same c.recent_ones;
        counted = rw same c.counted;
        open_below = λ below. locked-other l positive time addr other differs ∙ c.open_below below;
      }

  count_all :
      (as' : List Attempt) (l : Limiter) (n : ℕ)
      → IsCounted l m w o addr last n
      → InWindow w addr last as'
      → IsCounted (record_all l as') m w o addr last (n + attempts_of addr as')
  count_all [] l n c h = subst (IsCounted l m w o addr last) (omega arith) c
  count_all (a ∷ as') l n c h = elim (Bool-cases (a.addr == addr)) [
    | inl e ↦
        let same : a.addr ≡ addr = ground arith in
        let inside = h.0 same in
        let next = count_own l n a.time c inside.0 inside.1 in
        let total : suc n + attempts_of addr as' ≡ n + (1 + attempts_of addr as') = omega arith in
        rw (e, same)
          (subst (IsCounted (record_all (record_failure l a.time addr) as') m w o addr last) total
            (count_all as' (record_failure l a.time addr) (suc n) next h.1))
    | inr e ↦
        let next = count_other l n a.time a.addr c e in
        let total : n + attempts_of addr as' ≡ n + (0 + attempts_of addr as') = omega arith in
        rw e (
          subst (IsCounted (record_all (record_failure l a.time a.addr) as') m w o addr last) total
            (count_all as' (record_failure l a.time a.addr) n next h.1))
  ]

-- From a new limiter with a positive limit and window: an address whose failures, whatever others
-- come between, all fall in the window that ends with its last one, is refused after that one
-- exactly when they are as many as the limit and the lockout, which runs from the last, is not
-- over.
pub allowed-record_failure :
    (m w o addr last now : ℕ) (as' : List Attempt)
    → 0 < m
    → 0 < w
    → InWindow w addr last as'
    → (allowed (record_failure (record_all (new_limiter m w o) as') last addr) now addr).allows
      ≡ (ltb (suc (attempts_of addr as')) m || leb (last + o) now)
allowed-record_failure m w o addr last now as' hm hw h =
    let some_limit : (m == 0) ≡ false = ground arith in
    let fresh : IsCounted (new_limiter m w o) m w o addr last 0 =
      unfold new_limiter map_get in
      (record {
        same_max = refl;
        same_window = refl;
        same_lockout = refl;
        recent_ones = tt;
        counted = refl;
        open_below = λ b. refl;
      }) in
    let l = record_all (new_limiter m w o) as' in
    let n = attempts_of addr as' in
    let before : IsCounted l m w o addr last n =
      subst (IsCounted l m w o addr last) (omega arith)
        (count_all m w o addr last some_limit as' (new_limiter m w o) 0 fresh h) in
    let after = count_own m w o addr last some_limit l n last before (omega arith) (omega arith) in
    let positive : (l.max_fails == 0) ≡ false = rw before.same_max some_limit in
    let still : ((record_failure l last addr).max_fails == 0) ≡ false =
      rw after.same_max some_limit in
    elim (Bool-cases (ltb (suc n) m)) [
      | inl few ↦
          let open' : map_get (record_failure l last addr).locked_at addr ≡ none =
            after.open_below (ground arith) in
          unfold allowed in (rw (still, open', few) refl)
      | inr many ↦
          let enough : leb l.max_fails (suc n) ≡ true = ground (arith, before.same_max) in
          let locked : map_get (record_failure l last addr).locked_at addr ≡ some last =
            locked-own l positive last addr ∙ (rw after.counted (rw enough refl)) in
          unfold allowed in
          (rw (still, locked, many, after.same_lockout)
            (elim (Bool-cases (ltb now (last + o))) [
              | inl e ↦ rw e (ground arith)
              | inr e ↦ rw e (ground arith)
            ]))
    ]
