-- ===== src/Api/AuthLimiter.antt =====
-- `AuthFailureLimiter` of internal/api/authlimiter.go. An address is a number, a time a number of
-- nanoseconds, and the clock an argument; 0 for `maxFails` stands for all that are not positive.
use go_torrent.Base.{
  ℕ, ◌+◌, Bool, true, false, Option, none, some, List, [], ◌∷◌, ◌++◌, ltb, leb, ◌==◌, if◌then◌else◌,
  length, map_get, map_set, map_delete,
}
pub mod Lockout
mod Tests

pub record Limiter : Type 0 where
  pub failures : List (ℕ × List ℕ)
  pub locked_at : List (ℕ × ℕ)
  pub max_fails : ℕ
  pub window : ℕ
  pub lockout : ℕ

unfoldable pub new_limiter : ℕ → ℕ → ℕ → Limiter
new_limiter max_fails window lockout = record {
  failures = [];
  locked_at = [];
  max_fails = max_fails;
  window = window;
  lockout = lockout;
}

-- The answer, and the limiter after it.
pub record Answer : Type 0 where
  pub allows : Bool
  pub limiter : Limiter

unfoldable pub allowed : Limiter → ℕ → ℕ → Answer
allowed l now addr =
    if l.max_fails == 0
    then record { allows = true; limiter = l }
    else elim (map_get l.locked_at addr) [
      | none ↦ record { allows = true; limiter = l }
      | some since ↦
          if ltb now (since + l.lockout) then record { allows = false; limiter = l } else record {
            allows = true;
            limiter = record l {
              failures = map_delete l.failures addr;
              locked_at = map_delete l.locked_at addr;
            };
          }
    ]

-- The failures after `cutoff`, which is `window` before now.
unfoldable pub recent : ℕ → ℕ → List ℕ → List ℕ
recent window now [] = []
recent window now (t ∷ ts) =
    let rest = recent window now ts in if ltb now (t + window) then t ∷ rest else rest

abbrev pub failures_of : Limiter → ℕ → List ℕ
failures_of l addr = elim (map_get l.failures addr) [ none ↦ [] | some ts ↦ ts ]

unfoldable pub record_failure : Limiter → ℕ → ℕ → Limiter
record_failure l now addr =
    if l.max_fails == 0
    then l
    else let kept = recent l.window now (failures_of l addr) ++ (now ∷ []) in
      record l {
        failures = map_set l.failures addr kept;
        locked_at =
            if leb l.max_fails (length kept) then map_set l.locked_at addr now else l.locked_at;
      }

unfoldable pub record_success : Limiter → ℕ → Limiter
record_success l addr =
    if l.max_fails == 0
    then l
    else record l { failures = map_delete l.failures addr; locked_at = map_delete l.locked_at addr }
