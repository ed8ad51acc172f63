-- ===== src/Api/AuthLimiter/Tests.antt =====
-- A run of the limiter, and the theorem at concrete inputs.
use go_torrent.Base.{ℕ, ◌≡◌, refl, false, ◌||◌, List, [], ◌∷◌, ltb, leb, arith, map_get, map_set}
use go_torrent.Api.AuthLimiter.{new_limiter, allowed, recent, record_failure}
use go_torrent.Api.AuthLimiter.Lockout.{Attempt, record_all, InWindow, allowed-record_failure}

abbrev attempt : ℕ → ℕ → Attempt
attempt a t = record { addr = a; time = t }

-- Address 7 fails three times with address 8 in between.
abbrev attempts : List Attempt
attempts = attempt 7 100 ∷ attempt 8 105 ∷ attempt 7 110 ∷ []

attempts-InWindow : InWindow 60 7 120 attempts
attempts-InWindow = (
  λ e. (omega arith, omega arith),
  (λ e. (omega arith, omega arith), (λ e. (omega arith, omega arith), tt)),
)

allowed-record_failure_example :
    (allowed (record_failure (record_all (new_limiter 3 60 600) attempts) 120 7) 719 7).allows
    ≡ (ltb 3 3 || leb 720 719)
allowed-record_failure_example =
    allowed-record_failure 3 60 600 7 120 719 attempts (omega arith) (omega arith) attempts-InWindow

locked_out :
    (allowed (record_failure (record_all (new_limiter 3 60 600) attempts) 120 7) 719 7).allows
    ≡ false
unfolding allowed record_failure new_limiter recent map_get map_set
locked_out = refl
