-- ===== src/Picker/History.antt =====
-- The picker over a whole run: the calls that the torrent makes on it, in any order.
use go_torrent.Base.{ℕ, Bool, List, [], ◌∷◌, ℤ, Result, ok, err}
use go_torrent.Bitfield
use go_torrent.Bitfield.{Bitfield}
use go_torrent.Bitfield.Invariant.{IsValid as IsValidBitfield}
use go_torrent.Picker.{
  Strategy, Priority, Picker, Error, set_have, set_priorities, set_strategy, mark_verified,
  mark_failed, reset_all_pending, received, expire,
}
use go_torrent.Picker.Invariant.{IsValid}
use go_torrent.Picker.Operations.{kept}
use go_torrent.Picker.Select.{Draws, pick}

pub data Call : Type 0 where
  call_set_have : (have : Bitfield) → IsValidBitfield have → Call
  call_set_priorities : List Priority → Call
  call_set_strategy : Strategy → Call
  call_mark_verified : ℕ → Call
  call_mark_failed : ℕ → Call
  call_received : ℕ → ℕ → ℕ → Call
  call_reset_all_pending : Call
  call_expire : ℕ → Call
  call_pick : (ℕ → Bool) → Draws → ℤ → ℕ → Call

-- An error leaves the picker as it was.
pub run_call : Picker → Call → Picker
run_call p (call_set_have have _) = kept p (set_have p have)
run_call p (call_set_priorities pr) = kept p (set_priorities p pr)
run_call p (call_set_strategy s) = set_strategy p s
run_call p (call_mark_verified i) = mark_verified p i
run_call p (call_mark_failed i) = mark_failed p i
run_call p (call_received index begin len) = (received p index begin len).picker
run_call p call_reset_all_pending = reset_all_pending p
run_call p (call_expire now) = (expire p now).1
run_call p (call_pick peer_has draws limit now) = (pick p peer_has draws limit now).1

pub run_calls : Picker → List Call → Picker
run_calls p [] = p
run_calls p (c ∷ cs) = run_calls (run_call p c) cs

module _ (n : ℤ) (f : ℕ → ℕ) (s : Strategy) (active timeout threshold endgame_timeout : ℤ) where
  abbrev HoldsValid : Result Error Picker → List Call → Type 0
  HoldsValid (err _) cs = Unit
  HoldsValid (ok p) cs = IsValid (run_calls p cs)
