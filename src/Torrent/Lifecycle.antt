-- ===== src/Torrent/Lifecycle.antt =====
-- The state machine of internal/torrent/state.go as a whole.
use go_torrent.Base.{
  ◌≡◌, refl, sym, ap, subst, ◌∙◌, ◌↔◌, ◌⊎◌, inl, inr, true, false, false≢true, Option, none, some,
  List, [], ◌∷◌, arith, Bool-cases,
}
use go_torrent.Bytes.{Bytes, same_text, same_text_sound}
use go_torrent.Torrent.State.{
  State, ◌is◌, transitions, lists, can_transition, marshal_text, match_name, all_states,
  unmarshal_text, added, fetching_metadata, checking_files, downloading, seeding, paused, error,
}

abbrev Matched : Bytes → Option State → Type 0
Matched text none = Unit
Matched text (some s) = text ≡ marshal_text s

match_name-Matched : (text : Bytes) (ss : List State) → Matched text (match_name text ss)
unfolding match_name
match_name-Matched text [] = tt
match_name-Matched text (s ∷ ss) = elim (Bool-cases (same_text text (marshal_text s))) [
  | inl e ↦ rw e (same_text_sound text (marshal_text s) e)
  | inr e ↦ rw e (match_name-Matched text ss)
]

unmarshal_text-Matched : (text : Bytes) → Matched text (unmarshal_text text)
unfolding unmarshal_text
unmarshal_text-Matched text = match_name-Matched text all_states

unmarshal_marshal : (s : State) → unmarshal_text (marshal_text s) ≡ some s
unfolding unmarshal_text match_name same_text marshal_text
unmarshal_marshal added = refl
unmarshal_marshal fetching_metadata = refl
unmarshal_marshal checking_files = refl
unmarshal_marshal downloading = refl
unmarshal_marshal seeding = refl
unmarshal_marshal paused = refl
unmarshal_marshal error = refl

-- `UnmarshalText` accepts exactly what `MarshalText` writes for a state, and gives that state.
pub unmarshal_text_iff :
    (text : Bytes) (s : State) → (unmarshal_text text ≡ some s) ↔ (text ≡ marshal_text s)
unmarshal_text_iff text s =
    ((λ e. rw e at (unmarshal_text-Matched text)), λ e. ap unmarshal_text e ∙ unmarshal_marshal s)

-- A sequence of allowed moves.
pub data Run : State → State → Type 0 where
  stay : {s : State} → Run s s
  move : {s t u : State} → can_transition s t ≡ true → Run t u → Run s u

pub follow : {s t u : State} → Run s t → Run t u → Run s u
follow stay r = r
follow (move h q) r = move h (follow q r)

step : {s t : State} → can_transition s t ≡ true → Run s t
step h = move h stay

pause : (s : State) → (s is error) ≡ false → Run s paused
unfolding can_transition lists transitions
pause added h = move {t = fetching_metadata} refl (step refl)
pause fetching_metadata h = step refl
pause checking_files h = step refl
pause downloading h = step refl
pause seeding h = step refl
pause paused h = stay
pause error h = absurd (false≢true (sym h))

resume : (t : State) → (t is added) ≡ false → Run paused t
unfolding can_transition lists transitions
resume added h = absurd (false≢true (sym h))
resume fetching_metadata h = step refl
resume checking_files h = step refl
resume downloading h = step refl
resume seeding h = step refl
resume paused h = stay
resume error h = step refl

from_error : (t : State) → can_transition error t ≡ false
unfolding can_transition lists transitions
from_error t = ground arith

back_to_added : (s : State) → can_transition s added ≡ false
unfolding can_transition lists transitions
back_to_added added = refl
back_to_added fetching_metadata = refl
back_to_added checking_files = refl
back_to_added downloading = refl
back_to_added seeding = refl
back_to_added paused = refl
back_to_added error = refl

-- The only moves that no sequence makes: out of the error, and back to the start.
abbrev pub IsOpen : State → State → Type 0
IsOpen s t = ((s is error) ≡ false) × ((t is added) ≡ false)

leaves : (s t : State) → can_transition s t ≡ true → (s is error) ≡ false
leaves added t h = refl
leaves fetching_metadata t h = refl
leaves checking_files t h = refl
leaves downloading t h = refl
leaves seeding t h = refl
leaves paused t h = refl
leaves error t h = absurd (false≢true (sym (from_error t) ∙ h))

enters : (s t : State) → can_transition s t ≡ true → (t is added) ≡ false
enters s added h = absurd (false≢true (sym (back_to_added s) ∙ h))
enters s fetching_metadata h = refl
enters s checking_files h = refl
enters s downloading h = refl
enters s seeding h = refl
enters s paused h = refl
enters s error h = refl

Run-IsOpen : {s t : State} → Run s t → (s ≡ t) ⊎ IsOpen s t
Run-IsOpen stay = inl refl
Run-IsOpen (move {s} {t} {u} h r) = inr (
  leaves s t h,
  elim (Run-IsOpen r) [ inl e ↦ subst (λ x. (x is added) ≡ false) e (enters s t h) | inr o ↦ o.1 ],
)

-- From every state but the error every state but the first is reached by allowed transitions, and
-- nothing else is, but a state from itself.
pub Run-iff : (s t : State) → Run s t ↔ ((s ≡ t) ⊎ IsOpen s t)
Run-iff s t = (
  Run-IsOpen,
  λ h. elim h [ inl e ↦ subst (Run s) e stay | inr o ↦ follow (pause s o.0) (resume t o.1) ],
)
