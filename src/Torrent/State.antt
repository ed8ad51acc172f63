-- ===== src/Torrent/State.antt =====
-- The states of a torrent, the table of allowed transitions and the text form of a state:
-- internal/torrent/state.go. A `State` is one of the seven constants; the text is the bytes of its
-- name.
use go_torrent.Base.{
  ℕ, Bool, true, false, not, ◌||◌, Option, none, some, List, [], ◌∷◌, ◌==◌, if◌then◌else◌,
}
use go_torrent.Bytes.{same_text, Bytes}

pub data State : Type 0 where
  added fetching_metadata checking_files downloading seeding paused error : State

-- The constants in their order, as the int32 that is stored.
abbrev pub number : State → ℕ
number added = 0
number fetching_metadata = 1
number checking_files = 2
number downloading = 3
number seeding = 4
number paused = 5
number error = 6

infix 50 ◌is◌
abbrev pub ◌is◌ : State → State → Bool
s is t = number s == number t

unfoldable pub transitions : State → List State
transitions added = fetching_metadata ∷ checking_files ∷ []
transitions fetching_metadata = checking_files ∷ paused ∷ []
transitions checking_files = downloading ∷ seeding ∷ paused ∷ []
transitions downloading = seeding ∷ paused ∷ checking_files ∷ []
transitions seeding = paused ∷ checking_files ∷ []
transitions paused = fetching_metadata ∷ checking_files ∷ downloading ∷ seeding ∷ []
transitions error = []

unfoldable pub lists : List State → State → Bool
lists [] next = false
lists (s ∷ ss) next = s is next || lists ss next

unfoldable pub can_transition : State → State → Bool
can_transition s next = if next is error then not (s is error) else lists (transitions s) next

unfoldable pub is_active : State → Bool
is_active fetching_metadata = true
is_active checking_files = true
is_active downloading = true
is_active seeding = true
is_active _ = false

-- The names, in ASCII.
unfoldable pub marshal_text : State → Bytes
marshal_text added = 65 ∷ 100 ∷ 100 ∷ 101 ∷ 100 ∷ []
marshal_text fetching_metadata =
    70 ∷ 101 ∷ 116 ∷ 99 ∷ 104 ∷ 105 ∷ 110 ∷ 103 ∷ 77 ∷ 101 ∷ 116 ∷ 97 ∷ 100 ∷ 97 ∷ 116 ∷ 97 ∷ []
marshal_text checking_files =
    67 ∷ 104 ∷ 101 ∷ 99 ∷ 107 ∷ 105 ∷ 110 ∷ 103 ∷ 70 ∷ 105 ∷ 108 ∷ 101 ∷ 115 ∷ []
marshal_text downloading = 68 ∷ 111 ∷ 119 ∷ 110 ∷ 108 ∷ 111 ∷ 97 ∷ 100 ∷ 105 ∷ 110 ∷ 103 ∷ []
marshal_text seeding = 83 ∷ 101 ∷ 101 ∷ 100 ∷ 105 ∷ 110 ∷ 103 ∷ []
marshal_text paused = 80 ∷ 97 ∷ 117 ∷ 115 ∷ 101 ∷ 100 ∷ []
marshal_text error = 69 ∷ 114 ∷ 114 ∷ 111 ∷ 114 ∷ []

-- The cases of the switch, in their order.
unfoldable pub match_name : Bytes → List State → Option State
match_name text [] = none
match_name text (s ∷ ss) = if same_text text (marshal_text s) then some s else match_name text ss

abbrev pub all_states : List State
all_states =
    added ∷ fetching_metadata ∷ checking_files ∷ downloading ∷ seeding ∷ paused ∷ error ∷ []

unfoldable pub unmarshal_text : Bytes → Option State
unmarshal_text text = match_name text all_states
