-- ===== src/Picker/Tests.antt =====
-- Runs of the picker, and the theorems at concrete inputs.
use go_torrent.Base.{ℕ, ◌≡◌, refl, ◌↔◌, Bool, true, none, List, [], ◌∷◌, ◌==◌, if◌then◌else◌, pos}
use go_torrent.Bitfield
use go_torrent.Bitfield.Invariant.{new-IsValid}
use go_torrent.Picker
use go_torrent.Picker.{
  expire, current_timeout, Config, Picker, new, find, in_endgame, received, rarest_first,
}
use go_torrent.Picker.Progress.{block_length, block_index_of, no_cell, pending}
use go_torrent.Picker.Invariant.{IsValid}
use go_torrent.Picker.Select.{rarest, Draws, pick}
use go_torrent.Picker.Rarest.{IsRarest, rarest-IsRarest}
use go_torrent.Picker.Receiving.{IsAwaited, received_wanted}
use go_torrent.Picker.Starting.{Picks, pick-Picks}
use go_torrent.Picker.History.{Call, call_received, call_expire, call_pick}

abbrev sizes : ℕ → ℕ
sizes i = if i == 2 then 20000 else 32768

abbrev cfg3 : Config
cfg3 = record {
  num_pieces = 3;
  piece_length = sizes;
  strategy = rarest_first;
  max_active_pieces = 64;
  request_timeout = 15000000000;
  endgame_threshold = 8;
  endgame_timeout = 3000000000;
}

abbrev start3 : Picker
start3 = record {
  cfg = cfg3;
  have = Bitfield.new (pos 3);
  avail = 2 ∷ 0 ∷ 1 ∷ [];
  active = [];
  priority = none;
}

abbrev everything : ℕ → Bool
everything _ = true

abbrev no_draws : Draws
no_draws _ _ _ _ = 0

abbrev calls : List Call
calls = call_pick everything no_draws (pos 2) 7 ∷ call_received 2 0 16384 ∷ call_expire 9 ∷ []

rarest-IsRarest_example :
    IsRarest (2 ∷ 0 ∷ 1 ∷ []) everything 3 (rarest (2 ∷ 0 ∷ 1 ∷ []) everything (λ _ _. 0) 3).piece
rarest-IsRarest_example = rarest-IsRarest (2 ∷ 0 ∷ 1 ∷ []) everything (λ _ _. 0) 3

start3-IsValid : IsValid start3
start3-IsValid = record {
  wide = unfold Bitfield.new in refl;
  packed = new-IsValid (pos 3);
  tracked = tt;
  sorted = tt;
}

pick-Picks_example :
    Picks everything no_draws 7
      (in_endgame start3)
      start3
      5
      (pick start3 everything no_draws (pos 5) 7)
unfolding Picker.complete Bitfield.complete Bitfield.new
pick-Picks_example = pick-Picks start3 everything no_draws 5 7 start3-IsValid refl

abbrev started : Picker
started = record start3 {
  active =
      record {
        index = 2;
        len = 20000;
        cells = record { state = pending; requested = 3 } ∷ no_cell ∷ [];
        done = 0;
      }
      ∷ [];
}

received_wanted_example :
    ((received started 2 16384 3616).wanted ≡ true) ↔ IsAwaited started 2 16384 3616
received_wanted_example = received_wanted started 2 16384 3616

last_block : (received started 2 16384 3616).wanted ≡ true
unfolding received find block_index_of block_length
last_block = refl
