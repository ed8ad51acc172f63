-- ===== src/Utp/Tests.antt =====
-- Runs of the packet format, and the theorems at concrete inputs.
use go_torrent.Base.{◌≡◌, refl, inr, [], ◌∷◌, arith, ok}
use go_torrent.Bytes.{Bytes}
use go_torrent.Utp.Packet.{Packet, marshal, unmarshal}
use go_torrent.Utp.RoundTrip.{unmarshal-marshal}

abbrev mask : Bytes
mask = 0 ∷ 128 ∷ 0 ∷ 0 ∷ []

abbrev sample : Packet
sample = record {
  kind = 0;
  conn_id = 513;
  timestamp = 70000;
  timestamp_diff = 5;
  wnd_size = 1048576;
  seq_nr = 65535;
  ack_nr = 2;
  sack = mask;
  payload = 9 ∷ 8 ∷ [];
}

unmarshal-marshal_example : unmarshal (marshal sample) ≡ ok sample
unmarshal-marshal_example = unmarshal-marshal sample (record {
  kind_ok = omega arith;
  conn_ok = omega arith;
  timestamp_ok = omega arith;
  diff_ok = omega arith;
  wnd_ok = omega arith;
  seq_ok = omega arith;
  ack_ok = omega arith;
  sack_ok = inr (omega arith, omega arith, refl);
})
