-- ===== src/Ws/Tests.antt =====
-- Runs of the frames, and the theorems at concrete inputs.
use go_torrent.Base.{
  ℕ, ◌≤◌, ◌<◌, ◌≡◌, refl, ◌⊎◌, inl, inr, Bool, true, false, none, List, [], ◌∷◌, ◌++◌, arith, drop,
  ok,
}
use go_torrent.Bytes.{Bytes}
use go_torrent.Ws.Frame.{
  Frame, is_control, read_full, read_length, apply_mask, read_payload, read_frame, short_length,
  long_length, write_frame,
}
use go_torrent.Ws.Wire.{IsFrame}
use go_torrent.Ws.RoundTrip.{read_frame-write_frame}
use go_torrent.Ws.Message.{read_message}
use go_torrent.Ws.Fragments.{Between, ping, IsReady, IsKey, frames, stream, read_message-fragments}

abbrev key : Bytes
key = 1 ∷ 2 ∷ 3 ∷ 4 ∷ []

abbrev hello : Frame
hello = record { fin = true; opcode = 1; payload = 104 ∷ 105 ∷ [] }

abbrev empty_ping : Frame
empty_ping = record { fin = true; opcode = 9; payload = [] }

abbrev hello_written : Bytes
hello_written = 129 ∷ 130 ∷ 1 ∷ 2 ∷ 3 ∷ 4 ∷ 105 ∷ 107 ∷ []

hello_is_written : write_frame true 1 (104 ∷ 105 ∷ []) true key ≡ ok hello_written
unfolding write_frame short_length long_length apply_mask
hello_is_written = refl

hello-IsFrame : IsFrame hello
hello-IsFrame = record {
  opcode_ok = omega arith;
  size_ok = omega arith;
  bytes_ok = (omega arith, (omega arith, tt));
  control_ok = inl (unfold is_control in refl);
}

read_frame-write_frame_example :
    read_frame true (hello_written ++ (7 ∷ [])) ≡ ok (record { frame = hello; rest = 7 ∷ [] })
read_frame-write_frame_example =
    read_frame-write_frame hello true key hello_written (7 ∷ []) hello-IsFrame
      (omega arith, (omega arith, (omega arith, (omega arith, tt)))) refl hello_is_written

-- A masked ping, which has no payload, and a frame after it: the first four bytes of that one are
-- lost.
ping_takes_four :
    (write_frame true 9 [] true key ≡ ok (137 ∷ 128 ∷ []))
    × (read_frame true (137 ∷ 128 ∷ hello_written)
        ≡ ok (record { frame = empty_ping; rest = drop 4 hello_written }))
unfolding write_frame short_length long_length read_frame read_length read_payload read_full
    is_control apply_mask
ping_takes_four = (refl, refl)

key-IsKey : IsKey key
key-IsKey = ((omega arith, (omega arith, (omega arith, (omega arith, tt)))), refl)

-- "hi" in two fragments with a ping between them.
abbrev between : List Between
between = ping (5 ∷ []) ∷ []

short-IsReady :
    (fin : Bool) (op x : ℕ)
    → op < 16
    → x < 256
    → (is_control op ≡ false) ⊎ ((fin ≡ true) × (1 ≤ 125))
    → IsReady true (record { fin = fin; opcode = op; payload = x ∷ [] })
short-IsReady fin op x op_fits x_fits control = (
  record {
    opcode_ok = op_fits;
    size_ok = omega arith;
    bytes_ok = (x_fits, tt);
    control_ok = control;
  },
  refl,
)

read_message-fragments_example :
    read_message
      (λ b. false)
      (λ f. none)
      true
      (stream true
          (λ n. key)
          (record { fin = false; opcode = 1; payload = 104 ∷ [] } ∷ frames between (105 ∷ []))
        ++ (9 ∷ []))
    ≡ record {
      result = ok (record { opcode = 1; payload = 104 ∷ 105 ∷ []; rest = 9 ∷ [] });
      sent = record { fin = true; opcode = 10; payload = 5 ∷ [] } ∷ [];
      closes = false;
    }
read_message-fragments_example =
    read_message-fragments (λ b. false) (λ f. none) true (λ n. key) (λ b. refl) (λ f. refl)
      (λ n. key-IsKey) 1 (104 ∷ []) (105 ∷ []) (9 ∷ []) between (inl refl)
      (
        short-IsReady false 1 104 (omega arith) (omega arith) (inl (unfold is_control in refl)),
        (
          short-IsReady true 9 5 (omega arith) (omega arith) (inr (refl, omega arith)),
          (
            short-IsReady true 0 105 (omega arith) (omega arith) (inl (unfold is_control in refl)),
            tt,
          ),
        ),
      )
      (omega arith)
