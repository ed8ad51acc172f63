-- ===== src/Ws/Message.antt =====
-- `ReadMessage` of internal/ws/conn.go on the bytes that are still to be read. Whether the connection
-- was closed meanwhile, which is seen before each frame, and what `sendFrame` answers are arguments;
-- `none` is a frame that was queued.
use go_torrent.Base.{
  ℕ, zero, suc, ◌+◌, Bool, true, false, not, ◌||◌, Option, none, some, List, [], ◌∷◌, ◌++◌, ltb,
  ◌==◌, if◌then◌else◌, length, Result, ok, err,
}
use go_torrent.Bytes.{Bytes}
use go_torrent.Ws.Frame.{Error, Frame, max_frame_payload, op_close, read_frame, short_read}

pub data Cause : Type 0 where
  closed queue_full mid_message no_message message_too_long unknown_opcode : Cause
  bad_frame : Error → Cause

pub record Message : Type 0 where
  pub opcode : ℕ
  pub payload : Bytes
  pub rest : Bytes

-- What is returned, the frames that were sent meanwhile, and whether `Close` was called.
pub record Outcome : Type 0 where
  pub result : Result Cause Message
  pub sent : List Frame
  pub closes : Bool

-- The variables of the loop.
pub record Assembly : Type 0 where
  pub assembling : Bool
  pub opcode : ℕ
  pub buf : Bytes

pub data Next : Type 0 where
  done : Outcome → Next
  again : Assembly → List Frame → Next

abbrev pub fails : Cause → Next
fails cause = done (record { result = err cause; sent = []; closes = true })

abbrev pub op_ping : ℕ
op_ping = 9

abbrev pub op_pong : ℕ
op_pong = 10

-- A fragment is added to what is there.
unfoldable pub assemble : ℕ → Bytes → Frame → Bytes → Next
assemble opcode buf f rest =
    if f.fin
    then done (record {
      result = ok (record { opcode = opcode; payload = buf ++ f.payload; rest = rest });
      sent = [];
      closes = false;
    })
    else again (record { assembling = true; opcode = opcode; buf = buf ++ f.payload }) []

-- The switch on the opcode.
unfoldable pub on_frame : (Frame → Option Cause) → Assembly → Frame → Bytes → Next
on_frame send_frame a f rest =
    let pong = record f { fin = true; opcode = op_pong } in
    let echo = record f { fin = true; opcode = op_close } in
    if f.opcode == op_ping
    then elim (send_frame pong) [ some cause ↦ fails cause | none ↦ again a (pong ∷ []) ]
    else if f.opcode == op_pong
    then again a []
    else if f.opcode == op_close
    then done (record {
      result = err closed;
      sent = elim (send_frame echo) [ some cause ↦ [] | none ↦ echo ∷ [] ];
      closes = true;
    })
    else if f.opcode == 1 || f.opcode == 2
    then (if a.assembling then fails mid_message else assemble f.opcode [] f rest)
    else if f.opcode == 0
    then (if not a.assembling
        then fails no_message
        else if ltb max_frame_payload (length a.buf + length f.payload)
        then fails message_too_long
        else assemble a.opcode a.buf f rest)
    else fails unknown_opcode

-- The loop. A frame takes two bytes at least, so that the length of the input is fuel enough.
unfoldable pub read_frames :
    ℕ → (Bytes → Bool) → (Frame → Option Cause) → Bool → Assembly → Bytes → Outcome
read_frames zero is_closed send_frame require_mask a buf = record {
  result = err (bad_frame short_read);
  sent = [];
  closes = true;
}
read_frames (suc fuel) is_closed send_frame require_mask a buf =
    if is_closed buf
    then record { result = err closed; sent = []; closes = false }
    else elim (read_frame require_mask buf) [
      | err e ↦ record { result = err (bad_frame e); sent = []; closes = true }
      | ok r ↦ elim (on_frame send_frame a r.frame r.rest) [
        | done o ↦ o
        | again a' sent ↦
            let later = read_frames fuel is_closed send_frame require_mask a' r.rest in
            record later { sent = sent ++ later.sent }
      ]
    ]

unfoldable pub read_message : (Bytes → Bool) → (Frame → Option Cause) → Bool → Bytes → Outcome
read_message is_closed send_frame require_mask buf =
    read_frames (length buf) is_closed send_frame require_mask
      (record { assembling = false; opcode = 0; buf = [] }) buf
