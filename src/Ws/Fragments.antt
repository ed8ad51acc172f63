-- ===== src/Ws/Fragments.antt =====
-- A message in fragments, as `ReadMessage` of internal/ws/conn.go puts it together.
use go_torrent.Base.{
  ℕ, zero, suc, ◌+◌, ◌-◌, ◌≤◌, ◌<◌, ◌≡◌, refl, sym, ap, ◌∙◌, ◌⊎◌, inl, inr, Bool, true, false, ◌&&◌,
  Option, none, List, [], ◌∷◌, ◌++◌, append_assoc, arith, ltb, ◌==◌, length, All, length-append, ok,
}
use go_torrent.Bytes.{Bytes, IsBytes}
use go_torrent.Ws.Frame.{Frame, max_frame_payload, read_frame, long_length, write_frame}
use go_torrent.Ws.Wire.{IsFrame}
use go_torrent.Ws.RoundTrip.{body, write_frame-body, written_bytes, read_frame-write_frame}
use go_torrent.Ws.Message.{
  Cause, Outcome, Assembly, Next, op_ping, op_pong, assemble, on_frame, read_frames, read_message,
  done, again,
}

-- What comes between the first fragment and the last.
pub data Between : Type 0 where
  fragment ping pong : Bytes → Between

abbrev pub frame_of : Between → Frame
frame_of (fragment p) = record { fin = false; opcode = 0; payload = p }
frame_of (ping p) = record { fin = true; opcode = op_ping; payload = p }
frame_of (pong p) = record { fin = true; opcode = op_pong; payload = p }

abbrev pub last_frame : Bytes → Frame
last_frame p = record { fin = true; opcode = 0; payload = p }

-- The payload that the fragments from here on add.
abbrev pub joined : List Between → Bytes → Bytes
joined [] last = last
joined (fragment p ∷ bs) last = p ++ joined bs last
joined (ping p ∷ bs) last = joined bs last
joined (pong p ∷ bs) last = joined bs last

abbrev pub answers : List Between → List Frame
answers [] = []
answers (fragment p ∷ bs) = answers bs
answers (ping p ∷ bs) = record { fin = true; opcode = op_pong; payload = p } ∷ answers bs
answers (pong p ∷ bs) = answers bs

-- A frame that may be sent, and that is read back whole.
abbrev pub IsReady : Bool → Frame → Type 0
IsReady mask f = IsFrame f × ((mask && length f.payload == 0) ≡ false)

abbrev pub IsKey : Bytes → Type 0
IsKey key = IsBytes key × (length key ≡ 4)

abbrev pub frames : List Between → Bytes → List Frame
frames [] last = last_frame last ∷ []
frames (b ∷ bs) last = frame_of b ∷ frames bs last

-- The frames as they are written, each with a key of its own.
abbrev pub stream : Bool → (ℕ → Bytes) → List Frame → Bytes
stream mask key_of [] = []
stream mask key_of (f ∷ fs) =
    written_bytes (write_frame f.fin f.opcode f.payload mask (key_of (length fs)))
    ++ stream mask key_of fs

abbrev frame_bytes : Bool → Bytes → Frame → Bytes
frame_bytes mask key f = written_bytes (write_frame f.fin f.opcode f.payload mask key)

read_one :
    (mask : Bool) (key : Bytes) (f : Frame) (more : Bytes)
    → IsReady mask f
    → IsKey key
    → read_frame mask (frame_bytes mask key f ++ more) ≡ ok (record { frame = f; rest = more })
read_one mask key f more ready k =
    let sent = write_frame-body f.fin f.opcode f.payload mask key ready.0.size_ok in
    let back =
      read_frame-write_frame f mask key (frame_bytes mask key f) more ready.0 k.0 k.1
        (sent ∙ ap ok (sym (ap written_bytes sent))) in
    rw ready.1 at back

frame_takes :
    (mask : Bool) (key : Bytes) (f : Frame) (more : Bytes)
    → IsReady mask f
    → 1 + length more ≤ length (frame_bytes mask key f ++ more)
frame_takes mask key f more ready =
    let sent =
      ap written_bytes (write_frame-body f.fin f.opcode f.payload mask key ready.0.size_ok) in
    rw sent (
      omega (arith, length-append (long_length (length f.payload) ++ body mask key f.payload) more))

Next-cases :
    (n : Next)
    → ((o : Outcome) × (n ≡ done o)) ⊎ ((a : Assembly) × (sent : List Frame) × (n ≡ again a sent))
Next-cases (done o) = inl (o, refl)
Next-cases (again a sent) = inr (a, sent, refl)

module _ (is_closed : Bytes → Bool) (send_frame : Frame → Option Cause) (mask : Bool)
    (key_of : ℕ → Bytes) (stays_open : (b : Bytes) → is_closed b ≡ false)
    (has_room : (f : Frame) → send_frame f ≡ none) (keys : (n : ℕ) → IsKey (key_of n)) where
  abbrev running : ℕ → Bytes → Assembly
  running op buf = record { assembling = true; opcode = op; buf = buf }

  abbrev finished : ℕ → Bytes → Bytes → List Frame → Outcome
  finished op payload rest sent = record {
    result = ok (record { opcode = op; payload = payload; rest = rest });
    sent = sent;
    closes = false;
  }

  abbrev follow : ℕ → Next → Bytes → Outcome
  follow fuel (done o) more = o
  follow fuel (again a sent) more =
      let later = read_frames fuel is_closed send_frame mask a more in
      record later { sent = sent ++ later.sent }

  read_step :
      (fuel : ℕ) (a : Assembly) (key : Bytes) (f : Frame) (more : Bytes)
      → IsReady mask f
      → IsKey key
      → read_frames (suc fuel) is_closed send_frame mask a (frame_bytes mask key f ++ more)
        ≡ follow fuel (on_frame send_frame a f more) more
  unfolding read_frames
  read_step fuel a key f more ready k = elim (Next-cases (on_frame send_frame a f more)) [
    | inl (o, e) ↦ rw (stays_open _, read_one mask key f more ready k) (rw e refl)
    | inr (b, sent, e) ↦ rw (stays_open _, read_one mask key f more ready k) (rw e refl)
  ]

  read_fragments :
      (bs : List Between) (last rest buf : Bytes) (op fuel : ℕ)
      → All (IsReady mask) (frames bs last)
      → length buf + length (joined bs last) ≤ max_frame_payload
      → length bs < fuel
      → read_frames fuel is_closed send_frame mask
          (running op buf)
          (stream mask key_of (frames bs last) ++ rest)
        ≡ finished op (buf ++ joined bs last) rest (answers bs)
  unfolding on_frame assemble
  read_fragments bs last rest buf op zero ready small enough = absurd (omega arith)
  read_fragments [] last rest buf op (suc fuel) ready small enough =
      let w = frame_bytes mask (key_of 0) (last_frame last) in
      let fits : ltb max_frame_payload (length buf + length last) ≡ false = ground arith in
      rw (append_assoc w [] rest) (
        read_step fuel (running op buf) (key_of 0) (last_frame last) rest ready.0 (keys 0)
        ∙ (rw fits refl))
  read_fragments (fragment p ∷ bs) last rest buf op (suc fuel) ready small enough =
      let fs = frames bs last in
      let w = frame_bytes mask (key_of (length fs)) (frame_of (fragment p)) in
      let fits : ltb max_frame_payload (length buf + length p) ≡ false =
        ground (arith, length-append p (joined bs last)) in
      let total : length (buf ++ p) + length (joined bs last) ≤ max_frame_payload =
        omega (arith, small, length-append p (joined bs last), length-append buf p) in
      rw (append_assoc w (stream mask key_of fs) rest) (
        read_step fuel (running op buf) (key_of (length fs)) (frame_of (fragment p))
          (stream mask key_of fs ++ rest) ready.0 (keys (length fs))
        ∙ (rw fits (
            rw (read_fragments bs last rest (buf ++ p) op fuel ready.1 total (omega arith))
              (rw (append_assoc buf p (joined bs last)) refl))))
  read_fragments (ping p ∷ bs) last rest buf op (suc fuel) ready small enough =
      let fs = frames bs last in
      let w = frame_bytes mask (key_of (length fs)) (frame_of (ping p)) in
      rw (append_assoc w (stream mask key_of fs) rest) (
        read_step fuel (running op buf) (key_of (length fs)) (frame_of (ping p))
          (stream mask key_of fs ++ rest) ready.0 (keys (length fs))
        ∙ (rw (has_room (record { fin = true; opcode = op_pong; payload = p }))
            (rw (read_fragments bs last rest buf op fuel ready.1 small (omega arith)) refl)))
  read_fragments (pong p ∷ bs) last rest buf op (suc fuel) ready small enough =
      let fs = frames bs last in
      let w = frame_bytes mask (key_of (length fs)) (frame_of (pong p)) in
      rw (append_assoc w (stream mask key_of fs) rest) (
        read_step fuel (running op buf) (key_of (length fs)) (frame_of (pong p))
          (stream mask key_of fs ++ rest) ready.0 (keys (length fs))
        ∙ (rw (read_fragments bs last rest buf op fuel ready.1 small (omega arith)) refl))

  abbrev first_frame : ℕ → Bytes → Frame
  first_frame op p = record { fin = false; opcode = op; payload = p }

  length-frames :
      (bs : List Between) (last rest : Bytes)
      → All (IsReady mask) (frames bs last)
      → 1 + length bs ≤ length (stream mask key_of (frames bs last) ++ rest)
  length-frames [] last rest ready =
      let w = frame_bytes mask (key_of 0) (last_frame last) in
      rw (append_assoc w [] rest)
        (omega (arith, frame_takes mask (key_of 0) (last_frame last) rest ready.0))
  length-frames (b ∷ bs) last rest ready =
      let fs = frames bs last in
      let w = frame_bytes mask (key_of (length fs)) (frame_of b) in
      let more = stream mask key_of fs ++ rest in
      rw (append_assoc w (stream mask key_of fs) rest) (
        omega (
          arith,
          frame_takes mask (key_of (length fs)) (frame_of b) more ready.0,
          length-frames bs last rest ready.1,
        ))

  opening :
      (op : ℕ) (p more : Bytes)
      → (op ≡ 1) ⊎ (op ≡ 2)
      → on_frame send_frame
          (record { assembling = false; opcode = 0; buf = [] })
          (first_frame op p)
          more
        ≡ again (running op p) []
  unfolding on_frame assemble
  opening op p more (inl e) = rw e refl
  opening op p more (inr e) = rw e refl

  -- A text or binary message that comes in fragments, with pings and pongs anywhere between them,
  -- is put together whole, each ping is answered by its pong in order, and what follows is left
  -- unread; for frames that may be sent, no masked one empty, with keys of four bytes, the payloads
  -- of the fragments together at most 1 MiB, while the connection stays open and the queue has
  -- room.
  pub read_message-fragments :
      (op : ℕ) (first last rest : Bytes) (bs : List Between)
      → (op ≡ 1) ⊎ (op ≡ 2)
      → All (IsReady mask) (first_frame op first ∷ frames bs last)
      → length first + length (joined bs last) ≤ max_frame_payload
      → read_message is_closed send_frame mask
          (stream mask key_of (first_frame op first ∷ frames bs last) ++ rest)
        ≡ finished op (first ++ joined bs last) rest (answers bs)
  unfolding read_message
  read_message-fragments op first last rest bs kind ready small =
      let fs = frames bs last in
      let key = key_of (length fs) in
      let f = first_frame op first in
      let w = frame_bytes mask key f in
      let more = stream mask key_of fs ++ rest in
      let start : Assembly = record { assembling = false; opcode = 0; buf = [] } in
      let (fuel, size) : (n : ℕ) × (length (w ++ more) ≡ suc n) =
        (length (w ++ more) - 1, omega (arith, frame_takes mask key f more ready.0)) in
      let enough : length bs < fuel =
        omega
          (arith, size, frame_takes mask key f more ready.0, length-frames bs last rest ready.1) in
      let opened : on_frame send_frame start f more ≡ again (running op first) [] =
        opening op first more kind in
      rw (append_assoc w (stream mask key_of fs) rest) (
        rw (size, read_message)
          (read_step fuel start key f more ready.0 (keys (length fs))
            ∙ (rw opened
                (rw (read_fragments bs last rest first op fuel ready.1 small enough) refl))))
