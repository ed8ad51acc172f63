-- ===== src/Peer/Message/Framing.antt =====
-- A stream of frames: what `ReadMessage` finds at the front of the bytes that have arrived.
use go_torrent.Base.{
  ℕ, ◌%◌, ◌+◌, ◌<◌, ◌≤◌, ◌≡◌, inl, inr, sym, ap, ap₂, ◌∙◌, [], ◌∷◌, ◌++◌, append_assoc, length,
  length-append, length-take, take_all, take-append-drop, take-append_length, drop-append_length,
  Option-cases, subst, All-append_left, All-append_right, none, some, arith,
}
use go_torrent.Bytes.{Bytes, IsBytes, put_u32, u32, one_u32, u32-put_u32_alone, length-put_u32}
use go_torrent.Peer.Message.{
  Message, short, message, serialize, read_full, read_body, split_message, read_message,
  max_message_length,
}

-- A message that its reader takes: the id is a byte and the frame is not too long.
pub record IsFrame (m : Message) : Type 0 where
  pub id_byte : m.id < 256
  pub fits : 1 + length m.payload ≤ max_message_length

pub read_full-append :
    (n : ℕ) (xs rest : Bytes) → length xs ≡ n → read_full n (xs ++ rest) ≡ some (xs, rest)
unfolding read_full
read_full-append n xs rest h =
    rw (← h) (
      ground (arith, length-append xs rest, take-append_length xs rest, drop-append_length xs rest))

read_full-eq_some :
    (n : ℕ) (xs front back : Bytes)
    → read_full n xs ≡ some (front, back)
    → (xs ≡ front ++ back) × (length front ≡ n)
unfolding read_full
read_full-eq_some n xs front back e = ground (arith, take-append-drop n xs, length-take n xs)

abbrev frame : Message → Bytes
frame m = put_u32 (1 + length m.payload) ++ (m.id ∷ m.payload)

serialize-frame : (m : Message) → IsFrame m → serialize (some m) ≡ frame m
unfolding serialize
serialize-frame m f =
    let plain : (1 + length m.payload) % 4294967296 ≡ 1 + length m.payload =
      omega (arith, f.fits) in
    let byte : m.id % 256 ≡ m.id = omega (arith, f.id_byte) in
    rw (plain, byte)
      (take_all _ _ (
        omega (
          arith,
          f.fits,
          length-append (put_u32 (1 + length m.payload)) (m.id ∷ m.payload),
          length-put_u32 (1 + length m.payload),
        )))

read_body-message :
    (m : Message) (rest : Bytes)
    → IsFrame m
    → read_body (1 + length m.payload) (m.id ∷ (m.payload ++ rest)) ≡ message m rest
unfolding read_body split_message
read_body-message m rest f =
    ground
      (arith, f.fits, read_full-append (1 + length m.payload) (m.id ∷ m.payload) rest (omega arith))

split_message_sound :
    (body rest rest' : Bytes) (m : Message)
    → split_message body rest' ≡ message m rest
    → (body ≡ m.id ∷ m.payload) × (rest' ≡ rest)
unfolding split_message
split_message_sound [] rest rest' m e = cc
split_message_sound (id ∷ payload) rest rest' m e = ground arith

read_body_sound :
    (len : ℕ) (stream : Bytes) (m : Message) (rest : Bytes)
    → read_body len stream ≡ message m rest
    → (stream ≡ (m.id ∷ m.payload) ++ rest)
      × (1 + length m.payload ≡ len)
      × (len ≤ max_message_length)
unfolding read_body
read_body_sound len stream m rest e = elim (Option-cases (read_full len stream)) [
  | inl none_left ↦ ground (arith, none_left)
  | inr ((body, rest'), found) ↦
      let (whole, wide) = read_full-eq_some len stream body rest' found in
      let e' : split_message body rest' ≡ message m rest = ground (arith, found) in
      let (shape, tail) = split_message_sound body rest rest' m e' in
      (whole ∙ ap₂ ◌++◌ shape tail, omega (arith, wide, ap length shape), ground arith)
]

-- The reader on a stream whose first four bytes are there.
read_message-prefix :
    (prefix stream : Bytes)
    → length prefix ≡ 4
    → read_message (prefix ++ stream) ≡ read_body (u32 prefix) stream
unfolding read_message
read_message-prefix prefix stream h = rw (read_full-append 4 prefix stream h, read_message)

-- A message of bytes that fits a frame, written by `Serialize`, is read back whole, whatever
-- follows it on the connection.
pub read_message-serialize :
    (m : Message) (rest : Bytes)
    → IsFrame m
    → read_message (serialize (some m) ++ rest) ≡ message m rest
read_message-serialize m rest f =
    let len = 1 + length m.payload in
    rw (serialize-frame m f, append_assoc)
      (read_message-prefix (put_u32 len) (m.id ∷ (m.payload ++ rest)) (length-put_u32 len)
        ∙ rw (u32-put_u32_alone len (omega (arith, f.fits))) (read_body-message m rest f))

short_stream : (stream : Bytes) → read_full 4 stream ≡ none → read_message stream ≡ short
unfolding read_message
short_stream stream e = rw (e, read_message)

-- Whatever message `ReadMessage` returns on a stream of bytes, the stream is the frame of that
-- message followed by the rest.
pub read_message_sound :
    (stream : Bytes) (m : Message) (rest : Bytes)
    → IsBytes stream
    → read_message stream ≡ message m rest
    → (stream ≡ serialize (some m) ++ rest) × IsFrame m
read_message_sound stream m rest b e = elim (Option-cases (read_full 4 stream)) [
  | inl none_left ↦ let e' : short ≡ message m rest = sym (short_stream stream none_left) ∙ e in cc
  | inr ((prefix, body), found) ↦
      let (whole, wide) = read_full-eq_some 4 stream prefix body found in
      let e' : read_body (u32 prefix) body ≡ message m rest =
        sym (read_message-prefix prefix body wide) ∙ ap read_message (sym whole) ∙ e in
      let (shape, len, fits) = read_body_sound (u32 prefix) body m rest e' in
      let all : IsBytes (prefix ++ ((m.id ∷ m.payload) ++ rest)) =
        subst IsBytes (whole ∙ ap (◌++◌ prefix) shape) b in
      let is_frame : IsFrame m = record {
        id_byte = (All-append_right (λ x. x < 256) prefix _ all).0;
        fits = omega (arith, len, fits);
      } in
      let front : prefix ≡ put_u32 (1 + length m.payload) =
        sym (one_u32 prefix (All-append_left (λ x. x < 256) prefix _ all) wide)
        ∙ ap put_u32 (sym len) in
      (whole ∙ ap₂ ◌++◌ front shape ∙ rw (serialize-frame m is_frame, append_assoc), is_frame)
]
