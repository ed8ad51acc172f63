-- ===== src/Ws/RoundTrip.antt =====
-- Frames of internal/ws/frame.go, written at one end and read at the other.
use go_torrent.Base.{
  ℕ, ◌≤◌, ◌≡◌, refl, sym, ap, ◌∙◌, inl, inr, Bool, true, false, ◌&&◌, [], ◌∷◌, ◌++◌, append-nil,
  append_assoc, arith, ltb, ◌==◌, if◌then◌else◌, Bool-cases, length, take, drop, Result, ok, err,
}
use go_torrent.Bytes.{Bytes, IsBytes}
use go_torrent.Ws.Frame.{
  Error, Frame, max_frame_payload, Part, read_full, apply_mask, read_payload, read_frame,
  short_length, long_length, write_frame, short_read,
}
use go_torrent.Ws.Masking.{apply_mask_twice, length-apply_mask}
use go_torrent.Ws.Wire.{read_full-append, first_byte, second_byte, IsFrame, framed, read_frame-head}

-- What stands between the head of a frame and the next frame.
abbrev pub body : Bool → Bytes → Bytes → Bytes
body mask key [] = []
body true key (x ∷ xs) = key ++ apply_mask key 0 (x ∷ xs)
body false key (x ∷ xs) = x ∷ xs

abbrev pub head : Bool → ℕ → Bool → ℕ → Bytes → Bytes
head fin op mask n more =
    first_byte fin op ∷ second_byte mask (short_length n) ∷ (long_length n ++ more)

pub write_frame-body :
    (fin : Bool) (op : ℕ) (payload : Bytes) (mask : Bool) (key : Bytes)
    → length payload ≤ max_frame_payload
    → write_frame fin op payload mask key
      ≡ ok (head fin op mask (length payload) (body mask key payload))
unfolding write_frame
write_frame-body fin op [] mask key h = rw (append-nil (long_length 0)) refl
write_frame-body fin op (x ∷ xs) true key h =
    let small : ltb max_frame_payload (length (x ∷ xs)) ≡ false = ground arith in
    let some_byte : (length (x ∷ xs) == 0) ≡ false = ground arith in
    rw (small, some_byte, write_frame) refl
write_frame-body fin op (x ∷ xs) false key h =
    let small : ltb max_frame_payload (length (x ∷ xs)) ≡ false = ground arith in
    let some_byte : (length (x ∷ xs) == 0) ≡ false = ground arith in
    rw (small, some_byte, write_frame) refl

-- The payload comes back, but a masked frame without one takes the next four bytes for its key.
abbrev payload_back : Bool → Bytes → Bytes → Result Error Part
payload_back mask payload rest =
    if mask && length payload == 0
    then (if ltb (length rest) 4
        then err short_read
        else ok (record { bytes = payload; rest = drop 4 rest }))
    else ok (record { bytes = payload; rest = rest })

read_payload-body :
    (payload : Bytes) (mask : Bool) (key rest : Bytes)
    → IsBytes payload
    → IsBytes key
    → length key ≡ 4
    → read_payload mask (length payload) (body mask key payload ++ rest)
      ≡ payload_back mask payload rest
unfolding read_payload apply_mask
read_payload-body [] false key rest hp hk four = read_full-append [] rest
read_payload-body [] true key rest hp hk four = elim (Bool-cases (ltb (length rest) 4)) [
  | inl e ↦ unfold read_full in (rw e refl)
  | inr e ↦
      let key_read : read_full 4 rest ≡ ok (record { bytes = take 4 rest; rest = drop 4 rest }) =
        unfold read_full in (rw e refl) in
      rw (key_read, read_full-append [] (drop 4 rest), e) refl
]
read_payload-body (x ∷ xs) false key rest hp hk four =
    let some_byte : (length (x ∷ xs) == 0) ≡ false = ground arith in read_full-append (x ∷ xs) rest
read_payload-body (x ∷ xs) true key rest hp hk four =
    let payload = x ∷ xs in
    let some_byte : (length payload == 0) ≡ false = ground arith in
    let hidden = apply_mask key 0 payload in
    let key_read : read_full 4 (key ++ (hidden ++ rest))
        ≡ ok (record { bytes = key; rest = hidden ++ rest }) =
      rw four at (read_full-append key (hidden ++ rest)) in
    let body_read : read_full (length payload) (hidden ++ rest)
        ≡ ok (record { bytes = hidden; rest = rest }) =
      rw (length-apply_mask key 0 payload) at (read_full-append hidden rest) in
    rw
      (
        append_assoc key hidden rest,
        key_read,
        body_read,
        apply_mask_twice key 0 payload hk hp,
        some_byte,
      )
      refl

abbrev pub written_bytes : Result Error Bytes → Bytes
written_bytes (ok b) = b
written_bytes (err e) = []

-- What `writeFrame` writes for a frame that may be sent, of bytes and with a mask key of four
-- bytes, `readFrame` reads back at the other end whole, masked or not; but a masked frame without a
-- payload is written without its key, and the reader takes the next four bytes for it, or fails if
-- there are fewer.
pub read_frame-write_frame :
    (f : Frame) (mask : Bool) (key written rest : Bytes)
    → IsFrame f
    → IsBytes key
    → length key ≡ 4
    → write_frame f.fin f.opcode f.payload mask key ≡ ok written
    → read_frame mask (written ++ rest) ≡ (
        if mask && length f.payload == 0
        then (if ltb (length rest) 4
            then err short_read
            else ok (record { frame = f; rest = drop 4 rest }))
        else ok (record { frame = f; rest = rest }))
read_frame-write_frame f mask key written rest h hk four e =
    let n = length f.payload in
    let more = body mask key f.payload in
    let same : ok written ≡ ok (head f.fin f.opcode mask n more) =
      sym e ∙ write_frame-body f.fin f.opcode f.payload mask key h.size_ok in
    let same_bytes : written ≡ head f.fin f.opcode mask n more = ap written_bytes same in
    rw same_bytes (
      rw (append_assoc (long_length n) more rest) (
        read_frame-head f mask (more ++ rest) h
        ∙ ap (framed f) (read_payload-body f.payload mask key rest h.bytes_ok hk four)
        ∙ elim (Bool-cases (mask && length f.payload == 0)) [
          | inl bare ↦ elim (Bool-cases (ltb (length rest) 4)) [
            | inl ends ↦ rw (bare, ends) refl
            | inr goes ↦ rw (bare, goes) refl
          ]
          | inr other ↦ rw other refl
        ]))
