-- ===== src/Ws/Wire.antt =====
-- What `writeFrame` of internal/ws/frame.go writes, as `readFrame` reads it.
use go_torrent.Base.{
  all_below, ℕ, ◌+◌, ◌*◌, ◌/◌, ◌%◌, ◌≤◌, ◌<◌, bit_or, ◌≡◌, refl, ◌⊎◌, inl, inr, Bool, true, false,
  not, ◌&&◌, ◌||◌, [], ◌∷◌, ◌++◌, append-nil, arith, ltb, leb, ◌==◌, if◌then◌else◌, Bool-cases,
  all_below_sound, length, length-append, take-append_length, drop-append_length, Result,
  Result-cases, ok, err,
}
use go_torrent.Bytes.{
  Bytes, IsBytes, put_u16, put_u32, u16, u32, u16-put_u16, u32-put_u32, length-put_u16,
  length-put_u32, drop-put_u32, u32-put_u32_alone,
}
use go_torrent.Ws.Frame.{
  Error, Frame, max_frame_payload, is_control, Part, read_full, read_length, Read, read_payload,
  read_frame, short_length, long_length,
}

pub read_full-append :
    (xs ys : Bytes) → read_full (length xs) (xs ++ ys) ≡ ok (record { bytes = xs; rest = ys })
unfolding read_full
read_full-append xs ys =
    let enough : ltb (length (xs ++ ys)) (length xs) ≡ false =
      ground (arith, length-append xs ys) in
    rw (enough, take-append_length xs ys, drop-append_length xs ys) refl

length_two :
    (n : ℕ) (buf : Bytes)
    → read_full 2 (put_u16 n ++ buf) ≡ ok (record { bytes = put_u16 n; rest = buf })
length_two n buf = let e = length-put_u16 n in let r = read_full-append (put_u16 n) buf in rw e at r

length_eight :
    (n : ℕ) (buf : Bytes)
    → read_full 8 ((put_u32 (n / 4294967296) ++ put_u32 n) ++ buf)
      ≡ ok (record { bytes = put_u32 (n / 4294967296) ++ put_u32 n; rest = buf })
length_eight n buf =
    let both = put_u32 (n / 4294967296) ++ put_u32 n in
    let e : length both ≡ 8 = omega (
      arith,
      length-append (put_u32 (n / 4294967296)) (put_u32 n),
      length-put_u32 (n / 4294967296),
      length-put_u32 n,
    ) in
    let r = read_full-append both buf in rw e at r

-- The length is read back.
read_length-written :
    (n : ℕ) (buf : Bytes)
    → n ≤ max_frame_payload
    → read_length (short_length n) (long_length n ++ buf) ≡ ok (record { size = n; rest = buf })
unfolding read_length short_length long_length
read_length-written n buf h = elim (Bool-cases (ltb n 126)) [
  | inl e ↦
      let a : (n == 126) ≡ false = ground arith in
      let b : (n == 127) ≡ false = ground arith in rw (e, a, b) refl
  | inr e ↦ elim (Bool-cases (leb n 65535)) [
    | inl f ↦
        let v : u16 (put_u16 n) ≡ n =
          rw (append-nil (put_u16 n)) at (u16-put_u16 n [] (ground arith)) in
        rw (e, f, length_two n buf, v) refl
    | inr f ↦
        let high : u32 (put_u32 (n / 4294967296) ++ put_u32 n) ≡ n / 4294967296 =
          u32-put_u32 (n / 4294967296) (put_u32 n) (omega (arith, h)) in
        let low : u32 (put_u32 n) ≡ n = u32-put_u32_alone n (omega (arith, h)) in
        let zero_high : n / 4294967296 * 4294967296 + n ≡ n = omega (arith, h) in
        rw
          (
            e,
            f,
            length_eight n buf,
            high,
            drop-put_u32 (n / 4294967296) (put_u32 n),
            low,
            zero_high,
          )
          refl
  ]
]

abbrev head0_ok : Bool → ℕ → ℕ → Bool
head0_ok fin op b =
    (if fin then leb 128 b else not (leb 128 b)) && (b / 16 % 8 == 0) && (b % 16 == op)

fin_bits : (op : ℕ) → op < 16 → head0_ok true op (bit_or 128 op) ≡ true
fin_bits op h =
    all_below_sound 16 (λ o. head0_ok true o (bit_or 128 o)) (unfold all_below in refl) op h

more_bits : (op : ℕ) → op < 16 → head0_ok false op (bit_or 0 op) ≡ true
more_bits op h =
    all_below_sound 16 (λ o. head0_ok false o (bit_or 0 o)) (unfold all_below in refl) op h

abbrev pub first_byte : Bool → ℕ → ℕ
first_byte fin op = if fin then bit_or 128 op else bit_or 0 op

first_byte_lem :
    (fin : Bool) (op : ℕ)
    → op < 16
    → (leb 128 (first_byte fin op) ≡ fin)
      × (first_byte fin op / 16 % 8 ≡ 0)
      × (first_byte fin op % 16 ≡ op)
first_byte_lem true op h = let e = fin_bits op h in (ground arith, ground arith, ground arith)
first_byte_lem false op h = let e = more_bits op h in (ground arith, ground arith, ground arith)

abbrev pub second_byte : Bool → ℕ → ℕ
second_byte mask s = if mask then bit_or s 128 else s

mask_bit : (s : ℕ) → s < 128 → (leb 128 (bit_or s 128) && (bit_or s 128 % 128 == s)) ≡ true
mask_bit s h =
    all_below_sound 128 (λ s. leb 128 (bit_or s 128) && (bit_or s 128 % 128 == s))
      (unfold all_below in refl) s h

second_byte_lem :
    (mask : Bool) (s : ℕ)
    → s < 128
    → (leb 128 (second_byte mask s) ≡ mask) × (second_byte mask s % 128 ≡ s)
second_byte_lem true s h = let e = mask_bit s h in (ground arith, ground arith)
second_byte_lem false s h = (ground arith, omega (arith, h))

short_length-lt : (n : ℕ) → short_length n < 128
unfolding short_length
short_length-lt n = ground arith

-- A frame that may be sent: an opcode of four bits, at most 1 MiB, and a control frame whole and
-- short.
pub record IsFrame (f : Frame) : Type 0 where
  pub opcode_ok : f.opcode < 16
  pub size_ok : length f.payload ≤ max_frame_payload
  pub bytes_ok : IsBytes f.payload
  pub control_ok : (is_control f.opcode ≡ false) ⊎ ((f.fin ≡ true) × (length f.payload ≤ 125))

abbrev pub framed : Frame → Result Error Part → Result Error Read
framed f (err e) = err e
framed f (ok part) = ok (record {
  frame = record { fin = f.fin; opcode = f.opcode; payload = part.bytes };
  rest = part.rest;
})

control_passes :
    (f : Frame)
    → IsFrame f
    → (is_control f.opcode && (ltb 125 (length f.payload) || not f.fin)) ≡ false
control_passes f h = elim h.control_ok [
  | inl e ↦ rw e refl
  | inr (whole, short) ↦ rw whole (ground arith)
]

mask_agrees : (b : Bool) → ((b && not b) ≡ false) × ((not b && b) ≡ false)
mask_agrees true = (refl, refl)
mask_agrees false = (refl, refl)

-- A head whose two bytes are known.
read_frame-bytes :
    (f : Frame) (mask : Bool) (b0 b1 s n : ℕ) (rest buf : Bytes)
    → (leb 128 b0 ≡ f.fin) × (b0 / 16 % 8 ≡ 0) × (b0 % 16 ≡ f.opcode)
    → (leb 128 b1 ≡ mask) × (b1 % 128 ≡ s)
    → read_length s rest ≡ ok (record { size = n; rest = buf })
    → ltb max_frame_payload n ≡ false
    → (is_control f.opcode && (ltb 125 n || not f.fin)) ≡ false
    → read_frame mask (b0 ∷ b1 ∷ rest) ≡ framed f (read_payload mask n buf)
unfolding read_frame
read_frame-bytes f mask b0 b1 s n rest buf (fin, rsv, op) (bit, low) len small passes =
    elim (Result-cases (read_payload mask n buf)) [
      | inl (part, e) ↦
          rw (rsv, bit, (mask_agrees mask).0, (mask_agrees mask).1)
            (rw (low, len) (rw (small, fin, op) (rw (passes, bit, e) (rw (fin, op) refl))))
      | inr (x, e) ↦
          rw (rsv, bit, (mask_agrees mask).0, (mask_agrees mask).1)
            (rw (low, len) (rw (small, fin, op) (rw (passes, bit, e) refl)))
    ]

-- After the head that was written, the payload is read.
pub read_frame-head :
    (f : Frame) (mask : Bool) (buf : Bytes)
    → IsFrame f
    → read_frame mask (
        first_byte f.fin f.opcode
        ∷ second_byte mask (short_length (length f.payload))
        ∷ (long_length (length f.payload) ++ buf))
      ≡ framed f (read_payload mask (length f.payload) buf)
read_frame-head f mask buf h =
    let n = length f.payload in
    read_frame-bytes f mask (first_byte f.fin f.opcode) (second_byte mask (short_length n))
      (short_length n) n (long_length n ++ buf) buf (first_byte_lem f.fin f.opcode h.opcode_ok)
      (second_byte_lem mask (short_length n) (short_length-lt n))
      (read_length-written n buf h.size_ok) (ground (arith, h.size_ok)) (control_passes f h)
