-- ===== src/Ws/Frame.antt =====
-- `readFrame` and `writeFrame` of internal/ws/frame.go on lists of bytes; the random mask key is an
-- argument. An error of the model is the cause alone.
use go_torrent.Base.{
  ℕ, suc, ◌+◌, ◌*◌, ◌/◌, ◌%◌, bit_or, bit_xor, Bool, not, ◌&&◌, ◌||◌, [], ◌∷◌, ◌++◌, ltb, leb, ◌==◌,
  if◌then◌else◌, length, get_or, take, drop, Result, ok, err,
}
use go_torrent.Bytes.{Bytes, put_u16, put_u32, u16, u32}

pub data Error : Type 0 where
  short_read reserved_bits not_masked masked too_long bad_control : Error

pub record Frame : Type 0 where
  pub fin : Bool
  pub opcode : ℕ
  pub payload : Bytes

abbrev pub max_frame_payload : ℕ
max_frame_payload = 1048576

abbrev pub op_close : ℕ
op_close = 8

unfoldable pub is_control : ℕ → Bool
is_control op = leb op_close op

pub record Part : Type 0 where
  pub bytes : Bytes
  pub rest : Bytes

-- `io.ReadFull` for `n` bytes.
unfoldable pub read_full : ℕ → Bytes → Result Error Part
read_full n buf =
    if ltb (length buf) n
    then err short_read
    else ok (record { bytes = take n buf; rest = drop n buf })

pub record Size : Type 0 where
  pub size : ℕ
  pub rest : Bytes

-- The length, from the seven bits of the second byte or from what follows it.
unfoldable pub read_length : ℕ → Bytes → Result Error Size
read_length short buf =
    if short == 126
    then elim (read_full 2 buf) [
      | err e ↦ err e
      | ok ext ↦ ok (record { size = u16 ext.bytes; rest = ext.rest })
    ]
    else if short == 127
    then elim (read_full 8 buf) [
      | err e ↦ err e
      | ok ext ↦
          ok
            (record { size = u32 ext.bytes * 4294967296 + u32 (drop 4 ext.bytes); rest = ext.rest })
    ]
    else ok (record { size = short; rest = buf })

-- Each byte with the byte of the key in its turn, from the `i`-th on.
unfoldable pub apply_mask : Bytes → ℕ → Bytes → Bytes
apply_mask key i [] = []
apply_mask key i (x ∷ xs) = bit_xor x (get_or key (i % 4) 0) ∷ apply_mask key (suc i) xs

pub record Read : Type 0 where
  pub frame : Frame
  pub rest : Bytes

-- The payload, after the mask key if there is one.
unfoldable pub read_payload : Bool → ℕ → Bytes → Result Error Part
read_payload is_masked size buf =
    if is_masked
    then elim (read_full 4 buf) [
      | err e ↦ err e
      | ok key ↦ elim (read_full size key.rest) [
        | err e ↦ err e
        | ok part ↦ ok (record { bytes = apply_mask key.bytes 0 part.bytes; rest = part.rest })
      ]
    ]
    else read_full size buf

unfoldable pub read_frame : Bool → Bytes → Result Error Read
read_frame require_mask [] = err short_read
read_frame require_mask (b0 ∷ []) = err short_read
read_frame require_mask (b0 ∷ b1 ∷ buf) =
    let fin = leb 128 b0 in
    let rsv = b0 / 16 % 8 in
    let opcode = b0 % 16 in
    let is_masked = leb 128 b1 in
    if not (rsv == 0)
    then err reserved_bits
    else if require_mask && not is_masked
    then err not_masked
    else if not require_mask && is_masked
    then err masked
    else elim (read_length (b1 % 128) buf) [
      | err e ↦ err e
      | ok l ↦
          if ltb max_frame_payload l.size
          then err too_long
          else if is_control opcode && (ltb 125 l.size || not fin)
          then err bad_control
          else elim (read_payload is_masked l.size l.rest) [
            | err e ↦ err e
            | ok part ↦ ok (record {
              frame = record { fin = fin; opcode = opcode; payload = part.bytes };
              rest = part.rest;
            })
          ]
    ]

-- The second byte, but for the bit of the mask.
unfoldable pub short_length : ℕ → ℕ
short_length n = if ltb n 126 then n else if leb n 65535 then 126 else 127

unfoldable pub long_length : ℕ → Bytes
long_length n =
    if ltb n 126
    then []
    else if leb n 65535
    then put_u16 n
    else put_u32 (n / 4294967296) ++ put_u32 n

-- The head of the frame, then the key and the payload with it, or the payload as it is.
unfoldable pub write_frame : Bool → ℕ → Bytes → Bool → Bytes → Result Error Bytes
write_frame fin opcode payload mask key =
    let n = length payload in
    let head0 = if fin then bit_or 128 opcode else bit_or 0 opcode in
    let head1 = if mask then bit_or (short_length n) 128 else short_length n in
    let head = head0 ∷ head1 ∷ long_length n in
    if ltb max_frame_payload n
    then err too_long
    else if n == 0
    then ok head
    else if not mask
    then ok (head ++ payload)
    else ok (head ++ (key ++ apply_mask key 0 payload))
