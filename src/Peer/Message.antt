-- ===== src/Peer/Message.antt =====
-- internal/peer/message.go and `ReadMessage` of peer.go: frames and fixed-layout payloads. A
-- fixed-width field is a number or a byte string of that width (`IsWide`); a `Parse` into a
-- receiver returns the new value.
pub mod Framing
pub mod Payloads
use go_torrent.Base.{
  ℕ, ◌+◌, ◌%◌, ◌<◌, Bool, true, false, not, ltb, ◌==◌, if◌then◌else◌, List, [], ◌∷◌, ◌++◌, length,
  take, drop, replicate, Option, none, some, Result, ok, err,
}
use go_torrent.Bytes.{Bytes, put_u32, u32}

pub record Message : Type 0 where
  pub id : ℕ
  pub payload : Bytes

pub data PayloadError : Type 0 where
  bad_length : ℕ → PayloadError

-- `none` is the nil message, a keep-alive. `length` is a uint32, and so is `4+length`.
unfoldable pub serialize : Option Message → Bytes
serialize none = replicate 4 0
serialize (some m) =
    let len = (1 + length m.payload) % 4294967296 in
    take ((4 + len) % 4294967296) (put_u32 len ++ (m.id % 256 ∷ m.payload))

abbrev pub max_message_length : ℕ
max_message_length = 2097152

-- What one call of `ReadMessage` makes of the bytes that have arrived.
pub data Read : Type 0 where
  short : Read
  too_large : ℕ → Read
  keep_alive : Bytes → Read
  message : Message → Bytes → Read

-- `io.ReadFull` of `n` bytes: the bytes and what follows, if there are enough.
unfoldable pub read_full : ℕ → Bytes → Option (Bytes × Bytes)
read_full n xs = if ltb (length xs) n then none else some (take n xs, drop n xs)

unfoldable pub split_message : Bytes → Bytes → Read
split_message [] rest = short
split_message (id ∷ payload) rest = message (record { id = id; payload = payload }) rest

unfoldable pub read_body : ℕ → Bytes → Read
read_body len rest =
    if len == 0
    then keep_alive rest
    else if ltb max_message_length len
    then too_large len
    else elim (read_full len rest) [ none ↦ short | some (body, rest') ↦ split_message body rest' ]

unfoldable pub read_message : Bytes → Read
read_message stream = elim (read_full 4 stream) [
  | none ↦ short
  | some (prefix, rest) ↦ read_body (u32 prefix) rest
]

pub record HavePayload : Type 0 where
  pub piece_index : ℕ

unfoldable pub parse_have : Bytes → Result PayloadError HavePayload
parse_have payload =
    if not (length payload == 4)
    then err (bad_length (length payload))
    else ok (record { piece_index = u32 payload })

unfoldable pub serialize_have : HavePayload → Bytes
serialize_have p = put_u32 p.piece_index

pub record RequestPayload : Type 0 where
  pub index : ℕ
  pub begin : ℕ
  pub len : ℕ

unfoldable pub parse_request : Bytes → Result PayloadError RequestPayload
parse_request payload =
    if not (length payload == 12)
    then err (bad_length (length payload))
    else ok
        (record { index = u32 payload; begin = u32 (drop 4 payload); len = u32 (drop 8 payload) })

unfoldable pub serialize_request : RequestPayload → Bytes
serialize_request p = put_u32 p.index ++ (put_u32 p.begin ++ put_u32 p.len)

pub record PiecePayload : Type 0 where
  pub index : ℕ
  pub begin : ℕ
  pub block : Bytes

unfoldable pub parse_piece : Bytes → Result PayloadError PiecePayload
parse_piece payload =
    if ltb (length payload) 8
    then err (bad_length (length payload))
    else ok (record { index = u32 payload; begin = u32 (drop 4 payload); block = drop 8 payload })

unfoldable pub serialize_piece : PiecePayload → Bytes
serialize_piece p = put_u32 p.index ++ (put_u32 p.begin ++ p.block)
