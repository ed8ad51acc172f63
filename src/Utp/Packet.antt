-- ===== src/Utp/Packet.antt =====
-- Packets: `Packet`, `Marshal` and `Unmarshal` of internal/utp/packet.go. `SACK` is the empty list
-- where the source has nil.
use go_torrent.Base.{
  ℕ, zero, suc, ◌+◌, ◌*◌, ◌/◌, ◌%◌, not, ◌&&◌, ◌||◌, [], ◌∷◌, ◌++◌, ltb, ◌==◌, if◌then◌else◌,
  length, get_or, take, drop, Result, ok, err,
}
use go_torrent.Bytes.{Bytes, put_u16, put_u32, u16, u32}

pub record Packet : Type 0 where
  pub kind : ℕ
  pub conn_id : ℕ
  pub timestamp : ℕ
  pub timestamp_diff : ℕ
  pub wnd_size : ℕ
  pub seq_nr : ℕ
  pub ack_nr : ℕ
  pub sack : Bytes
  pub payload : Bytes

abbrev pub header_len : ℕ
header_len = 20

abbrev pub protocol_version : ℕ
protocol_version = 1

abbrev pub ext_selective_ack : ℕ
ext_selective_ack = 1

pub data Error : Type 0 where
  short_header unsupported_version unknown_type malformed_extension malformed_sack : Error

unfoldable pub ext_block : Bytes → Bytes
ext_block [] = []
ext_block (x ∷ xs) = 0 ∷ length (x ∷ xs) % 256 ∷ x ∷ xs

unfoldable pub ext_byte : Bytes → ℕ
ext_byte [] = 0
ext_byte (x ∷ xs) = ext_selective_ack

-- `byte(t)<<4 | 1`: the low four bits of the shifted byte are clear.
unfoldable pub marshal : Packet → Bytes
marshal p =
    (p.kind * 16 % 256 + protocol_version)
    ∷ ext_byte p.sack
    ∷ (put_u16 p.conn_id
        ++ (put_u32 p.timestamp
            ++ (put_u32 p.timestamp_diff
                ++ (put_u32 p.wnd_size
                    ++ (put_u16 p.seq_nr
                        ++ (put_u16 p.ack_nr ++ (ext_block p.sack ++ p.payload)))))))

-- What the loop over the extensions leaves: the mask, if one was there, and the payload.
pub record Walked : Type 0 where
  pub mask : Bytes
  pub rest : Bytes

-- The loop, on what follows the header. Every round takes two bytes, so the length is fuel enough.
unfoldable pub walk : ℕ → ℕ → Bytes → Bytes → Result Error Walked
walk fuel zero mask buf = ok (record { mask = mask; rest = buf })
walk zero (suc ext) mask buf = err malformed_extension
walk (suc fuel) (suc ext) mask [] = err malformed_extension
walk (suc fuel) (suc ext) mask (x ∷ []) = err malformed_extension
walk (suc fuel) (suc ext) mask (next_ext ∷ len ∷ buf) =
    let is_sack = suc ext == ext_selective_ack in
    let more = walk fuel next_ext (if is_sack then take len buf else mask) (drop len buf) in
    if ltb (length buf) len
    then err malformed_extension
    else if is_sack && (ltb len 4 || not (len % 4 == 0))
    then err malformed_sack
    else more

unfoldable pub unmarshal : Bytes → Result Error Packet
unmarshal buf =
    if ltb (length buf) header_len
    then err short_header
    else let type_ver = get_or buf 0 0 in
      if not (type_ver % 16 == protocol_version)
      then err unsupported_version
      else if ltb 4 (type_ver / 16)
      then err unknown_type
      else let rest = drop header_len buf in
        elim (walk (length rest) (get_or buf 1 0) [] rest) [
          | err e ↦ err e
          | ok w ↦ ok (record {
            kind = type_ver / 16;
            conn_id = u16 (drop 2 buf);
            timestamp = u32 (drop 4 buf);
            timestamp_diff = u32 (drop 8 buf);
            wnd_size = u32 (drop 12 buf);
            seq_nr = u16 (drop 16 buf);
            ack_nr = u16 (drop 18 buf);
            sack = w.mask;
            payload = w.rest;
          })
        ]
