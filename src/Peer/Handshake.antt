-- ===== src/Peer/Handshake.antt =====
-- The handshake of internal/peer/peer.go, with the reserved bits of fast.go, extension.go and
-- v2wire.go. Fixed-size Go arrays are byte strings of that length.
use go_torrent.Base.{
  ℕ, ◌≡◌, refl, sym, ap, ◌∙◌, Bool, true, false, not, ◌==◌, if◌then◌else◌, [], ◌∷◌, ◌++◌, length,
  length-append, take, drop, set, get_or, replicate, bit_and, bit_or, take_all, take-append_length,
  drop-append_length, drop-drop, none, some, Result, ok, err, arith,
}
use go_torrent.Bytes.{Bytes}
use go_torrent.Peer.Message.{read_full}
use go_torrent.Peer.Message.Framing.{read_full-append}

pub record Handshake : Type 0 where
  pub pstrlen : ℕ
  pub pstr : Bytes
  pub reserved : Bytes
  pub info_hash : Bytes
  pub peer_id : Bytes

pub data HandshakeError : Type 0 where
  short_read : HandshakeError
  bad_pstrlen : ℕ → HandshakeError
  bad_pstr : Bytes → HandshakeError

-- "BitTorrent protocol"
abbrev pub protocol_string : Bytes
protocol_string =
    66 ∷ 105 ∷ 116 ∷ 84 ∷ 111 ∷ 114 ∷ 114 ∷ 101 ∷ 110 ∷ 116 ∷ 32 ∷ 112 ∷ 114 ∷ 111 ∷ 116 ∷ 111 ∷ 99
    ∷ 111 ∷ 108 ∷ []

-- `hs.Reserved[at] |= bit`
abbrev pub or_reserved : ℕ → ℕ → Bytes → Bytes
or_reserved at bit reserved = set reserved at (bit_or (get_or reserved at 0) bit)

unfoldable pub new_handshake : Bytes → Bytes → Handshake
new_handshake info_hash peer_id = record {
  pstrlen = 19;
  pstr = protocol_string;
  reserved = or_reserved 7 0x10 (or_reserved 7 0x04 (or_reserved 5 0x10 (replicate 8 0)));
  info_hash = info_hash;
  peer_id = peer_id;
}

unfoldable pub supports_extensions : Handshake → Bool
supports_extensions h = not (bit_and (get_or h.reserved 5 0) 0x10 == 0)

unfoldable pub supports_fast : Handshake → Bool
supports_fast h = not (bit_and (get_or h.reserved 7 0) 0x04 == 0)

unfoldable pub supports_v2_hashes : Handshake → Bool
supports_v2_hashes h = not (bit_and (get_or h.reserved 7 0) 0x10 == 0)

unfoldable pub serialize_handshake : Handshake → Bytes
serialize_handshake h = h.pstrlen ∷ (h.pstr ++ (h.reserved ++ (h.info_hash ++ h.peer_id)))

unfoldable pub same_bytes : Bytes → Bytes → Bool
same_bytes [] [] = true
same_bytes (x ∷ xs) (y ∷ ys) = if x == y then same_bytes xs ys else false
same_bytes _ _ = false

-- The fields of the 68 bytes.
unfoldable pub handshake_fields : Bytes → Handshake
handshake_fields b = record {
  pstrlen = get_or b 0 0;
  pstr = take 19 (drop 1 b);
  reserved = take 8 (drop 20 b);
  info_hash = take 20 (drop 28 b);
  peer_id = take 20 (drop 48 b);
}

-- The handshake at the front of the stream and what follows it.
unfoldable pub read_handshake : Bytes → Result HandshakeError (Handshake × Bytes)
read_handshake stream = elim (read_full 68 stream) [
  | none ↦ err short_read
  | some (b, rest) ↦
      let h = handshake_fields b in
      if not (h.pstrlen == 19)
      then err (bad_pstrlen h.pstrlen)
      else if not (same_bytes h.pstr protocol_string)
      then err (bad_pstr h.pstr)
      else ok (h, rest)
]

pub record IsHandshake (h : Handshake) : Type 0 where
  pub tag : h.pstrlen ≡ 19
  pub name : h.pstr ≡ protocol_string
  pub reserved_wide : length h.reserved ≡ 8
  pub hash_wide : length h.info_hash ≡ 20
  pub id_wide : length h.peer_id ≡ 20

protocol_string_same : same_bytes protocol_string protocol_string ≡ true
unfolding same_bytes
protocol_string_same = refl

module _ (h : Handshake) (w : IsHandshake h) where
  open w use {tag, name, reserved_wide, hash_wide, id_wide}

  serialize-length : length (serialize_handshake h) ≡ 68
  unfolding serialize_handshake
  serialize-length = omega (
    arith,
    ap length name,
    length-append h.pstr (h.reserved ++ (h.info_hash ++ h.peer_id)),
    length-append h.reserved (h.info_hash ++ h.peer_id),
    length-append h.info_hash h.peer_id,
    reserved_wide,
    hash_wide,
    id_wide,
  )

  after_name : drop 20 (serialize_handshake h) ≡ h.reserved ++ (h.info_hash ++ h.peer_id)
  unfolding serialize_handshake
  after_name = rw name

  after_reserved : drop 28 (serialize_handshake h) ≡ h.info_hash ++ h.peer_id
  after_reserved =
      sym (drop-drop 20 8 (serialize_handshake h))
      ∙ ap (drop 8) after_name
      ∙ ap (λ k. drop k (h.reserved ++ (h.info_hash ++ h.peer_id))) (sym reserved_wide)
      ∙ drop-append_length h.reserved (h.info_hash ++ h.peer_id)

  after_hash : drop 48 (serialize_handshake h) ≡ h.peer_id
  after_hash =
      sym (drop-drop 28 20 (serialize_handshake h))
      ∙ ap (drop 20) after_reserved
      ∙ ap (λ k. drop k (h.info_hash ++ h.peer_id)) (sym hash_wide)
      ∙ drop-append_length h.info_hash h.peer_id

  first : get_or (serialize_handshake h) 0 0 ≡ h.pstrlen
  unfolding serialize_handshake
  first = refl

  whole_name : take 19 (drop 1 (serialize_handshake h)) ≡ h.pstr
  unfolding serialize_handshake
  whole_name = rw name

  fields-serialize : handshake_fields (serialize_handshake h) ≡ h
  unfolding handshake_fields
  fields-serialize = ground (
    arith,
    first,
    whole_name,
    ap (take 8) after_name
        ∙ ap (λ k. take k (h.reserved ++ (h.info_hash ++ h.peer_id))) (sym reserved_wide)
        ∙ take-append_length h.reserved (h.info_hash ++ h.peer_id),
    ap (take 20) after_reserved
        ∙ ap (λ k. take k (h.info_hash ++ h.peer_id)) (sym hash_wide)
        ∙ take-append_length h.info_hash h.peer_id,
    ap (take 20) after_hash ∙ take_all 20 h.peer_id (omega (arith, id_wide)),
  )

  -- A handshake that one side writes is read by the other, which leaves what follows it.
  pub read_handshake-serialize :
      (rest : Bytes) → read_handshake (serialize_handshake h ++ rest) ≡ ok (h, rest)
  unfolding read_handshake
  read_handshake-serialize rest =
      rw (read_full-append 68 (serialize_handshake h) rest serialize-length, read_handshake)
        (ground (arith, fields-serialize, tag, name, protocol_string_same))

-- For an info hash and a peer id of 20 bytes, the handshake that this client writes is read back
-- with both, and with the extension protocol, the Fast extension and the hash messages announced.
pub read_handshake-new :
    (info_hash peer_id rest : Bytes)
    → length info_hash ≡ 20
    → length peer_id ≡ 20
    → (h : Handshake) × (read_handshake
          (serialize_handshake (new_handshake info_hash peer_id) ++ rest)
        ≡ ok (h, rest))
      × (h.info_hash ≡ info_hash)
      × (h.peer_id ≡ peer_id)
      × (supports_extensions h ≡ true)
      × (supports_fast h ≡ true)
      × (supports_v2_hashes h ≡ true)
unfolding new_handshake supports_extensions supports_fast supports_v2_hashes
read_handshake-new info_hash peer_id rest hw iw = (
  new_handshake info_hash peer_id,
  read_handshake-serialize (new_handshake info_hash peer_id)
      (record { tag = refl; name = refl; reserved_wide = refl; hash_wide = hw; id_wide = iw }) rest,
  refl,
  refl,
  refl,
  refl,
  refl,
)
