-- ===== src/Peer/HashWire.antt =====
-- internal/peer/v2wire.go: the payloads of `hash request`, `hash reject` and `hashes`. A digest is
-- a byte string of 32.
use go_torrent.Base.{
  ℕ, zero, suc, ◌+◌, ◌*◌, ◌/◌, ◌%◌, ◌<◌, ◌≡◌, refl, sym, ap, ap₂, ◌∙◌, not, ltb, ◌==◌,
  if◌then◌else◌, List, [], ◌∷◌, ◌++◌, append-nil, append_assoc, length, take, drop, All,
  length-append, drop-drop, take-append_length, drop-append_length, Result, ok, err, arith,
}
use go_torrent.Bytes.{Bytes, put_u32, u32, u32-put_u32, length-put_u32, drop-put_u32}

pub record HashRequest : Type 0 where
  pub pieces_root : Bytes
  pub base_layer : ℕ
  pub index : ℕ
  pub len : ℕ
  pub proof_layers : ℕ

pub record Hashes : Type 0 where
  pub request : HashRequest
  pub hashes : List Bytes

pub data HashError : Type 0 where
  bad_length ragged_hashes : ℕ → HashError

abbrev pub hash_payload_fixed_len : ℕ
hash_payload_fixed_len = 48

-- The 48 fixed bytes, which both payloads begin with.
unfoldable pub fixed_fields : Bytes → HashRequest
fixed_fields payload = record {
  pieces_root = take 32 payload;
  base_layer = u32 (drop 32 payload);
  index = u32 (drop 36 payload);
  len = u32 (drop 40 payload);
  proof_layers = u32 (drop 44 payload);
}

unfoldable pub parse_hash_request : Bytes → Result HashError HashRequest
parse_hash_request payload =
    if not (length payload == hash_payload_fixed_len)
    then err (bad_length (length payload))
    else ok (fixed_fields payload)

unfoldable pub serialize_hash_request : HashRequest → Bytes
serialize_hash_request p =
    p.pieces_root
    ++ (put_u32 p.base_layer ++ (put_u32 p.index ++ (put_u32 p.len ++ put_u32 p.proof_layers)))

-- `p.Hashes[i] = rest[i*32:(i+1)*32]` for each of the `k` hashes.
unfoldable pub split_hashes : ℕ → Bytes → List Bytes
split_hashes zero rest = []
split_hashes (suc k) rest = take 32 rest ∷ split_hashes k (drop 32 rest)

unfoldable pub parse_hashes : Bytes → Result HashError Hashes
parse_hashes payload =
    if ltb (length payload) hash_payload_fixed_len
    then err (bad_length (length payload))
    else let rest = drop hash_payload_fixed_len payload in
      if not (length rest % 32 == 0)
      then err (ragged_hashes (length rest))
      else ok
          (record { request = fixed_fields payload; hashes = split_hashes (length rest / 32) rest })

unfoldable pub join_hashes : List Bytes → Bytes
join_hashes [] = []
join_hashes (h ∷ hs) = h ++ join_hashes hs

unfoldable pub serialize_hashes : Hashes → Bytes
serialize_hashes p = serialize_hash_request p.request ++ join_hashes p.hashes

abbrev IsU32 : ℕ → Type 0
IsU32 v = v < 4294967296

-- The widths that the Go types fix.
pub record IsRequest (p : HashRequest) : Type 0 where
  pub root : length p.pieces_root ≡ 32
  pub layer_fits : IsU32 p.base_layer
  pub index_fits : IsU32 p.index
  pub len_fits : IsU32 p.len
  pub proof_fits : IsU32 p.proof_layers

abbrev pub AreDigests : List Bytes → Type 0
AreDigests hs = All (λ h. length h ≡ 32) hs

serialize_length : (p : HashRequest) → IsRequest p → length (serialize_hash_request p) ≡ 48
unfolding serialize_hash_request
serialize_length p w = omega (arith, w.root, length-append {0}, length-put_u32)

split-join : (hs : List Bytes) → AreDigests hs → split_hashes (length hs) (join_hashes hs) ≡ hs
unfolding split_hashes join_hashes
split-join [] h = refl
split-join (x ∷ hs) h =
    ap₂ ◌∷◌
      (ap (λ k. take k (x ++ join_hashes hs)) (sym h.0) ∙ take-append_length x (join_hashes hs))
      (ap (split_hashes (length hs))
          (ap (λ k. drop k (x ++ join_hashes hs)) (sym h.0) ∙ drop-append_length x (join_hashes hs))
        ∙ split-join hs h.1)

length-join : (hs : List Bytes) → AreDigests hs → length (join_hashes hs) ≡ length hs * 32
unfolding join_hashes
length-join [] h = refl
length-join (x ∷ hs) h = omega (arith, length-append x (join_hashes hs), h.0, length-join hs h.1)

fixed-serialize :
    (p : HashRequest) (rest : Bytes)
    → IsRequest p
    → fixed_fields (serialize_hash_request p ++ rest) ≡ p
unfolding fixed_fields serialize_hash_request
fixed-serialize p rest w =
    rw (flat, fixed_fields)
      (ground (
        arith,
        ap (λ k. take k whole) (sym w.root) ∙ take-append_length p.pieces_root r0,
        ap u32 f0 ∙ u32-put_u32 p.base_layer r1 w.layer_fits,
        ap u32 f1 ∙ u32-put_u32 p.index r2 w.index_fits,
        ap u32 f2 ∙ u32-put_u32 p.len r3 w.len_fits,
        ap u32 f3 ∙ u32-put_u32 p.proof_layers rest w.proof_fits,
      ))
  where
    r3 : Bytes
    r3 = put_u32 p.proof_layers ++ rest

    r2 : Bytes
    r2 = put_u32 p.len ++ r3

    r1 : Bytes
    r1 = put_u32 p.index ++ r2

    r0 : Bytes
    r0 = put_u32 p.base_layer ++ r1

    whole : Bytes
    whole = p.pieces_root ++ r0

    flat : serialize_hash_request p ++ rest ≡ whole
    flat = simp append_assoc

    f0 : drop 32 whole ≡ r0
    f0 = ap (λ k. drop k whole) (sym w.root) ∙ drop-append_length p.pieces_root r0

    f1 : drop 36 whole ≡ r1
    f1 = sym (drop-drop 32 4 whole) ∙ ap (drop 4) f0 ∙ drop-put_u32 p.base_layer r1

    f2 : drop 40 whole ≡ r2
    f2 = sym (drop-drop 36 4 whole) ∙ ap (drop 4) f1 ∙ drop-put_u32 p.index r2

    f3 : drop 44 whole ≡ r3
    f3 = sym (drop-drop 40 4 whole) ∙ ap (drop 4) f2 ∙ drop-put_u32 p.len r3

-- A `hash request` or `hash reject` is read back as it was written.
pub parse_hash_request-serialize :
    (p : HashRequest) → IsRequest p → parse_hash_request (serialize_hash_request p) ≡ ok p
unfolding parse_hash_request
parse_hash_request-serialize p w =
    ground
      (arith, serialize_length p w, fixed-serialize p [] w, append-nil (serialize_hash_request p))

-- A `hashes` message with a well-formed request and whole digests is read back as it was written.
pub parse_hashes-serialize :
    (p : Hashes)
    → IsRequest p.request
    → AreDigests p.hashes
    → parse_hashes (serialize_hashes p) ≡ ok p
unfolding parse_hashes serialize_hashes
parse_hashes-serialize p w d = ground (
  arith,
  rest_is,
  fixed-serialize p.request (join_hashes p.hashes) w,
  long,
  length-join p.hashes d,
  count,
  split-join p.hashes d,
)
  where
    front : Bytes
    front = serialize_hash_request p.request

    long : length (front ++ join_hashes p.hashes) ≡ 48 + length p.hashes * 32
    long = omega (
      arith,
      length-append front (join_hashes p.hashes),
      serialize_length p.request w,
      length-join p.hashes d,
    )

    rest_is : drop 48 (front ++ join_hashes p.hashes) ≡ join_hashes p.hashes
    rest_is =
        ap (λ k. drop k (front ++ join_hashes p.hashes)) (sym (serialize_length p.request w))
        ∙ drop-append_length front (join_hashes p.hashes)

    count : length p.hashes * 32 / 32 ≡ length p.hashes
    count = omega arith
