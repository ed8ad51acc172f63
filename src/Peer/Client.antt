-- ===== src/Peer/Client.antt =====
-- The state of one connection and the handling of one message: `Client`, `handleMessage`,
-- `UpgradeMetadata`, `serveRequest` and `writeLoop` of internal/peer/peer.go, `applyHaveAll` and
-- `sendInitialState` of fast.go and the replies of v2hash.go. What a handler sends or hands to the
-- torrent is a list of effects. The owner's callbacks, the limiters, the clock and the queues are
-- arguments; so are the extension-protocol handlers of extension.go, which use other fields.
pub mod State
pub mod Invariant
pub mod Blocks
pub mod Metadata
pub mod Opening
pub use State.*
use go_torrent.Base.{
  ℕ, ◌%◌, zero, suc, ◌+◌, ◌-◌, ◌*◌, ◌≤◌, Bool, true, false, not, ◌&&◌, ◌||◌, ltb, leb, ◌==◌,
  if◌then◌else◌, List, [], ◌∷◌, ◌++◌, length, Option, none, some, Result, ok, err, ℤ, pos,
}
use go_torrent.Bytes.{Bytes}
use go_torrent.Bitfield
use go_torrent.Bitfield.{Bitfield}
use go_torrent.Peer.Message.{
  Message, RequestPayload, PiecePayload, parse_have, parse_request, parse_piece, serialize_have,
  serialize_request, serialize_piece,
}
use go_torrent.Peer.HashWire.{
  HashRequest, Hashes, parse_hash_request, parse_hashes, serialize_hash_request, serialize_hashes,
}

-- A later connection-closing error keeps the state that was reached, as the handlers do.
abbrev drop_peer : Client → List Effect → Outcome
drop_peer c es = record { client = c; effects = es; go_on = false }

abbrev keep_peer : Client → List Effect → Outcome
keep_peer c es = record { client = c; effects = es; go_on = true }

unfoldable pub has_piece : Client → ℕ → Bool
has_piece c index = Bitfield.has c.bitfield (pos index)

unfoldable pub set_piece : Client → ℕ → Client
set_piece c index = record c { bitfield = Bitfield.set c.bitfield (pos index) }

unfoldable pub handle_have : Client → Bytes → Outcome
handle_have c payload = elim (parse_have payload) [
  | err _ ↦ drop_peer c []
  | ok p ↦
      if c.info.num_pieces == 0
      then keep_peer c (notify (have p.piece_index) ∷ [])
      else if leb c.info.num_pieces p.piece_index
      then drop_peer c []
      else keep_peer (set_piece c p.piece_index) (notify (have p.piece_index) ∷ [])
]

-- `append([]byte(nil), payload...)` is nil where the payload is empty.
abbrev pub cached : Bytes → Option Bytes
cached [] = none
cached (x ∷ xs) = some (x ∷ xs)

unfoldable pub handle_bitfield : Client → Bytes → Outcome
handle_bitfield c payload =
    if c.info.num_pieces == 0
    then keep_peer (record c { pending_bitfield = cached payload }) (notify bitfield_event ∷ [])
    else elim (Bitfield.copy_from c.bitfield payload) [
      | err _ ↦ drop_peer c []
      | ok bf ↦ keep_peer (record c { bitfield = bf }) (notify bitfield_event ∷ [])
    ]

unfoldable pub apply_have_all : Client → Client
apply_have_all c =
    if c.info.num_pieces == 0
    then record c { pending_have_all = true; pending_bitfield = none }
    else record c { bitfield = Bitfield.full c.info.num_pieces }

unfoldable pub validate_block : Client → ℕ → ℕ → ℕ → Bool
validate_block c index begin len =
    if leb c.info.num_pieces index
    then false
    else if ltb (piece_len c.info index) (begin + len)
    then false
    else true

unfoldable pub validate_request : Client → ℕ → ℕ → ℕ → Bool
validate_request c index begin len =
    if len == 0 || ltb max_block_length len then false else validate_block c index begin len

unfoldable pub handle_piece : Env → Client → Bytes → Outcome
handle_piece env c payload = elim (parse_piece payload) [
  | err _ ↦ drop_peer c []
  | ok p ↦
      if not (validate_block c p.index p.begin (length p.block))
      then drop_peer c []
      else if not env.granted
      then drop_peer c []
      else let c' = record c { last_piece_received = env.now } in
        if env.delivered then keep_peer c' (deliver p ∷ []) else drop_peer c' []
]

-- `SendMessage` and `send`: a frame that finds the queue full, or the connection closed, is dropped.
unfoldable pub queue_frame : Env → ℕ → Bytes → List Effect
queue_frame env id payload = if env.queued then send id payload ∷ [] else []

-- Only a block that could be queued counts as uploaded.
unfoldable pub serve_request : Callbacks → Env → Client → RequestPayload → Client × List Effect
serve_request cb env c req =
    if c.am_choking || not (owns cb req.index)
    then (c, if c.supports_fast then queue_frame env 16 (serialize_request req) else [])
    else elim (cb.read_block req.index req.begin req.len) [
      | none ↦ (c, [])
      | some block ↦ (
        if env.queued then record c { uploaded = c.uploaded + length block } else c,
        queue_frame env 7
            (serialize_piece (record { index = req.index; begin = req.begin; block = block })),
      )
    ]

unfoldable pub handle_request : Callbacks → Env → Client → Bytes → Outcome
handle_request cb env c payload = elim (parse_request payload) [
  | err _ ↦ drop_peer c []
  | ok p ↦
      if not (validate_request c p.index p.begin p.len)
      then drop_peer c []
      else let served = serve_request cb env c p in keep_peer served.0 served.1
]

unfoldable pub serve_hash_request : Callbacks → Env → HashRequest → List Effect
serve_hash_request cb env req = elim (hashes_for cb req) [
  | none ↦ queue_frame env 23 (serialize_hash_request req)
  | some hs ↦ queue_frame env 22 (serialize_hashes (record { request = req; hashes = hs }))
]

-- The empty messages of the Fast extension.
unfoldable pub handle_have_all : Client → Bytes → Outcome
handle_have_all c [] = keep_peer (apply_have_all c) (notify bitfield_event ∷ [])
handle_have_all c (x ∷ xs) = drop_peer c []

unfoldable pub handle_have_none : Client → Bytes → Outcome
handle_have_none c [] = keep_peer c (notify bitfield_event ∷ [])
handle_have_none c (x ∷ xs) = drop_peer c []

unfoldable pub handle_suggest : Client → Bytes → Outcome
handle_suggest c payload = elim (parse_have payload) [
  | err _ ↦ drop_peer c []
  | ok _ ↦ keep_peer c []
]

unfoldable pub handle_allowed_fast : Client → Bytes → Outcome
handle_allowed_fast c payload = elim (parse_have payload) [
  | err _ ↦ drop_peer c []
  | ok p ↦ keep_peer (record c { allowed_fast = p.piece_index ∷ c.allowed_fast }) []
]

unfoldable pub handle_reject_request : Client → Bytes → Outcome
handle_reject_request c payload = elim (parse_request payload) [
  | err _ ↦ drop_peer c []
  | ok p ↦ keep_peer c (notify (reject_request p) ∷ [])
]

unfoldable pub handle_hash_request : Callbacks → Env → Client → Bytes → Outcome
handle_hash_request cb env c payload = elim (parse_hash_request payload) [
  | err _ ↦ drop_peer c []
  | ok p ↦ keep_peer c (serve_hash_request cb env p)
]

unfoldable pub handle_hashes : Client → Bytes → Outcome
handle_hashes c payload = elim (parse_hashes payload) [
  | err _ ↦ drop_peer c []
  | ok p ↦ keep_peer c (hash_message p.request (some p.hashes) ∷ [])
]

unfoldable pub handle_hash_reject : Client → Bytes → Outcome
handle_hash_reject c payload = elim (parse_hash_request payload) [
  | err _ ↦ drop_peer c []
  | ok p ↦ keep_peer c (hash_message p none ∷ [])
]

-- `extension` handles the body of one extended message: what it emits, and whether it failed.
unfoldable pub handle_extended : Extension → Client → Bytes → Outcome
handle_extended extension c [] = drop_peer c []
handle_extended extension c (id ∷ body) =
    let r = extension id body in record { client = c; effects = r.0; go_on = not r.1 }

unfoldable pub dispatch : Callbacks → Env → Extension → Client → Kind → Bytes → Outcome
dispatch cb env ext c choke payload =
    keep_peer (record c { peer_choking = true }) (notify choke_changed ∷ [])
dispatch cb env ext c unchoke payload =
    keep_peer (record c { peer_choking = false }) (notify choke_changed ∷ [])
dispatch cb env ext c interested payload =
    keep_peer (record c { peer_interested = true }) (notify interested_changed ∷ [])
dispatch cb env ext c not_interested payload =
    keep_peer (record c { peer_interested = false }) (notify interested_changed ∷ [])
dispatch cb env ext c have_kind payload = handle_have c payload
dispatch cb env ext c bitfield_kind payload = handle_bitfield c payload
dispatch cb env ext c piece payload = handle_piece env c payload
dispatch cb env ext c request payload = handle_request cb env c payload
dispatch cb env ext c have_all payload = handle_have_all c payload
dispatch cb env ext c have_none payload = handle_have_none c payload
dispatch cb env ext c suggest_piece payload = handle_suggest c payload
dispatch cb env ext c allowed_fast_kind payload = handle_allowed_fast c payload
dispatch cb env ext c reject_kind payload = handle_reject_request c payload
dispatch cb env ext c hash_request payload = handle_hash_request cb env c payload
dispatch cb env ext c hashes_kind payload = handle_hashes c payload
dispatch cb env ext c hash_reject payload = handle_hash_reject c payload
dispatch cb env ext c extended payload = handle_extended ext c payload
dispatch cb env ext c unhandled payload = keep_peer c []

unfoldable pub handle_message : Callbacks → Env → Extension → Client → Message → Outcome
handle_message cb env ext c m = dispatch cb env ext c (kind m.id) m.payload

-- The pending state is used up whether or not it fits the metadata.
unfoldable pub upgrade_metadata : Client → TorrentInfo → Upgrade
upgrade_metadata c info =
    if c.pending_have_all
    then record {
      client = record c {
        info = info;
        pending_have_all = false;
        pending_bitfield = none;
        bitfield = Bitfield.full info.num_pieces;
      };
      failed = false;
    }
    else elim c.pending_bitfield [
      | none ↦ record {
        client = record c { info = info; bitfield = Bitfield.new (pos info.num_pieces) };
        failed = false;
      }
      | some raw ↦ elim (Bitfield.from_bytes raw info.num_pieces) [
        | err _ ↦ record {
          client = record c { info = info; pending_bitfield = none };
          failed = true;
        }
        | ok bf ↦ record {
          client = record c { info = info; pending_bitfield = none; bitfield = bf };
          failed = false;
        }
      ]
    ]

-- `for i := 0; i < info.NumPieces; i++ { if c.hasPiece(uint32(i)) { have.Set(i) } }`
unfoldable pub collect_haves : (ℕ → Bool) → ℕ → Bitfield → Bitfield
collect_haves f zero b = b
collect_haves f (suc i) b =
    let b' = collect_haves f i b in if f i then Bitfield.set b' (pos i) else b'

unfoldable pub announce_pieces : Env → Client → (ℕ → Bool) → List Effect
announce_pieces env c f =
    let n = c.info.num_pieces in
    let b = collect_haves f n (Bitfield.new (pos n)) in
    if b.count == n
    then (if c.supports_fast then queue_frame env 14 [] else queue_frame env 5 b.bits)
    else if b.count == 0
    then (if c.supports_fast then queue_frame env 15 [] else [])
    else queue_frame env 5 b.bits

unfoldable pub announce_state : Callbacks → Env → Client → List Effect
announce_state cb env c = elim cb.has_piece [
  | none ↦ if c.supports_fast then queue_frame env 15 [] else []
  | some f ↦
      if c.info.num_pieces == 0
      then (if c.supports_fast then queue_frame env 15 [] else [])
      else announce_pieces env c f
]

-- A piece number is cut to a uint32.
unfoldable pub send_initial_state : Callbacks → Env → Client → List Effect
send_initial_state cb env c = elim cb.initial_haves [
  | some (some index) ↦
      queue_frame env 4 (serialize_have (record { piece_index = index % 4294967296 }))
  | _ ↦ announce_state cb env c
]

-- One piece of work from the queue: the request that goes out, if any.
unfoldable pub assign_work : Env → Client → RequestPayload → List Effect
assign_work env c work =
    if c.peer_choking && not (is_allowed_fast c work.index)
    then []
    else if not (has_piece c work.index)
    then []
    else queue_frame env 6 (serialize_request work)
