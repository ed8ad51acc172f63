-- ===== src/Peer/Client/State.antt =====
-- The data of a connection: its state, its surroundings and what it emits.
use go_torrent.Base.{
  ℕ, ℤ, ◌-◌, ◌*◌, Bool, true, false, ◌||◌, ◌==◌, if◌then◌else◌, List, [], ◌∷◌, Option, none, some,
}
use go_torrent.Bytes.{Bytes}
use go_torrent.Bitfield.{Bitfield}
use go_torrent.Bitfield
use go_torrent.Peer.Message.{RequestPayload, PiecePayload}
use go_torrent.Peer.Handshake.{Handshake, supports_fast as handshake_fast}
use go_torrent.Peer.HashWire.{HashRequest}

-- `NumPieces` is 0 until the metadata is known. Lengths are not negative.
pub record TorrentInfo : Type 0 where
  pub num_pieces : ℕ
  pub piece_length : ℕ
  pub total_length : ℕ
  pub piece_length_func : Option (ℕ → ℕ)

-- A total shorter than the full pieces leaves 0 for the last one, as `-` does.
unfoldable pub piece_len : TorrentInfo → ℕ → ℕ
piece_len t index = elim t.piece_length_func [
  | some f ↦ f index
  | none ↦
      if t.num_pieces == 0
      then 0
      else if index == t.num_pieces - 1
      then t.total_length - (t.num_pieces - 1) * t.piece_length
      else t.piece_length
]

abbrev pub max_block_length : ℕ
max_block_length = 16384

pub record Client : Type 0 where
  pub info : TorrentInfo
  pub am_choking : Bool
  pub am_interested : Bool
  pub peer_choking : Bool
  pub peer_interested : Bool
  pub bitfield : Bitfield
  pub pending_bitfield : Option Bytes
  pub pending_have_all : Bool
  pub allowed_fast : List ℕ
  pub last_piece_received : ℕ
  pub uploaded : ℕ
  pub supports_fast : Bool

-- `newClient`, at the time `now`.
unfoldable pub new_client : TorrentInfo → Handshake → ℕ → Client
new_client info hs now = record {
  info = info;
  am_choking = true;
  am_interested = false;
  peer_choking = true;
  peer_interested = false;
  bitfield = Bitfield.new (ℤ.pos info.num_pieces);
  pending_bitfield = none;
  pending_have_all = false;
  allowed_fast = [];
  last_piece_received = now;
  uploaded = 0;
  supports_fast = handshake_fast hs;
}

-- The keys of the map of granted pieces.
unfoldable pub contains : List ℕ → ℕ → Bool
contains [] index = false
contains (x ∷ xs) index = x == index || contains xs index

unfoldable pub is_allowed_fast : Client → ℕ → Bool
is_allowed_fast c index = contains c.allowed_fast index

-- The owner's callbacks; `none` is a nil callback, an error or a refusal.
pub record Callbacks : Type 0 where
  pub has_piece : Option (ℕ → Bool)
  pub read_block : ℕ → ℕ → ℕ → Option Bytes
  pub serve_hashes : Option (HashRequest → Option (List Bytes))
  pub initial_haves : Option (Option ℕ)

-- `c.hasPiece != nil && c.hasPiece(index)`
unfoldable pub owns : Callbacks → ℕ → Bool
owns cb index = elim cb.has_piece [ none ↦ false | some f ↦ f index ]

unfoldable pub hashes_for : Callbacks → HashRequest → Option (List Bytes)
hashes_for cb req = elim cb.serve_hashes [ none ↦ none | some f ↦ f req ]

-- What the surroundings decide while a message is handled: whether the limiters granted the
-- bytes, whether the owner took a block before the connection closed, whether a frame could be
-- queued, and the time.
pub record Env : Type 0 where
  pub granted : Bool
  pub delivered : Bool
  pub queued : Bool
  pub now : ℕ

pub data Event : Type 0 where
  bitfield_event choke_changed interested_changed : Event
  have : ℕ → Event
  reject_request : RequestPayload → Event
  other_event : ℕ → Event

-- `send id payload` is a frame that went into the send queue.
pub data Effect : Type 0 where
  notify : Event → Effect
  deliver : PiecePayload → Effect
  send : ℕ → Bytes → Effect
  hash_message : HashRequest → Option (List Bytes) → Effect

pub record Outcome : Type 0 where
  pub client : Client
  pub effects : List Effect
  pub go_on : Bool

pub record Upgrade : Type 0 where
  pub client : Client
  pub failed : Bool

-- The handlers of extended messages: what they emit, and whether they failed.
abbrev pub Extension : Type 0
Extension = ℕ → Bytes → List Effect × Bool

-- The cases of the switch on `msg.ID`; `unhandled` is every other id.
pub data Kind : Type 0 where
  choke unchoke interested not_interested have_kind bitfield_kind piece request : Kind
  have_all have_none suggest_piece allowed_fast_kind reject_kind : Kind
  hash_request hashes_kind hash_reject extended unhandled : Kind

unfoldable pub kind : ℕ → Kind
kind id =
    if id == 0
    then choke
    else if id == 1
    then unchoke
    else if id == 2
    then interested
    else if id == 3
    then not_interested
    else if id == 4
    then have_kind
    else if id == 5
    then bitfield_kind
    else if id == 6
    then request
    else if id == 7
    then piece
    else if id == 13
    then suggest_piece
    else if id == 14
    then have_all
    else if id == 15
    then have_none
    else if id == 16
    then reject_kind
    else if id == 17
    then allowed_fast_kind
    else if id == 20
    then extended
    else if id == 21
    then hash_request
    else if id == 22
    then hashes_kind
    else if id == 23
    then hash_reject
    else unhandled
