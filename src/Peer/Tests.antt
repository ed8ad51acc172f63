-- ===== src/Peer/Tests.antt =====
-- Runs of the peer protocol, and the theorems at concrete inputs.
use go_torrent.Base.{
  ◌≡◌, ◌↔◌, ◌⊎◌, refl, true, false, not, ltb, [], ◌∷◌, ◌++◌, replicate, none, some, ok, arith,
}
use go_torrent.Bytes.{Bytes, u32, put_u32}
use go_torrent.Peer.Message.{
  Message, message, serialize, read_message, read_full, read_body, split_message, RequestPayload,
  parse_piece, serialize_have,
}
use go_torrent.Peer.Message.Framing.{read_message-serialize}
use go_torrent.Peer.HashWire.{Hashes}
use go_torrent.Peer.Handshake.{Handshake}
use go_torrent.Peer.Client.State.{
  Client, TorrentInfo, Callbacks, Env, Extension, deliver, send, new_client,
}
use go_torrent.Peer.Client.{
  handle_message, handle_piece, handle_request, handle_bitfield, has_piece, upgrade_metadata,
  send_initial_state, queue_frame,
}
use go_torrent.Peer.Client.Invariant.{IsTracked, new_client-IsTracked, handle_message-IsTracked}
use go_torrent.Peer.Client.Blocks.{
  InPiece, IsServed, block_frame, handle_piece_delivers, handle_request_serves,
}
use go_torrent.Peer.Client.Metadata.{upgrade-handle_bitfield}
use go_torrent.Peer.Client.Opening.{hear, told, send_initial_state_tells}

-- Three pieces of 20000 bytes but the last.
abbrev known : TorrentInfo
known = record {
  num_pieces = 3;
  piece_length = 20000;
  total_length = 50000;
  piece_length_func = none;
}

abbrev unknown : TorrentInfo
unknown = record { num_pieces = 0; piece_length = 0; total_length = 0; piece_length_func = none }

abbrev them : Handshake
them = record { pstrlen = 19; pstr = []; reserved = replicate 8 0; info_hash = []; peer_id = [] }

conn : Client
conn = new_client known them 100

abbrev calm : Env
calm = record { granted = true; delivered = true; queued = true; now = 107 }

abbrev idle : Callbacks
idle = record {
  has_piece = some (λ i. ltb i 2);
  read_block = λ i b l. some (replicate l 0);
  serve_hashes = none;
  initial_haves = none;
}

abbrev no_extension : Extension
no_extension id body = ([], false)

abbrev choke_frame : Message
choke_frame = record { id = 0; payload = [] }

-- Pieces 0 and 2.
abbrev pieces_frame : Message
pieces_frame = record { id = 5; payload = 160 ∷ [] }

handle_message-IsTracked_example :
    IsTracked (handle_message idle calm no_extension conn pieces_frame).client
unfolding conn
handle_message-IsTracked_example =
    handle_message-IsTracked idle calm no_extension conn pieces_frame (omega arith)
      (new_client-IsTracked known them 100)

send_initial_state_tells_example :
    ((hear idle calm no_extension conn (send_initial_state idle calm conn)).go_on ≡ true)
    × (has_piece (hear idle calm no_extension conn (send_initial_state idle calm conn)).client 1
        ≡ told idle 3 1)
unfolding conn new_client
send_initial_state_tells_example =
    send_initial_state_tells idle idle calm calm no_extension conn conn 1 refl refl refl
      (omega arith) (λ index given. ground (arith, given))

abbrev seeding : Callbacks
seeding = record idle { initial_haves = some (some 2) }

one_have : send_initial_state seeding calm conn ≡ send 4 (0 ∷ 0 ∷ 0 ∷ 2 ∷ []) ∷ []
unfolding send_initial_state queue_frame serialize_have put_u32
one_have = refl

full_queue : send_initial_state seeding (record calm { queued = false }) conn ≡ []
unfolding send_initial_state queue_frame
full_queue = refl

abbrev work : RequestPayload
work = record { index = 2; begin = 0; len = 10000 }

handle_piece_delivers_example :
    ((handle_piece calm conn (replicate 9 0)).effects
      ≡ deliver (record { index = 0; begin = 0; block = 0 ∷ [] }) ∷ [])
    ↔ ((parse_piece (replicate 9 0) ≡ ok (record { index = 0; begin = 0; block = 0 ∷ [] }))
        × InPiece conn 0 0 1
        × (true ≡ true)
        × (true ≡ true))
handle_piece_delivers_example =
    handle_piece_delivers calm conn (replicate 9 0)
      (record { index = 0; begin = 0; block = 0 ∷ [] })

handle_request_serves_example :
    ((handle_request idle calm conn (replicate 12 0)).effects ≡ send 7 [] ∷ []) ↔ (
      (req : RequestPayload) × (block : Bytes) × IsServed idle conn (replicate 12 0) req block
      × (true ≡ true)
      × ([] ≡ block_frame req block))
handle_request_serves_example = handle_request_serves idle calm conn (replicate 12 0) []

magnet : Client
magnet = new_client unknown them 100

upgrade-handle_bitfield_example :
    let early = upgrade_metadata (handle_bitfield magnet (160 ∷ [])).client known in
    let late = handle_bitfield (upgrade_metadata magnet known).client (160 ∷ []) in
    (early.failed ≡ not late.go_on)
    × ((early.failed ≡ true) ⊎ (early.client.bitfield ≡ late.client.bitfield))
unfolding magnet new_client
upgrade-handle_bitfield_example =
    upgrade-handle_bitfield magnet 160 [] known
      (record { unknown = refl; no_bitfield = refl; no_have_all = refl }) (omega arith)
      (omega arith)

read_message-serialize_example :
    read_message (serialize (some choke_frame) ++ (1 ∷ 2 ∷ [])) ≡ message choke_frame (1 ∷ 2 ∷ [])
read_message-serialize_example = read_message-serialize choke_frame (1 ∷ 2 ∷ []) (omega arith)

choke_read : read_message (0 ∷ 0 ∷ 0 ∷ 1 ∷ 0 ∷ 9 ∷ []) ≡ message choke_frame (9 ∷ [])
unfolding read_message read_full read_body split_message u32
choke_read = refl

abbrev digest : Bytes
digest = replicate 32 7

abbrev two_hashes : Hashes
two_hashes = record {
  request = record { pieces_root = digest; base_layer = 0; index = 4; len = 2; proof_layers = 1 };
  hashes = digest ∷ digest ∷ [];
}
