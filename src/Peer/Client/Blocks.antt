-- ===== src/Peer/Client/Blocks.antt =====
-- Blocks in and out: what is handed to the torrent, and what is served.
use go_torrent.Base.{
  ℕ, ◌+◌, ◌≤◌, ◌<◌, ◌≡◌, ◌↔◌, ◌⊎◌, true, false, inl, inr, Result-cases, Option-cases, [], ◌∷◌,
  length, some, ok, arith,
}
use go_torrent.Bytes.{Bytes}
use go_torrent.Peer.Message.{
  RequestPayload, PiecePayload, parse_request, parse_piece, serialize_piece, serialize_request,
}
use go_torrent.Peer.Client.State.{
  Client, Callbacks, Env, deliver, send, owns, piece_len, max_block_length, is_allowed_fast,
}
use go_torrent.Peer.Client.{
  handle_piece, handle_request, serve_request, queue_frame, validate_block, validate_request,
  assign_work, has_piece,
}

-- The `len` bytes from `begin` on lie inside piece `index`.
abbrev pub InPiece : Client → ℕ → ℕ → ℕ → Type 0
InPiece c index begin len = (index < c.info.num_pieces) × (begin + len ≤ piece_len c.info index)

validate_block_iff :
    (c : Client) (index begin len : ℕ)
    → (validate_block c index begin len ≡ true) ↔ InPiece c index begin len
unfolding validate_block
validate_block_iff c index begin len = ((λ e. ground arith), (λ h. ground arith))

validate_request_iff :
    (c : Client) (index begin len : ℕ)
    → (validate_request c index begin len ≡ true)
      ↔ ((0 < len) × (len ≤ max_block_length) × InPiece c index begin len)
unfolding validate_request validate_block
validate_request_iff c index begin len = ((λ e. ground arith), (λ h. ground arith))

-- A block reaches the torrent exactly when the message is well formed, the block lies inside its
-- piece, the limiters granted it and the owner took it.
pub handle_piece_delivers :
    (env : Env) (c : Client) (payload : Bytes) (p : PiecePayload)
    → ((handle_piece env c payload).effects ≡ deliver p ∷ []) ↔ (
        (parse_piece payload ≡ ok p)
        × InPiece c p.index p.begin (length p.block)
        × (env.granted ≡ true)
        × (env.delivered ≡ true))
unfolding handle_piece validate_block
handle_piece_delivers env c payload p = ((λ e. ground arith), (λ h. ground arith))

-- The request `req` is a good one, the connection may serve it, and `block` is what was read.
abbrev pub IsServed : Callbacks → Client → Bytes → RequestPayload → Bytes → Type 0
IsServed cb c payload req block =
    (parse_request payload ≡ ok req)
    × (0 < req.len)
    × (req.len ≤ max_block_length)
    × InPiece c req.index req.begin req.len
    × (c.am_choking ≡ false)
    × (owns cb req.index ≡ true)
    × (cb.read_block req.index req.begin req.len ≡ some block)

abbrev pub block_frame : RequestPayload → Bytes → Bytes
block_frame req block =
    serialize_piece (record { index = req.index; begin = req.begin; block = block })

-- A request is answered by a block exactly when it is well formed, asks for 1 to 16384 bytes inside
-- a piece that the owner has, the peer is not choked, the block could be read, and its frame could
-- be queued.
pub handle_request_serves :
    (cb : Callbacks) (env : Env) (c : Client) (payload frame : Bytes)
    → ((handle_request cb env c payload).effects ≡ send 7 frame ∷ []) ↔ (
        (req : RequestPayload) × (block : Bytes) × IsServed cb c payload req block
        × (env.queued ≡ true)
        × (frame ≡ block_frame req block))
unfolding handle_request serve_request queue_frame validate_request validate_block
handle_request_serves cb env c payload frame = (
  (λ e. elim (Result-cases (parse_request payload)) [
    | inr (x, bad) ↦ absurd (ground arith)
    | inl (req, good) ↦ elim (Option-cases (cb.read_block req.index req.begin req.len)) [
      | inl fails ↦ absurd (ground arith)
      | inr (block, found) ↦ (req, block, ground arith, ground arith, ground arith)
    ]
  ]),
  (λ (req, block, h, q, e). ground arith),
)

-- A request goes out exactly when the peer has the piece, the frame could be queued, and the peer
-- either does not choke us or has granted the piece.
pub assign_work_sends :
    (env : Env) (c : Client) (work : RequestPayload)
    → (assign_work env c work ≡ send 6 (serialize_request work) ∷ []) ↔ (
        (has_piece c work.index ≡ true)
        × (env.queued ≡ true)
        × ((c.peer_choking ≡ false) ⊎ (is_allowed_fast c work.index ≡ true)))
unfolding assign_work queue_frame
assign_work_sends env c work = ((λ e. ground arith), (λ h. ground arith))
