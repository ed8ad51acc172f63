-- ===== src/Peer/Message/Payloads.antt =====
-- The fixed-layout payloads: `Parse` accepts exactly what `Serialize` writes.
use go_torrent.Base.{ℕ, ◌<◌, ◌≡◌, ◌↔◌, ◌++◌, length-append, length-drop, drop, All-drop, ok, arith}
use go_torrent.Bytes.{
  Bytes, IsBytes, put_u32, u32-put_u32, two_u32, one_u32, u32-put_u32_alone, length-put_u32,
  drop-put_u32, drop_more-put_u32, u32-lt,
}
use go_torrent.Peer.Message.{
  HavePayload, RequestPayload, PiecePayload, parse_have, serialize_have, parse_request,
  serialize_request, parse_piece, serialize_piece,
}

abbrev pub IsU32 : ℕ → Type 0
IsU32 v = v < 4294967296

abbrev pub IsRequest : RequestPayload → Type 0
IsRequest p = IsU32 p.index × IsU32 p.begin × IsU32 p.len

-- `Have`, `SuggestPiece` and `AllowedFast`: `Parse` accepts exactly what `Serialize` writes.
pub parse_have_iff :
    (payload : Bytes) (p : HavePayload)
    → IsBytes payload
    → (parse_have payload ≡ ok p) ↔ (IsU32 p.piece_index × (payload ≡ serialize_have p))
unfolding parse_have serialize_have
parse_have_iff payload p b = (
  (λ e. (ground (arith, u32-lt payload b), ground (arith, one_u32 payload b))),
  (λ h. rw h.1 (ground (arith, length-put_u32 p.piece_index, u32-put_u32_alone p.piece_index h.0))),
)

-- `Piece`: on bytes, `Parse` accepts exactly what `Serialize` writes for 32-bit fields, the block
-- being whatever follows.
pub parse_piece_iff :
    (payload : Bytes) (p : PiecePayload)
    → IsBytes payload
    → (parse_piece payload ≡ ok p) ↔ (IsU32 p.index × IsU32 p.begin × (payload ≡ serialize_piece p))
unfolding parse_piece serialize_piece
parse_piece_iff payload p b = (
  (λ e. (
    ground (arith, u32-lt payload b),
    ground (arith, u32-lt (drop 4 payload) (All-drop _ 4 payload b)),
    ground (arith, two_u32 payload b),
  )),
  (λ h. rw h.2 (
      ground (
        arith,
        u32-put_u32 p.index (put_u32 p.begin ++ p.block) h.0,
        u32-put_u32 p.begin p.block h.1,
        drop-put_u32 p.index (put_u32 p.begin ++ p.block),
        drop_more-put_u32 4 p.index (put_u32 p.begin ++ p.block),
        drop-put_u32 p.begin p.block,
        length-append (put_u32 p.index) (put_u32 p.begin ++ p.block),
        length-append (put_u32 p.begin) p.block,
        length-put_u32 p.index,
        length-put_u32 p.begin,
      ))),
)

-- `Request`, `Cancel` and `RejectRequest`: on bytes, `Parse` accepts exactly what `Serialize`
-- writes for 32-bit fields.
pub parse_request_iff :
    (payload : Bytes) (p : RequestPayload)
    → IsBytes payload
    → (parse_request payload ≡ ok p)
      ↔ (IsU32 p.index × IsU32 p.begin × IsU32 p.len × (payload ≡ serialize_request p))
unfolding parse_request serialize_request
parse_request_iff payload p b = (
  (λ e. (
    ground (arith, u32-lt payload b),
    ground (arith, u32-lt (drop 4 payload) (All-drop _ 4 payload b)),
    ground (arith, u32-lt (drop 8 payload) (All-drop _ 8 payload b)),
    ground (
      arith,
      two_u32 payload b,
      one_u32 (drop 8 payload) (All-drop _ 8 payload b),
      length-drop 8 payload,
    ),
  )),
  (λ h. rw h.3 (
      ground (
        arith,
        u32-put_u32 p.index (put_u32 p.begin ++ put_u32 p.len) h.0,
        u32-put_u32 p.begin (put_u32 p.len) h.1,
        u32-put_u32_alone p.len h.2,
        drop-put_u32 p.index (put_u32 p.begin ++ put_u32 p.len),
        drop_more-put_u32 4 p.index (put_u32 p.begin ++ put_u32 p.len),
        drop-put_u32 p.begin (put_u32 p.len),
        length-append (put_u32 p.index) (put_u32 p.begin ++ put_u32 p.len),
        length-append (put_u32 p.begin) (put_u32 p.len),
        length-put_u32 p.index,
        length-put_u32 p.begin,
        length-put_u32 p.len,
      ))),
)
