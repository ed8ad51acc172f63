-- ===== src/Peer/Client/Invariant.antt =====
-- What every message keeps: the peer's bitfield is well formed and as wide as the torrent.
use go_torrent.Base.{
  ℕ, ◌≡◌, refl, sym, ap, subst, inl, inr, Bool-cases, Result-cases, ◌∙◌, ◌==◌, leb, [], ◌∷◌, pos,
  arith,
}
use go_torrent.Bytes.{Bytes, IsBytes}
use go_torrent.Bitfield
use go_torrent.Bitfield.{Bitfield}
use go_torrent.Bitfield.Invariant.{IsValid, set-IsValid, new-IsValid, full-IsValid}
use go_torrent.Bitfield.Indexed.{set-n, has-full}
use go_torrent.Bitfield.Wire.{from_bytes_iff, copy_from-from_bytes}
use go_torrent.Peer.Message.{Message, parse_have}
use go_torrent.Peer.Handshake.{Handshake}
use go_torrent.Peer.Client.State.{
  Client, TorrentInfo, Callbacks, Env, Extension, Kind, choke, unchoke, interested, not_interested,
  have_kind, bitfield_kind, piece, request, have_all, have_none, suggest_piece, allowed_fast_kind,
  reject_kind, hash_request, hashes_kind, hash_reject, extended, unhandled, kind, new_client,
}
use go_torrent.Peer.Client.{
  handle_message, dispatch, handle_have, handle_bitfield, handle_piece, handle_request,
  serve_request, handle_have_all, handle_have_none, apply_have_all, handle_suggest,
  handle_allowed_fast, handle_reject_request, handle_hash_request, handle_hashes,
  handle_hash_reject, handle_extended, set_piece,
}

-- The pieces that a connection knows of.
pub record IsTracked (c : Client) : Type 0 where
  pub valid : IsValid c.bitfield
  pub width : c.bitfield.n ≡ c.info.num_pieces

-- Only the bitfield and the metadata matter.
IsTracked-alike :
    (c d : Client) → d.bitfield ≡ c.bitfield → d.info ≡ c.info → IsTracked c → IsTracked d
IsTracked-alike c d same_bits same_info t = record {
  valid = subst IsValid (sym same_bits) t.valid;
  width = ap (λ b. b.n) same_bits ∙ t.width ∙ ap (λ i. i.num_pieces) (sym same_info);
}

set_piece-IsTracked : (c : Client) (i : ℕ) → IsTracked c → IsTracked (set_piece c i)
unfolding set_piece
set_piece-IsTracked c i t = record {
  valid = set-IsValid c.bitfield (pos i) t.valid;
  width = set-n c.bitfield (pos i) ∙ t.width;
}

apply_have_all-IsTracked : (c : Client) → IsTracked c → IsTracked (apply_have_all c)
unfolding apply_have_all
apply_have_all-IsTracked c t = elim (Bool-cases (c.info.num_pieces == 0)) [
  | inl e ↦ rw e (IsTracked-alike c _ refl refl t)
  | inr e ↦
      rw e (record {
        valid = full-IsValid c.info.num_pieces;
        width = (has-full c.info.num_pieces 0).2;
      })
]

have-IsTracked :
    (c : Client) (payload : Bytes) → IsTracked c → IsTracked (handle_have c payload).client
unfolding handle_have
have-IsTracked c payload t = elim (Result-cases (parse_have payload)) [
  | inr (x, e) ↦ rw (e, handle_have) t
  | inl (p, e) ↦
      rw (e, handle_have)
        (elim (Bool-cases (c.info.num_pieces == 0)) [
          | inl early ↦ rw early t
          | inr known ↦ rw known (elim (Bool-cases (leb c.info.num_pieces p.piece_index)) [
            | inl out ↦ rw out t
            | inr inside ↦ rw inside (set_piece-IsTracked c p.piece_index t)
          ])
        ])
]

bitfield_message-IsTracked :
    (c : Client) (payload : Bytes)
    → IsBytes payload
    → IsTracked c
    → IsTracked (handle_bitfield c payload).client
unfolding handle_bitfield
bitfield_message-IsTracked c payload b t = elim (Bool-cases (c.info.num_pieces == 0)) [
  | inl early ↦ rw early (IsTracked-alike c _ refl refl t)
  | inr known ↦ rw known (elim (Result-cases (Bitfield.copy_from c.bitfield payload)) [
    | inr (x, e) ↦ rw e t
    | inl (bf, e) ↦
        let (valid, bits, wide) =
          (from_bytes_iff payload c.bitfield.n bf b).0
            (sym (copy_from-from_bytes c.bitfield payload t.valid b) ∙ e) in
        rw e (record { valid = valid; width = wide ∙ t.width })
  ])
]

have_all-IsTracked :
    (c : Client) (payload : Bytes) → IsTracked c → IsTracked (handle_have_all c payload).client
unfolding handle_have_all
have_all-IsTracked c [] t = apply_have_all-IsTracked c t
have_all-IsTracked c (x ∷ xs) t = t

-- A block, a request and the other messages leave the pieces as they are.
piece-same :
    (env : Env) (c : Client) (payload : Bytes)
    → (((handle_piece env c payload).client).bitfield ≡ c.bitfield)
      × (((handle_piece env c payload).client).info ≡ c.info)
unfolding handle_piece
piece-same env c payload = ground arith

request-same :
    (cb : Callbacks) (env : Env) (c : Client) (payload : Bytes)
    → (((handle_request cb env c payload).client).bitfield ≡ c.bitfield)
      × (((handle_request cb env c payload).client).info ≡ c.info)
unfolding handle_request serve_request
request-same cb env c payload = ground arith

abbrev Same : Client → Client → Type 0
Same d c = (d.bitfield ≡ c.bitfield) × (d.info ≡ c.info)

other-Same :
    (cb : Callbacks) (env : Env) (ext : Extension) (c : Client) (payload : Bytes)
    → Same (handle_have_none c payload).client c
      × Same (handle_suggest c payload).client c
      × Same (handle_allowed_fast c payload).client c
      × Same (handle_reject_request c payload).client c
      × Same (handle_hash_request cb env c payload).client c
      × Same (handle_hashes c payload).client c
      × Same (handle_hash_reject c payload).client c
      × Same (handle_extended ext c payload).client c
unfolding handle_have_none handle_suggest handle_allowed_fast handle_reject_request
    handle_hash_request handle_hashes handle_hash_reject handle_extended
other-Same cb env ext c [] = ground arith
other-Same cb env ext c (x ∷ xs) = ground arith

module _ (cb : Callbacks) (env : Env) (ext : Extension) (c : Client) where
  dispatch-IsTracked :
      (k : Kind) (payload : Bytes)
      → IsBytes payload
      → IsTracked c
      → IsTracked (dispatch cb env ext c k payload).client
  unfolding dispatch
  dispatch-IsTracked choke payload b t = IsTracked-alike c _ refl refl t
  dispatch-IsTracked unchoke payload b t = IsTracked-alike c _ refl refl t
  dispatch-IsTracked interested payload b t = IsTracked-alike c _ refl refl t
  dispatch-IsTracked not_interested payload b t = IsTracked-alike c _ refl refl t
  dispatch-IsTracked have_kind payload b t = have-IsTracked c payload t
  dispatch-IsTracked bitfield_kind payload b t = bitfield_message-IsTracked c payload b t
  dispatch-IsTracked piece payload b t =
      let s = piece-same env c payload in IsTracked-alike c _ s.0 s.1 t
  dispatch-IsTracked request payload b t =
      let s = request-same cb env c payload in IsTracked-alike c _ s.0 s.1 t
  dispatch-IsTracked have_all payload b t = have_all-IsTracked c payload t
  dispatch-IsTracked have_none payload b t =
      let s = other-Same cb env ext c payload in IsTracked-alike c _ s.0.0 s.0.1 t
  dispatch-IsTracked suggest_piece payload b t =
      let s = other-Same cb env ext c payload in IsTracked-alike c _ s.1.0 s.1.1 t
  dispatch-IsTracked allowed_fast_kind payload b t =
      let s = other-Same cb env ext c payload in IsTracked-alike c _ s.2.0 s.2.1 t
  dispatch-IsTracked reject_kind payload b t =
      let s = other-Same cb env ext c payload in IsTracked-alike c _ s.3.0 s.3.1 t
  dispatch-IsTracked hash_request payload b t =
      let s = other-Same cb env ext c payload in IsTracked-alike c _ s.4.0 s.4.1 t
  dispatch-IsTracked hashes_kind payload b t =
      let s = other-Same cb env ext c payload in IsTracked-alike c _ s.5.0 s.5.1 t
  dispatch-IsTracked hash_reject payload b t =
      let s = other-Same cb env ext c payload in IsTracked-alike c _ s.6.0 s.6.1 t
  dispatch-IsTracked extended payload b t =
      let s = other-Same cb env ext c payload in IsTracked-alike c _ s.7.0 s.7.1 t
  dispatch-IsTracked unhandled payload b t = t

  -- On a connection whose bitfield is well formed and, once the metadata is known, as wide as the
  -- torrent, every message whose payload is bytes keeps it so, accepted or not.
  pub handle_message-IsTracked :
      (m : Message)
      → IsBytes m.payload
      → IsTracked c
      → IsTracked (handle_message cb env ext c m).client
  unfolding handle_message
  handle_message-IsTracked m b t = dispatch-IsTracked (kind m.id) m.payload b t

pub new_client-IsTracked :
    (info : TorrentInfo) (hs : Handshake) (now : ℕ) → IsTracked (new_client info hs now)
unfolding new_client
new_client-IsTracked info hs now = record {
  valid = new-IsValid (pos info.num_pieces);
  width = unfold Bitfield.new in refl;
}
