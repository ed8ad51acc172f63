-- ===== src/Peer/Client/Metadata.antt =====
-- What a peer says about its pieces, before and after the metadata is known.
use go_torrent.Base.{
  ℕ, ◌≡◌, ◌≢◌, ◌⊎◌, refl, true, false, not, ◌&&◌, ◌||◌, ltb, ◌==◌, inl, inr, Result-cases, [], ◌∷◌,
  none, ok, pos, arith,
}
use go_torrent.Bytes.{Bytes, IsBytes}
use go_torrent.Bitfield
use go_torrent.Bitfield.{Bitfield}
use go_torrent.Bitfield.Invariant.{new-IsValid}
use go_torrent.Bitfield.Indexed.{has-set}
use go_torrent.Bitfield.Wire.{copy_from-from_bytes}
use go_torrent.Peer.Message.{HavePayload, parse_have}
use go_torrent.Peer.Client.State.{Client, TorrentInfo}
use go_torrent.Peer.Client.{
  handle_have, handle_bitfield, apply_have_all, upgrade_metadata, has_piece, set_piece,
}
use go_torrent.Peer.Client.Invariant.{IsTracked}

-- On a well-formed connection that knows the metadata, a well-formed Have for a piece of the
-- torrent adds exactly that piece, and one for any other piece closes the connection and adds
-- nothing.
pub handle_have_adds :
    (c : Client) (payload : Bytes) (p : HavePayload) (j : ℕ)
    → IsTracked c
    → c.info.num_pieces ≢ 0
    → parse_have payload ≡ ok p
    → ((handle_have c payload).go_on ≡ ltb p.piece_index c.info.num_pieces)
      × (has_piece (handle_have c payload).client j
          ≡ (p.piece_index == j && ltb p.piece_index c.info.num_pieces || has_piece c j))
unfolding handle_have has_piece set_piece
handle_have_adds c payload p j t known e =
    let wide : c.bitfield.n ≡ c.info.num_pieces = t.width in
    ground (arith, e, has-set c.bitfield p.piece_index j t.valid)

-- The connection has heard nothing about the peer's pieces, and the metadata is not known.
pub record IsEarly (c : Client) : Type 0 where
  pub unknown : c.info.num_pieces ≡ 0
  pub no_bitfield : c.pending_bitfield ≡ none
  pub no_have_all : c.pending_have_all ≡ false

upgrade_early :
    (c : Client) (info : TorrentInfo)
    → IsEarly c
    → upgrade_metadata c info ≡ record {
      client = record c { info = info; bitfield = Bitfield.new (pos info.num_pieces) };
      failed = false;
    }
unfolding upgrade_metadata
upgrade_early c info v = ground arith

-- On a connection without metadata, and with no Bitfield or HaveAll before, a Bitfield message of
-- at least one byte has, once a metadata of at least one piece arrives, the outcome it would have
-- had afterwards: the same refusal, or the same pieces.
pub upgrade-handle_bitfield :
    (c : Client) (x : ℕ) (xs : Bytes) (info : TorrentInfo)
    → IsEarly c
    → info.num_pieces ≢ 0
    → IsBytes (x ∷ xs)
    → let early = upgrade_metadata (handle_bitfield c (x ∷ xs)).client info in
      let late = handle_bitfield (upgrade_metadata c info).client (x ∷ xs) in
      (early.failed ≡ not late.go_on)
      × ((early.failed ≡ true) ⊎ (early.client.bitfield ≡ late.client.bitfield))
unfolding upgrade_metadata handle_bitfield
upgrade-handle_bitfield c x xs info v known b =
    let same =
      copy_from-from_bytes (Bitfield.new (pos info.num_pieces)) (x ∷ xs)
        (new-IsValid (pos info.num_pieces)) b in
    elim (Result-cases (Bitfield.from_bytes (x ∷ xs) info.num_pieces)) [
      | inl (bf, e) ↦ ground (arith, same, new_n info.num_pieces)
      | inr (bad, e) ↦ ground (arith, same, new_n info.num_pieces)
    ]
  where
    new_n : (n : ℕ) → (Bitfield.new (pos n)).n ≡ n
    new_n n = unfold Bitfield.new in refl

-- The same for HaveAll: the peer has every piece once their number is known.
pub upgrade-apply_have_all :
    (c : Client) (info : TorrentInfo)
    → IsEarly c
    → info.num_pieces ≢ 0
    → let early = upgrade_metadata (apply_have_all c) info in
      let late = apply_have_all (upgrade_metadata c info).client in
      (early.failed ≡ false)
      × (early.client.bitfield ≡ late.bitfield)
      × (early.client.bitfield ≡ Bitfield.full info.num_pieces)
unfolding upgrade_metadata apply_have_all
upgrade-apply_have_all c info v known = ground (arith)

-- The empty Bitfield message is the exception: before the metadata it is as good as none.
pub empty_bitfield_early :
    (c : Client) (info : TorrentInfo)
    → IsEarly c
    → ((upgrade_metadata (handle_bitfield c []).client info).failed ≡ false)
unfolding upgrade_metadata handle_bitfield
empty_bitfield_early c info v = ground arith
