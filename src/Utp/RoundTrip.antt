-- ===== src/Utp/RoundTrip.antt =====
-- Packets as they are written and read back: internal/utp/packet.go.
use go_torrent.Base.{
  ℕ, zero, suc, ◌+◌, ◌*◌, ◌/◌, ◌%◌, ◌≤◌, ◌<◌, ◌≡◌, refl, ap, ◌⊎◌, inl, inr, [], ◌∷◌, ◌++◌, arith,
  ◌==◌, if◌then◌else◌, length, take, drop, length-append, length-drop, take-append_length,
  drop-append_length, ok,
}
use go_torrent.Bytes.{Bytes, put_u16, put_u32, u16, u32}
use go_torrent.Utp.Packet.{Packet, ext_selective_ack, ext_block, ext_byte, marshal, walk, unmarshal}

walk_fuels :
    (f g ext : ℕ) (mask buf : Bytes)
    → length buf ≤ f
    → length buf ≤ g
    → walk f ext mask buf ≡ walk g ext mask buf
unfolding walk
walk_fuels f g zero mask buf hf hg = refl
walk_fuels zero zero (suc ext) mask buf hf hg = refl
walk_fuels zero (suc g) (suc ext) mask [] hf hg = refl
walk_fuels zero (suc g) (suc ext) mask (x ∷ buf) hf hg = absurd (omega arith)
walk_fuels (suc f) zero (suc ext) mask [] hf hg = refl
walk_fuels (suc f) zero (suc ext) mask (x ∷ buf) hf hg = absurd (omega arith)
walk_fuels (suc f) (suc g) (suc ext) mask [] hf hg = refl
walk_fuels (suc f) (suc g) (suc ext) mask (x ∷ []) hf hg = refl
walk_fuels (suc f) (suc g) (suc ext) mask (next_ext ∷ len ∷ buf) hf hg =
    rw
      (walk_fuels f g next_ext (if suc ext == ext_selective_ack then take len buf else mask)
        (drop len buf) (omega (arith, length-drop len buf)) (omega (arith, length-drop len buf)))
      refl

-- The loop over the extensions ends by itself: with as many rounds as there are bytes, or any
-- number more, the outcome is the same.
pub walk_enough :
    (fuel ext : ℕ) (mask buf : Bytes)
    → length buf ≤ fuel
    → walk fuel ext mask buf ≡ walk (length buf) ext mask buf
walk_enough fuel ext mask buf h = walk_fuels fuel (length buf) ext mask buf h (omega arith)

-- A packet that can be written: a known type, fields of their widths, and a mask that is absent or of
-- 4 to 252 bytes in fours.
pub record IsPacket (p : Packet) : Type 0 where
  pub kind_ok : p.kind ≤ 4
  pub conn_ok : p.conn_id < 65536
  pub timestamp_ok : p.timestamp < 4294967296
  pub diff_ok : p.timestamp_diff < 4294967296
  pub wnd_ok : p.wnd_size < 4294967296
  pub seq_ok : p.seq_nr < 65536
  pub ack_ok : p.ack_nr < 65536
  pub sack_ok :
      (p.sack ≡ []) ⊎ ((4 ≤ length p.sack) × (length p.sack < 256) × (length p.sack % 4 ≡ 0))

walk-ext_block :
    (sack payload : Bytes)
    → (sack ≡ []) ⊎ ((4 ≤ length sack) × (length sack < 256) × (length sack % 4 ≡ 0))
    → walk (length (ext_block sack ++ payload)) (ext_byte sack) [] (ext_block sack ++ payload)
      ≡ ok (record { mask = sack; rest = payload })
unfolding walk ext_block ext_byte
walk-ext_block [] payload h = refl
walk-ext_block (x ∷ xs) payload (inl e) = absurd (omega (arith, ap length e))
walk-ext_block (x ∷ xs) payload (inr (four, small, fours)) =
    let len : length (x ∷ xs) % 256 ≡ length (x ∷ xs) = omega (arith, small) in
    let t : take (suc (length xs)) (x ∷ (xs ++ payload)) ≡ x ∷ xs =
      take-append_length (x ∷ xs) payload in
    let d : drop (suc (length xs)) (x ∷ (xs ++ payload)) ≡ payload =
      drop-append_length (x ∷ xs) payload in
    rw (len, t, d) (ground (arith, length-append xs payload))

word16 : (v : ℕ) → v < 65536 → v / 256 % 256 * 256 + v % 256 ≡ v
word16 v h = omega arith

word32 :
    (v : ℕ)
    → v < 4294967296
    → v / 16777216 % 256 * 16777216 + v / 65536 % 256 * 65536 + v / 256 % 256 * 256 + v % 256 ≡ v
word32 v h = omega arith

-- What `Marshal` writes for a packet of a known type, with fields of their widths and a mask that
-- is absent or of 4 to 252 bytes in fours, `Unmarshal` reads back, extension and payload included.
pub unmarshal-marshal : (p : Packet) → IsPacket p → unmarshal (marshal p) ≡ ok p
unfolding unmarshal marshal put_u16 put_u32 u16 u32
unmarshal-marshal p h =
    let version : (p.kind * 16 % 256 + 1) % 16 ≡ 1 = omega arith in
    let kind : (p.kind * 16 % 256 + 1) / 16 ≡ p.kind = omega (arith, h.kind_ok) in
    rw
      (
        version,
        kind,
        walk-ext_block p.sack p.payload h.sack_ok,
        word16 p.conn_id h.conn_ok,
        word16 p.seq_nr h.seq_ok,
        word16 p.ack_nr h.ack_ok,
        word32 p.timestamp h.timestamp_ok,
        word32 p.timestamp_diff h.diff_ok,
        word32 p.wnd_size h.wnd_ok,
      )
      (ground (arith, h.kind_ok, kind))
