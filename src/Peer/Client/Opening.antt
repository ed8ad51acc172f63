-- ===== src/Peer/Client/Opening.antt =====
-- The first message of a connection: what it tells the peer about our pieces.
use go_torrent.Base.{
  ℕ, zero, suc, ◌%◌, ◌≤◌, ◌<◌, Option-cases, some, if◌then◌else◌, ◌≡◌, ◌≢◌, refl, sym, ap, ◌∙◌,
  Bool, true, false, ◌&&◌, ltb, ltb→lt, ◌==◌, Bool-cases, inl, inr, List, [], ◌∷◌, ok, pos, arith,
}
use go_torrent.Bytes.{length-put_u32, u32-put_u32_alone}
use go_torrent.Peer.Message.{HavePayload, parse_have, serialize_have}
use go_torrent.Bitfield
use go_torrent.Bitfield.{Bitfield}
use go_torrent.Bitfield.Invariant.{IsValid, set-IsValid, new-IsValid, has-bit_at, bit_at-replicate}
use go_torrent.Bitfield.Indexed.{has-set, set-n, has-full}
use go_torrent.Bitfield.Counting.{count-has, all_counted, none_counted}
use go_torrent.Bitfield.Wire.{from_bytes-bits, copy_from-from_bytes}
use go_torrent.Peer.Client.State.{
  Client, Callbacks, Env, Extension, Outcome, Effect, send, kind, owns,
}
use go_torrent.Peer.Client.{
  collect_haves, announce_pieces, announce_state, send_initial_state, queue_frame, has_piece,
  handle_have, set_piece, handle_message, dispatch, handle_bitfield, handle_have_all,
  handle_have_none, apply_have_all,
}

module _ (f : ℕ → Bool) (n : ℕ) where
  collected : ℕ → Bitfield
  collected k = collect_haves f k (Bitfield.new (pos n))

  collected-IsValid : (k : ℕ) → IsValid (collected k)
  unfolding collected collect_haves
  collected-IsValid zero = new-IsValid (pos n)
  collected-IsValid (suc k) = elim (Bool-cases (f k)) [
    | inl e ↦ rw e (set-IsValid (collected k) (pos k) (collected-IsValid k))
    | inr e ↦ rw e (collected-IsValid k)
  ]

  collected-n : (k : ℕ) → (collected k).n ≡ n
  unfolding collected collect_haves
  collected-n zero = unfold Bitfield.new in refl
  collected-n (suc k) = ground (arith, set-n (collected k) (pos k), collected-n k)

  collected-has : (k j : ℕ) → Bitfield.has (collected k) (pos j) ≡ (f j && (ltb j k && ltb j n))
  unfolding collected collect_haves
  collected-has zero j =
      has-bit_at _ j (new-IsValid (pos n))
      ∙ unfold Bitfield.new in bit_at-replicate _ j ∙ ground arith
  collected-has (suc k) j = ground (
    arith,
    has-set (collected k) k j (collected-IsValid k),
    collected-has k j,
    collected-n k,
    ap f {x = k} {y = j},
  )

  collected-all : (collected n).count ≡ n → (j : ℕ) → (f j && ltb j n) ≡ ltb j n
  collected-all e j = elim (Bool-cases (ltb j n)) [
    | inl inside ↦
        let all : Bitfield.has (collected n) (pos j) ≡ true =
          all_counted (λ i. Bitfield.has (collected n) (pos i)) (collected n).n
            (sym (count-has (collected n) (collected-IsValid n)) ∙ e ∙ sym (collected-n n)) j
            (rw (collected-n n) (ltb→lt _ _ inside)) in
        ground (arith, collected-has n j, all)
    | inr outside ↦ ground arith
  ]

  collected-none : (collected n).count ≡ 0 → (j : ℕ) → (f j && ltb j n) ≡ false
  collected-none e j = elim (Bool-cases (ltb j n)) [
    | inl inside ↦
        let off : Bitfield.has (collected n) (pos j) ≡ false =
          none_counted (λ i. Bitfield.has (collected n) (pos i)) (collected n).n
            (sym (count-has (collected n) (collected-IsValid n)) ∙ e) j
            (rw (collected-n n) (ltb→lt _ _ inside)) in
        ground (arith, collected-has n j, off)
    | inr outside ↦ ground arith
  ]

-- The other side of the connection handles the one frame that was sent, if any was.
pub hear : Callbacks → Env → Extension → Client → List Effect → Outcome
hear cb env ext r (send id payload ∷ rest) =
    handle_message cb env ext r (record { id = id; payload = payload })
hear cb env ext r _ = record { client = r; effects = []; go_on = true }

new-has : (n j : ℕ) → Bitfield.has (Bitfield.new (pos n)) (pos j) ≡ false
new-has n j = has-bit_at _ j (new-IsValid (pos n)) ∙ unfold Bitfield.new in bit_at-replicate _ j

module _ (peer_cb : Callbacks) (peer_env : Env) (ext : Extension) (c r : Client) (f : ℕ → Bool)
    (j : ℕ) where
  abbrev Learns : List Effect → Type 0
  Learns es =
      ((hear peer_cb peer_env ext r es).go_on ≡ true)
      × (has_piece (hear peer_cb peer_env ext r es).client j ≡ (f j && ltb j c.info.num_pieces))

  module _ (known : c.info.num_pieces ≢ 0) (same : r.info.num_pieces ≡ c.info.num_pieces)
      (fresh : r.bitfield ≡ Bitfield.new (pos c.info.num_pieces)) where
    abbrev gathered : Bitfield
    gathered = collected f c.info.num_pieces c.info.num_pieces

    Learns-all : gathered.count ≡ c.info.num_pieces → Learns (send 14 [] ∷ [])
    unfolding hear handle_message dispatch kind handle_have_all apply_have_all has_piece
    Learns-all e = ground (
      arith,
      same,
      known,
      (has-full r.info.num_pieces j).0,
      collected-all f c.info.num_pieces e j,
    )

    Learns-none : gathered.count ≡ 0 → Learns (send 15 [] ∷ []) × Learns []
    unfolding hear handle_message dispatch kind handle_have_none has_piece
    Learns-none e =
        let nothing = collected-none f c.info.num_pieces e j in
        let empty : Bitfield.has r.bitfield (pos j) ≡ false =
          rw fresh (new-has c.info.num_pieces j) in
        ground (arith, nothing, empty)

    Learns-bits : Learns (send 5 gathered.bits ∷ [])
    unfolding hear handle_message dispatch kind handle_bitfield has_piece Bitfield.new collected
        collect_haves
    Learns-bits =
        let valid = collected-IsValid f c.info.num_pieces c.info.num_pieces in
        let wide = collected-n f c.info.num_pieces c.info.num_pieces in
        let new_wide : (Bitfield.new (pos c.info.num_pieces)).n ≡ c.info.num_pieces =
          collected-n f c.info.num_pieces 0 in
        let taken : Bitfield.copy_from r.bitfield gathered.bits ≡ ok gathered =
          ap (λ b. Bitfield.copy_from b gathered.bits) fresh
          ∙ copy_from-from_bytes (Bitfield.new (pos c.info.num_pieces)) gathered.bits
              (new-IsValid (pos c.info.num_pieces)) valid.is_bytes
          ∙ ap (Bitfield.from_bytes gathered.bits) (new_wide ∙ sym wide)
          ∙ from_bytes-bits gathered valid in
        ground (arith, same, known, taken, collected-has f c.info.num_pieces c.info.num_pieces j)

    Learns-pieces : (env : Env) → env.queued ≡ true → Learns (announce_pieces env c f)
    unfolding announce_pieces collected queue_frame
    Learns-pieces env queued = elim (Bool-cases (gathered.count == c.info.num_pieces)) [
      | inl e ↦
          rw (queued, e)
            (elim (Bool-cases c.supports_fast) [
              | inl fast ↦ rw fast (Learns-all (ground arith))
              | inr slow ↦ rw slow Learns-bits
            ])
      | inr more ↦
          rw (queued, more)
            (elim (Bool-cases (gathered.count == 0)) [
              | inl e ↦ rw e (elim (Bool-cases c.supports_fast) [
                | inl fast ↦ rw fast (Learns-none (ground arith)).0
                | inr slow ↦ rw slow (Learns-none (ground arith)).1
              ])
              | inr some_pieces ↦ rw some_pieces Learns-bits
            ])
    ]

-- What the opening message is to tell about piece `j`: the one piece that super-seeding assigned,
-- or else the pieces that the owner has, none without its callback.
abbrev pub told : Callbacks → ℕ → ℕ → Bool
told cb n j = elim cb.initial_haves [ some (some index) ↦ index == j | _ ↦ owns cb j && ltb j n ]

module _ (cb peer_cb : Callbacks) (env peer_env : Env) (ext : Extension) (c r : Client) (j : ℕ)
    (queued : env.queued ≡ true) (same : r.info.num_pieces ≡ c.info.num_pieces)
    (fresh : r.bitfield ≡ Bitfield.new (pos c.info.num_pieces)) where
  -- The peer `r` goes on after the frames, and then has the pieces that `told_piece` says.
  abbrev Knows : Bool → List Effect → Type 0
  Knows told_piece es =
      ((hear peer_cb peer_env ext r es).go_on ≡ true)
      × (has_piece (hear peer_cb peer_env ext r es).client j ≡ told_piece)

  nothing_told : Knows false (send 15 [] ∷ []) × Knows false []
  unfolding hear handle_message dispatch kind handle_have_none has_piece
  nothing_told =
      let empty : Bitfield.has r.bitfield (pos j) ≡ false =
        rw fresh (new-has c.info.num_pieces j) in
      ground (arith, empty)

  nothing_sent : Knows false (if c.supports_fast then queue_frame env 15 [] else [])
  unfolding queue_frame
  nothing_sent = elim (Bool-cases c.supports_fast) [
    | inl fast ↦ rw (fast, queued) nothing_told.0
    | inr slow ↦ rw slow nothing_told.1
  ]

  announce_state_tells : Knows (owns cb j && ltb j c.info.num_pieces) (announce_state cb env c)
  unfolding announce_state owns
  announce_state_tells = elim (Option-cases cb.has_piece) [
    | inl e ↦ rw e nothing_sent
    | inr (f, e) ↦ rw e (elim (Bool-cases (c.info.num_pieces == 0)) [
      | inl unknown ↦
          let none_there : (f j && ltb j c.info.num_pieces) ≡ false = ground arith in
          rw (unknown, none_there) nothing_sent
      | inr known ↦
          rw known (Learns-pieces peer_cb peer_env ext c r f j (ground arith) same fresh env queued)
    ])
  ]

  parse_have-serialize_have :
      (p : HavePayload) → p.piece_index < 4294967296 → parse_have (serialize_have p) ≡ ok p
  unfolding parse_have serialize_have
  parse_have-serialize_have p h =
      ground (arith, length-put_u32 p.piece_index, u32-put_u32_alone p.piece_index h)

  have_told :
      (index : ℕ)
      → index < c.info.num_pieces
      → index < 4294967296
      → Knows (index == j) (send 4 (serialize_have (record { piece_index = index })) ∷ [])
  unfolding hear handle_message dispatch kind handle_have set_piece has_piece
  have_told index inside narrow =
      let empty : (i : ℕ) → Bitfield.has r.bitfield (pos i) ≡ false =
        λ i. rw fresh (new-has c.info.num_pieces i) in
      let parsed = parse_have-serialize_have (record { piece_index = index }) narrow in
      let valid : IsValid r.bitfield = rw fresh (new-IsValid (pos c.info.num_pieces)) in
      let wide : r.bitfield.n ≡ c.info.num_pieces = rw fresh (unfold Bitfield.new in refl) in
      ground (arith, same, parsed, empty j, wide, has-set r.bitfield index j valid)

  assigned_told :
      (index : ℕ)
      → index < c.info.num_pieces
      → index < 4294967296
      → Knows
          (index == j)
          (queue_frame env 4 (serialize_have (record { piece_index = index % 4294967296 })))
  unfolding queue_frame
  assigned_told index inside narrow =
      let whole : index % 4294967296 ≡ index = omega arith in
      rw (whole, queued) (have_told index inside narrow)

  -- Where the opening message could be queued, the torrent has at most 2^32 pieces, and
  -- super-seeding assigns a piece of the torrent, if any: a peer with the same number of pieces,
  -- and none set yet, goes on after the message, and then knows exactly the assigned piece, or,
  -- where none is assigned, exactly the pieces that the owner has, none without its callback.
  pub send_initial_state_tells :
      c.info.num_pieces ≤ 4294967296
      → ((index : ℕ) → cb.initial_haves ≡ some (some index) → index < c.info.num_pieces)
      → ((hear peer_cb peer_env ext r (send_initial_state cb env c)).go_on ≡ true)
        × (has_piece (hear peer_cb peer_env ext r (send_initial_state cb env c)).client j
            ≡ told cb c.info.num_pieces j)
  unfolding send_initial_state announce_state
  send_initial_state_tells few assigned = elim (Option-cases cb.initial_haves) [
    | inl e ↦ rw (told, e) announce_state_tells
    | inr (answer, e) ↦ elim (Option-cases answer) [
      | inl refused ↦ rw (told, e, refused) announce_state_tells
      | inr (index, given) ↦
          let inside = assigned index (e ∙ ap some given) in
          rw (told, e, given) (assigned_told index inside (omega arith))
    ]
  ]
