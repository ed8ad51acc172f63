-- ===== src/Merkle/Binding.antt =====
-- What `VerifyProof` of internal/merkle/proof.go binds a leaf to, as far as SHA-256 has no collision
-- among the strings that are hashed on the way up.
use mathlib.Core.Option.{some-injective}
use go_torrent.Base.{
  ℕ, zero, suc, ◌+◌, ◌*◌, ◌/◌, ◌%◌, ◌≤◌, ◌<◌, ◌≡◌, refl, sym, ap, ◌∙◌, ◌⊎◌, inl, inr, true, false,
  some, List, [], ◌∷◌, ◌++◌, All, arith, ltb, leb, ◌==◌, if◌then◌else◌, Bool-cases, length, get_or,
  take, drop, take-append_length, drop-append_length, pos,
}
use go_torrent.Bytes.{Bytes, same_text, same_text_sound}
use go_torrent.Bits.Steps.{power_halves}
use go_torrent.Merkle.{
  digest_size, Hash, is_power, halvings, bit_len, combine, next_level, last_level, root, climb,
  verify_proof,
}
use go_torrent.Merkle.Proof.{
  IsLevel, IsLevel-next_level, length-next_level, get_or-next_level, top, root_lem,
}

abbrev pub IsDigest : Bytes → Type 0
IsDigest h = length h ≡ digest_size

-- Two pairs of digests that make one string are the same pairs.
append-IsDigest : (a b c d : Bytes) → IsDigest a → IsDigest c → a ++ b ≡ c ++ d → (a ≡ c) × (b ≡ d)
append-IsDigest a b c d ha hc e =
    let same_size : length a ≡ length c = ha ∙ sym hc in
    (
      sym (take-append_length a b)
          ∙ (ap (take (length a)) e
              ∙ (ap (λ k. take k (c ++ d)) same_size ∙ take-append_length c d)),
      sym (drop-append_length a b)
          ∙ (ap (drop (length a)) e
              ∙ (ap (λ k. drop k (c ++ d)) same_size ∙ drop-append_length c d)),
    )

module _ (sha256 : Bytes → Bytes) where
  -- The strings that `VerifyProof` hashes on its way up from `h` at the place `idx`.
  unfoldable pub climbed : Hash → ℕ → List Hash → List Bytes
  climbed h idx [] = []
  climbed h idx (s ∷ more) =
      let pair = if idx % 2 == 0 then h ++ s else s ++ h in
      pair ∷ climbed (sha256 pair) (idx / 2) more

  -- The strings that `Root` hashes above the place `idx` of a level, for as many levels.
  unfoldable pub built : ℕ → List Hash → ℕ → List Bytes
  built zero level idx = []
  built (suc levels) level idx =
      (get_or level (2 * (idx / 2)) [] ++ get_or level (2 * (idx / 2) + 1) [])
      ∷ built levels (next_level sha256 level) (idx / 2)

  -- At one step the two sequences have strings that differ, with the same SHA-256.
  pub record Collision (xs ys : List Bytes) : Type 0 where
    pub step : ℕ
    pub inside : step < length xs
    pub differs : same_text (get_or xs step []) (get_or ys step []) ≡ false
    pub collides : sha256 (get_or xs step []) ≡ sha256 (get_or ys step [])

  Collision-later :
      (x y : Bytes) (xs ys : List Bytes) → Collision xs ys → Collision (x ∷ xs) (y ∷ ys)
  Collision-later x y xs ys c = record {
    step = suc c.step;
    inside = let i = c.inside in omega arith;
    differs = c.differs;
    collides = c.collides;
  }

  same_or_Collision :
      (x y : Bytes) (xs ys : List Bytes)
      → sha256 x ≡ sha256 y
      → (x ≡ y) ⊎ Collision (x ∷ xs) (y ∷ ys)
  same_or_Collision x y xs ys e = elim (Bool-cases (same_text x y)) [
    | inl same ↦ inl (same_text_sound x y same)
    | inr differs ↦ inr (record { step = 0; inside = omega arith; differs = differs; collides = e })
  ]

  combine_pair :
      (idx : ℕ) (leaf s : Hash)
      → sha256 (if idx % 2 == 0 then leaf ++ s else s ++ leaf)
        ≡ (if idx % 2 == 0 then combine sha256 leaf s else combine sha256 s leaf)
  unfolding combine
  combine_pair idx leaf s = elim (Bool-cases (idx % 2 == 0)) [
    | inl even ↦ rw even refl
    | inr odd ↦ rw odd refl
  ]

  module _ (width : (x : Bytes) → IsDigest (sha256 x)) where
    next_level-IsDigest : (level : List Hash) → All IsDigest (next_level sha256 level)
    unfolding next_level combine
    next_level-IsDigest [] = tt
    next_level-IsDigest (l ∷ []) = tt
    next_level-IsDigest (l ∷ r ∷ level) = (width (l ++ r), next_level-IsDigest level)

    get_or-IsDigest :
        (level : List Hash) (i : ℕ)
        → All IsDigest level
        → i < length level
        → IsDigest (get_or level i [])
    get_or-IsDigest [] i all h = absurd (omega arith)
    get_or-IsDigest (l ∷ level) zero all h = all.0
    get_or-IsDigest (l ∷ level) (suc i) all h = get_or-IsDigest level i all.1 (omega arith)

    -- The pair that is hashed at a place holds what stands there.
    pair_binds :
        (level : List Hash) (idx : ℕ) (leaf s : Hash)
        → All IsDigest level
        → IsDigest leaf
        → IsDigest s
        → 2 * (idx / 2) + 1 < length level
        → (if idx % 2 == 0 then leaf ++ s else s ++ leaf)
          ≡ get_or level (2 * (idx / 2)) [] ++ get_or level (2 * (idx / 2) + 1) []
        → leaf ≡ get_or level idx []
    pair_binds level idx leaf s all hl hs inside e =
        let first = get_or-IsDigest level (2 * (idx / 2)) all (omega arith) in
        elim (Bool-cases (idx % 2 == 0)) [
          | inl even ↦
              let here : 2 * (idx / 2) ≡ idx = ground arith in
              let pair = append-IsDigest leaf s _ _ hl first (rw even at e) in
              pair.0 ∙ ap (λ k. get_or level k []) here
          | inr odd ↦
              let here : 2 * (idx / 2) + 1 ≡ idx = ground arith in
              let pair = append-IsDigest s leaf _ _ hs first (rw odd at e) in
              pair.1 ∙ ap (λ k. get_or level k []) here
        ]

    climb-binds :
        (fuel : ℕ) (level : List Hash) (idx : ℕ) (leaf : Hash) (hashes : List Hash)
        → IsLevel sha256 level
        → All IsDigest level
        → IsDigest leaf
        → All IsDigest hashes
        → idx < length level
        → length level ≤ fuel
        → length hashes ≡ halvings fuel (length level)
        → climb sha256 leaf idx hashes ≡ top sha256 fuel level
        → (leaf ≡ get_or level idx [])
          ⊎ Collision (climbed leaf idx hashes) (built (length hashes) level idx)
    unfolding halvings last_level climb climbed built combine
    climb-binds zero level idx leaf hashes l all hl hs i enough counted up = absurd (omega arith)
    climb-binds (suc fuel) level idx leaf [] l all hl hs i enough counted up =
        elim (Bool-cases (ltb 1 (length level))) [
          | inl e ↦ absurd (ground (arith, counted))
          | inr e ↦
              let only : idx ≡ 0 = let s = l.some_hash in ground arith in
              inl (rw only (rw (top, e) at up))
        ]
    climb-binds (suc fuel) level idx leaf (s ∷ hashes) l all hl hs i enough counted up =
        elim (Bool-cases (ltb 1 (length level))) [
          | inr e ↦ absurd (ground (arith, counted))
          | inl e ↦
              let many : 1 < length level = ground arith in
              let n = length-next_level sha256 level in
              let even = (power_halves (length level) many l.power).0 in
              let one_less : length hashes ≡ halvings fuel (length (next_level sha256 level)) =
                let c = rw e at counted in rw n (omega (arith, c)) in
              let pair = if idx % 2 == 0 then leaf ++ s else s ++ leaf in
              let rest =
                climb-binds fuel (next_level sha256 level) (idx / 2) (sha256 pair) hashes
                  (IsLevel-next_level sha256 level many l) (next_level-IsDigest level) (width pair)
                  hs.1 (omega arith) (omega arith) one_less
                  (ap (λ h. climb sha256 h (idx / 2) hashes) (combine_pair idx leaf s)
                    ∙ rw (top, e) at up) in
              let above = get_or-next_level sha256 level (idx / 2) (omega arith) in
              elim rest [
                | inr c ↦ inr (Collision-later _ _ _ _ c)
                | inl same ↦ elim (same_or_Collision pair _ _ _ (same ∙ above)) [
                  | inl one ↦ inl (pair_binds level idx leaf s all hl hs.0 (omega arith) one)
                  | inr c ↦ inr c
                ]
              ]
        ]

    -- Where all hashes have 32 bytes, and a proof is accepted for some leaf at a place of the tree
    -- with the root of these leaves: the leaf is the one that stands there, or, at one step of the
    -- way up, the string that `VerifyProof` hashes and the one that `Root` hashes at that place
    -- differ and have the same SHA-256.
    pub verify_proof_binds :
        (leaves : List Hash) (tree leaf : Hash) (index : ℕ) (hashes : List Hash)
        → All IsDigest leaves
        → IsDigest leaf
        → All IsDigest hashes
        → root sha256 leaves ≡ some tree
        → verify_proof sha256 tree leaf (pos index) (length leaves) hashes ≡ true
        → (leaf ≡ get_or leaves index [])
          ⊎ Collision (climbed leaf index hashes) (built (length hashes) leaves index)
    unfolding verify_proof bit_len
    verify_proof_binds leaves tree leaf index hashes all hl hs roots accepted =
        let inside : leb (length leaves) index ≡ false = ground arith in
        let power : is_power (length leaves) ≡ true = ground arith in
        let sized : (suc (length hashes) == halvings (length leaves) (length leaves) + 1) ≡ true =
          ground arith in
        let up : same_text (climb sha256 leaf index hashes) tree ≡ true = ground arith in
        let l : IsLevel sha256 leaves = record { some_hash = ground arith; power = ground arith } in
        let is : top sha256 (length leaves) leaves ≡ tree =
          some-injective _ _ (sym (root_lem sha256 leaves l) ∙ roots) in
        climb-binds (length leaves) leaves index leaf hashes l all hl hs (ground arith)
          (omega arith) (ground arith) (same_text_sound _ _ up ∙ sym is)
