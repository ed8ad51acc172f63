-- ===== src/Merkle/Proof.antt =====
-- What the proofs of internal/merkle/proof.go show.
use go_torrent.Base.{
  ℕ, zero, suc, ◌+◌, ◌-◌, ◌*◌, ◌/◌, ◌%◌, ◌≤◌, ◌<◌, bit_and, bit_xor, ◌≡◌, refl, sym, ap, ◌∙◌, inl,
  inr, true, false, some, List, [], ◌∷◌, arith, ltb, leb, ◌==◌, if◌then◌else◌, Bool-cases, length,
  get_elem?, get_or, pos,
}
use go_torrent.Bytes.{Bytes, same_text_refl}
use go_torrent.Bits.Steps.{bit_xor-one, power_halves}
use go_torrent.Merkle.{
  Hash, is_power, halvings, bit_len, combine, next_level, last_level, root, siblings, proof, climb,
  verify_proof,
}

module _ (sha256 : Bytes → Bytes) where
  pub length-next_level : (level : List Hash) → length (next_level sha256 level) ≡ length level / 2
  unfolding next_level
  length-next_level [] = refl
  length-next_level (l ∷ []) = refl
  length-next_level (l ∷ r ∷ level) = omega (arith, length-next_level level)

  pub get_or-next_level :
      (level : List Hash) (j : ℕ)
      → 2 * j + 1 < length level
      → get_or (next_level sha256 level) j []
        ≡ combine sha256 (get_or level (2 * j) []) (get_or level (2 * j + 1) [])
  unfolding next_level
  get_or-next_level [] j h = absurd (omega arith)
  get_or-next_level (l ∷ []) j h = absurd (omega arith)
  get_or-next_level (l ∷ r ∷ level) zero h = refl
  get_or-next_level (l ∷ r ∷ level) (suc j) h =
      let a : 2 * suc j ≡ suc (suc (2 * j)) = omega arith in
      let b : 2 * suc j + 1 ≡ suc (suc (2 * j + 1)) = omega arith in
      rw (b, a) (get_or-next_level level j (omega arith))

  -- A level that `VerifyProof` and `Root` accept.
  pub record IsLevel (level : List Hash) : Type 0 where
    pub some_hash : 0 < length level
    pub power : bit_and (length level) (length level - 1) ≡ 0

  pub IsLevel-next_level :
      (level : List Hash) → 1 < length level → IsLevel level → IsLevel (next_level sha256 level)
  IsLevel-next_level level h l =
      let p = power_halves (length level) h l.power in
      let e = length-next_level level in record { some_hash = omega arith; power = rw e p.1 }

  -- The parent of a hash and its neighbour, which stand in order.
  parent :
      (level : List Hash) (idx : ℕ)
      → 1 < length level
      → IsLevel level
      → idx < length level
      → get_or (next_level sha256 level) (idx / 2) [] ≡ (
          if idx % 2 == 0
          then combine sha256 (get_or level idx []) (get_or level (bit_xor idx 1) [])
          else combine sha256 (get_or level (bit_xor idx 1) []) (get_or level idx []))
  parent level idx h l i =
      let p = power_halves (length level) h l.power in
      let n = bit_xor-one idx in
      let e = get_or-next_level level (idx / 2) (omega arith) in
      elim (Bool-cases (idx % 2 == 0)) [
        | inl even ↦
            let here : 2 * (idx / 2) ≡ idx = ground arith in
            rw (even, n) (rw (even, here) (rw here at e))
        | inr odd ↦
            let here : 2 * (idx / 2) + 1 ≡ idx = ground arith in
            rw (odd, n) (rw (odd) (rw here at e))
      ]

  get_elem?-get_or :
      (level : List Hash) (i : ℕ) → i < length level → get_elem? level i ≡ some (get_or level i [])
  get_elem?-get_or [] i h = absurd (omega arith)
  get_elem?-get_or (l ∷ level) zero h = refl
  get_elem?-get_or (l ∷ level) (suc i) h = get_elem?-get_or level i (omega arith)

  neighbour_lt :
      (level : List Hash) (idx : ℕ)
      → 1 < length level
      → IsLevel level
      → idx < length level
      → bit_xor idx 1 < length level
  neighbour_lt level idx h l i =
      let p = power_halves (length level) h l.power in
      let even = p.0 in ground (arith, bit_xor-one idx)

  -- The hash at the top of the tree over a level.
  abbrev pub top : ℕ → List Hash → Hash
  top fuel level = get_or (last_level sha256 fuel level) 0 []

  record Proves (fuel : ℕ) (level : List Hash) (idx : ℕ) : Type 0 where
    hashes : List Hash
    runs : siblings sha256 fuel level idx ≡ some hashes
    counted : length hashes ≡ halvings fuel (length level)
    climbs : climb sha256 (get_or level idx []) idx hashes ≡ top fuel level

  siblings-Proves :
      (fuel : ℕ) (level : List Hash) (idx : ℕ)
      → IsLevel level
      → idx < length level
      → length level ≤ fuel
      → Proves fuel level idx
  unfolding siblings halvings last_level climb
  siblings-Proves zero level idx l i enough = absurd (omega arith)
  siblings-Proves (suc fuel) level idx l i enough = elim (Bool-cases (ltb 1 (length level))) [
    | inr e ↦
        let only : idx ≡ 0 = let s = l.some_hash in ground arith in
        record {
          hashes = [];
          runs = rw e refl;
          counted = rw e refl;
          climbs = rw (top, e, only) refl;
        }
    | inl e ↦
        let many : 1 < length level = ground arith in
        let n = length-next_level level in
        let even = (power_halves (length level) many l.power).0 in
        let rest =
          siblings-Proves fuel (next_level sha256 level) (idx / 2) (IsLevel-next_level level many l)
            (omega arith) (omega arith) in
        let s = get_or level (bit_xor idx 1) [] in
        let there = get_elem?-get_or level (bit_xor idx 1) (neighbour_lt level idx many l i) in
        let up = parent level idx many l i in
        record {
          hashes = s ∷ rest.hashes;
          runs = rw (siblings, e, there) (rw rest.runs refl);
          counted = rw e (ap suc (rest.counted ∙ ap (λ k. halvings fuel k) n));
          climbs =
              ap (λ h. climb sha256 h (idx / 2) rest.hashes) (sym up)
              ∙ (rest.climbs ∙ rw (top, e) refl);
        }
  ]

  last_level_some :
      (fuel : ℕ) (level : List Hash) → 0 < length level → 0 < length (last_level sha256 fuel level)
  unfolding last_level
  last_level_some zero level h = h
  last_level_some (suc fuel) level h = elim (Bool-cases (ltb 1 (length level))) [
    | inl e ↦
        rw e
          (last_level_some fuel (next_level sha256 level) (ground (arith, length-next_level level)))
    | inr e ↦ rw e h
  ]

  pub root_lem :
      (leaves : List Hash) → IsLevel leaves → root sha256 leaves ≡ some (top (length leaves) leaves)
  unfolding root
  root_lem leaves l =
      let p = l.power in
      let some_leaf : (length leaves == 0) ≡ false = let s = l.some_hash in ground arith in
      let power : is_power (length leaves) ≡ true = ground arith in
      rw (some_leaf, power)
        (get_elem?-get_or (last_level sha256 (length leaves) leaves) 0
          (last_level_some (length leaves) leaves l.some_hash))

  -- A proof for a leaf that the code gives out and accepts.
  pub record Accepts (leaves : List Hash) (index : ℕ) : Type 0 where
    pub hashes : List Hash
    pub gives : proof sha256 leaves (pos index) ≡ some hashes
    pub tree : Hash
    pub roots : root sha256 leaves ≡ some tree
    pub accepts :
        verify_proof sha256 tree (get_or leaves index []) (pos index) (length leaves) hashes ≡ true

  -- For as many leaves as a power of two, by the test of the code, and each of them: `Proof` gives
  -- a proof, `Root` gives a root, and `VerifyProof` accepts that leaf at its place with both.
  pub verify_proof-proof :
      (leaves : List Hash) (index : ℕ)
      → bit_and (length leaves) (length leaves - 1) ≡ 0
      → index < length leaves
      → Accepts leaves index
  unfolding proof verify_proof bit_len
  verify_proof-proof leaves index power i =
      let l : IsLevel leaves = record { some_hash = omega arith; power = power } in
      let p = siblings-Proves (length leaves) leaves index l i (omega arith) in
      let inside : leb (length leaves) index ≡ false = ground arith in
      let is_pow : is_power (length leaves) ≡ true = ground arith in
      let sized : (suc (length p.hashes) == halvings (length leaves) (length leaves) + 1) ≡ true =
        let c = p.counted in ground arith in
      record {
        hashes = p.hashes;
        gives = rw (is_pow, inside) p.runs;
        tree = top (length leaves) leaves;
        roots = root_lem leaves l;
        accepts =
            rw (is_pow, inside, sized) (rw p.climbs (same_text_refl (top (length leaves) leaves)));
      }
