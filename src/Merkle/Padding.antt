-- ===== src/Merkle/Padding.antt =====
-- The sizes to which internal/merkle/tree.go pads the levels.
use go_torrent.Base.{
  ℕ, zero, suc, ◌+◌, ◌-◌, ◌*◌, ◌≤◌, ◌<◌, bit_and, ◌≡◌, refl, ◌∙◌, inl, inr, Bool, true, false, some,
  List, [], arith, ltb, leb, ◌==◌, Bool-cases, length, replicate, copy, length-replicate,
  length-take, length-copy,
}
use go_torrent.Bytes.{Bytes}
use go_torrent.Bits.Steps.{power_doubles}
use go_torrent.Merkle.{
  Hash, zero_hash, double_until, next_pow2, pad_leaves, root, piece_root, file_root,
}
use go_torrent.Merkle.Proof.{IsLevel, root_lem}

-- A power of two from a number on.
record Reaches (n p : ℕ) : Type 0 where
  above : n ≤ p
  positive : 0 < p
  power : bit_and p (p - 1) ≡ 0

double_until-Reaches :
    (fuel n p : ℕ)
    → 0 < p
    → bit_and p (p - 1) ≡ 0
    → n ≤ p + fuel
    → Reaches n (double_until fuel n p)
unfolding double_until
double_until-Reaches zero n p h e enough = record { above = omega arith; positive = h; power = e }
double_until-Reaches (suc fuel) n p h e enough = elim (Bool-cases (ltb p n)) [
  | inl more ↦
      rw more
        (double_until-Reaches fuel n (p * 2) (omega arith) (power_doubles p h e) (omega arith))
  | inr done ↦
      let here : Reaches n p = record { above = ground arith; positive = h; power = e } in
      rw done here
]

next_pow2-Reaches : (n : ℕ) → Reaches n (next_pow2 n)
unfolding next_pow2
next_pow2-Reaches n = elim (Bool-cases (leb n 1)) [
  | inl e ↦
      let one : Reaches n 1 = record {
        above = ground arith;
        positive = omega arith;
        power = refl;
      } in
      rw e one
  | inr e ↦ rw e (double_until-Reaches n n 1 (omega arith) refl (omega arith))
]

length-padded : (n : ℕ) (h : Hash) (hs : List Hash) → length (copy (replicate n h) hs) ≡ n
length-padded n h hs = length-copy (replicate n h) hs ∙ length-replicate n h

length-pad_leaves : (leaves : List Hash) (n : ℕ) → length (pad_leaves leaves n) ≡ n
unfolding pad_leaves
length-pad_leaves leaves n = elim (Bool-cases (leb n (length leaves))) [
  | inl e ↦ rw e (ground (arith, length-take n leaves))
  | inr e ↦ rw e (length-padded n zero_hash leaves)
]

module _ (sha256 : Bytes → Bytes) where
  root_returns :
      (leaves : List Hash) (n : ℕ)
      → length leaves ≡ n
      → 0 < n
      → bit_and n (n - 1) ≡ 0
      → (h : Hash) × (root sha256 leaves ≡ some h)
  root_returns leaves n e some_leaf power =
      let l : IsLevel sha256 leaves = record { some_hash = omega arith; power = rw e power } in
      (_, root_lem sha256 leaves l)

  piece_root_returns :
      (leaves : List Hash) (blocks_per_piece : ℕ) (sole : Bool)
      → 0 < blocks_per_piece
      → bit_and blocks_per_piece (blocks_per_piece - 1) ≡ 0
      → (h : Hash) × (piece_root sha256 leaves blocks_per_piece sole ≡ some h)
  unfolding piece_root
  piece_root_returns leaves blocks_per_piece true h e =
      let r = next_pow2-Reaches (length leaves) in
      root_returns _ (next_pow2 (length leaves)) (length-pad_leaves leaves _) r.positive r.power
  piece_root_returns leaves blocks_per_piece false h e =
      root_returns _ blocks_per_piece (length-pad_leaves leaves _) h e

  -- For pieces of a power of two of blocks, the roots of the pieces of a file always have a root.
  pub file_root_returns :
      (piece_roots : List Hash) (blocks_per_piece : ℕ)
      → 0 < blocks_per_piece
      → bit_and blocks_per_piece (blocks_per_piece - 1) ≡ 0
      → (h : Hash) × (file_root sha256 piece_roots blocks_per_piece ≡ some h)
  unfolding file_root
  file_root_returns piece_roots blocks_per_piece h e =
      let n = length piece_roots in
      let r = next_pow2-Reaches n in
      elim (Bool-cases (next_pow2 n == n)) [
        | inl same ↦
            let is : n ≡ next_pow2 n = ground arith in
            let (x, f) = root_returns piece_roots (next_pow2 n) is r.positive r.power in
            (x, rw same f)
        | inr differs ↦
            let (z, zero_piece) = piece_root_returns [] blocks_per_piece false h e in
            let (x, f) =
              root_returns (copy (replicate (next_pow2 n) z) piece_roots) (next_pow2 n)
                (length-padded (next_pow2 n) z piece_roots) r.positive r.power in
            (x, rw (differs, zero_piece) f)
      ]
