-- ===== src/Merkle.antt =====
-- The hash trees of BitTorrent v2: internal/merkle. SHA-256 is a parameter, as a function on byte
-- strings. A `[32]byte` is the string of its bytes; the definitions put no width on it, and a theorem
-- that needs the 32 bytes asks for them. A panic is `none`.
use go_torrent.Base.{
  ℕ, zero, suc, ◌+◌, ◌-◌, ◌*◌, ◌/◌, ◌%◌, bit_and, bit_xor, Bool, false, not, ◌||◌, Option, none,
  some, List, [], ◌∷◌, ◌++◌, ltb, leb, ◌==◌, if◌then◌else◌, length, get_elem?, take, replicate,
  copy, ℤ, pos, negsuc,
}
use go_torrent.Bytes.{Bytes, same_text}
pub mod Proof
pub mod Binding
pub mod Padding
mod Tests

abbrev pub digest_size : ℕ
digest_size = 32

abbrev pub Hash : Type 0
Hash = Bytes

abbrev pub zero_hash : Hash
zero_hash = replicate digest_size 0

-- The loop of `NextPow2`, which doubles `p`.
unfoldable pub double_until : ℕ → ℕ → ℕ → ℕ
double_until zero n p = p
double_until (suc fuel) n p = let rest = double_until fuel n (p * 2) in if ltb p n then rest else p

unfoldable pub next_pow2 : ℕ → ℕ
next_pow2 n = if leb n 1 then 1 else double_until n n 1

unfoldable pub pad_leaves : List Hash → ℕ → List Hash
pad_leaves leaves n =
    if leb n (length leaves) then take n leaves else copy (replicate n zero_hash) leaves

-- `n&(n-1) == 0`; of 0 the left side is 0, whatever is below it.
abbrev pub is_power : ℕ → Bool
is_power n = bit_and n (n - 1) == 0

-- `bitLen`, without its last step.
unfoldable pub halvings : ℕ → ℕ → ℕ
halvings zero n = 0
halvings (suc fuel) n = let rest = halvings fuel (n / 2) in if ltb 1 n then suc rest else 0

unfoldable pub bit_len : ℕ → ℕ
bit_len n = halvings n n + 1

module _ (sha256 : Bytes → Bytes) where
  unfoldable pub leaf_hash : Bytes → Hash
  leaf_hash block = sha256 block

  unfoldable pub combine : Hash → Hash → Hash
  combine l r = sha256 (l ++ r)

  -- The level above one: a hash of each two neighbours.
  unfoldable pub next_level : List Hash → List Hash
  next_level [] = []
  next_level (l ∷ []) = []
  next_level (l ∷ r ∷ level) = combine l r ∷ next_level level

  -- The loop of `Root`. A level has half the hashes of the one below, so their number is fuel enough.
  unfoldable pub last_level : ℕ → List Hash → List Hash
  last_level zero level = level
  last_level (suc fuel) level =
      let rest = last_level fuel (next_level level) in if ltb 1 (length level) then rest else level

  unfoldable pub root : List Hash → Option Hash
  root leaves =
      if length leaves == 0
      then none
      else if not (is_power (length leaves))
      then none
      else get_elem? (last_level (length leaves) leaves) 0

  unfoldable pub piece_root : List Hash → ℕ → Bool → Option Hash
  piece_root leaves blocks_per_piece sole_file_piece =
      root (
        pad_leaves leaves (if sole_file_piece then next_pow2 (length leaves) else blocks_per_piece))

  unfoldable pub file_root : List Hash → ℕ → Option Hash
  file_root piece_roots blocks_per_piece =
      let target = next_pow2 (length piece_roots) in
      if target == length piece_roots
      then root piece_roots
      else elim (piece_root [] blocks_per_piece false) [
        | none ↦ none
        | some zero_piece ↦ root (copy (replicate target zero_piece) piece_roots)
      ]

  -- The loop of `Proof`: the neighbour at each level.
  unfoldable pub siblings : ℕ → List Hash → ℕ → Option (List Hash)
  siblings zero level idx = some []
  siblings (suc fuel) level idx =
      let rest = siblings fuel (next_level level) (idx / 2) in
      if ltb 1 (length level)
      then elim (get_elem? level (bit_xor idx 1)) [
        | none ↦ none
        | some s ↦ elim rest [ none ↦ none | some more ↦ some (s ∷ more) ]
      ]
      else some []

  unfoldable pub proof : List Hash → ℤ → Option (List Hash)
  proof leaves (negsuc k) = none
  proof leaves (pos index) =
      if not (is_power (length leaves))
      then none
      else if leb (length leaves) index
      then none
      else siblings (length leaves) leaves index

  -- The loop of `VerifyProof`.
  unfoldable pub climb : Hash → ℕ → List Hash → Hash
  climb h idx [] = h
  climb h idx (s ∷ more) = climb (if idx % 2 == 0 then combine h s else combine s h) (idx / 2) more

  unfoldable pub verify_proof : Hash → Hash → ℤ → ℕ → List Hash → Bool
  verify_proof top leaf (negsuc k) total_leaves hashes = false
  verify_proof top leaf (pos index) total_leaves hashes =
      if not (is_power total_leaves) || leb total_leaves index
      then false
      else if not (suc (length hashes) == bit_len total_leaves)
      then false
      else same_text (climb leaf index hashes) top
