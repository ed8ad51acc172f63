-- ===== src/Merkle/Tests.antt =====
-- Examples for the hash trees, with the bytes themselves, or a checksum, in place of their hash.
use go_torrent.Base.{
  ℕ, ◌+◌, ◌*◌, ◌%◌, replicate, ◌≡◌, refl, ◌⊎◌, true, none, some, List, [], ◌∷◌, map, arith, get_or,
  pos,
}
use go_torrent.Bytes.{Bytes, same_text}
use go_torrent.Merkle.{
  Hash, zero_hash, double_until, next_pow2, pad_leaves, halvings, bit_len, combine, next_level,
  last_level, root, piece_root, file_root, siblings, proof, climb, verify_proof,
}
use go_torrent.Merkle.Proof.{Accepts, verify_proof-proof}
use go_torrent.Merkle.Binding.{Collision, climbed, built, verify_proof_binds}

abbrev identity : Bytes → Bytes
identity xs = xs

abbrev four : List Hash
four = (1 ∷ []) ∷ (2 ∷ []) ∷ (3 ∷ []) ∷ (4 ∷ []) ∷ []

powers : map next_pow2 (0 ∷ 1 ∷ 2 ∷ 3 ∷ 5 ∷ 8 ∷ []) ≡ 1 ∷ 1 ∷ 2 ∷ 4 ∷ 8 ∷ 8 ∷ []
unfolding next_pow2 double_until
powers = refl

levels : map bit_len (1 ∷ 2 ∷ 4 ∷ 8 ∷ []) ≡ 1 ∷ 2 ∷ 3 ∷ 4 ∷ []
unfolding bit_len halvings
levels = refl

root_of_four : root identity four ≡ some (1 ∷ 2 ∷ 3 ∷ 4 ∷ [])
unfolding root last_level next_level combine
root_of_four = refl

proof_of_third : proof identity four (pos 2) ≡ some ((4 ∷ []) ∷ (1 ∷ 2 ∷ []) ∷ [])
unfolding proof siblings next_level combine
proof_of_third = refl

no_root : root identity ([] ∷ [] ∷ [] ∷ []) ≡ none
unfolding root
no_root = refl

short_file :
    file_root identity ((7 ∷ []) ∷ (8 ∷ []) ∷ (9 ∷ []) ∷ []) 1 ≡ some (7 ∷ 8 ∷ 9 ∷ zero_hash)
unfolding file_root piece_root pad_leaves next_pow2 double_until root last_level next_level combine
short_file = refl

verify_proof-proof_example : Accepts identity four 2
verify_proof-proof_example = verify_proof-proof identity four 2 refl (omega arith)

-- A checksum in place of the hash, with outputs of 32 bytes.
abbrev checksum : Bytes → ℕ
checksum [] = 0
checksum (x ∷ xs) = (x + 3 * checksum xs) % 256

abbrev digest : Bytes → Bytes
digest xs = checksum xs ∷ replicate 31 7

abbrev block : ℕ → Hash
block n = n ∷ replicate 31 0

abbrev blocks : List Hash
blocks = block 1 ∷ block 2 ∷ block 3 ∷ block 4 ∷ []

abbrev path : List Hash
path = block 4 ∷ (3 ∷ replicate 31 7) ∷ []

abbrev tree : Hash
tree = 124 ∷ replicate 31 7

rooted : root digest blocks ≡ some tree
unfolding root last_level next_level combine
rooted = refl

accepted : verify_proof digest tree (block 3) (pos 2) 4 path ≡ true
unfolding verify_proof bit_len halvings climb combine same_text
accepted = refl

verify_proof_binds_example :
    (block 3 ≡ get_or blocks 2 [])
    ⊎ Collision digest (climbed digest (block 3) 2 path) (built digest 2 blocks 2)
verify_proof_binds_example =
    verify_proof_binds digest (λ x. refl) blocks tree (block 3) 2 path
      (refl, (refl, (refl, (refl, tt)))) refl (refl, (refl, tt)) rooted accepted
