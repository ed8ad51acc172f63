-- ===== src/Dht/Id.antt =====
-- Identifiers and their distance: internal/dht/id.go. A `NodeId` is a list of 20 bytes.
use go_torrent.Base.{
  ℕ, zero, suc, ◌+◌, ◌-◌, ◌*◌, ◌^◌, bit_and, bit_xor, Bool, true, false, not, ◌&&◌, Option, none,
  some, List, [], ◌∷◌, ltb, ◌==◌, if◌then◌else◌,
}

abbrev pub NodeId : Type 0
NodeId = List ℕ

unfoldable pub xor : NodeId → NodeId → NodeId
xor [] bs = []
xor (a ∷ as') [] = []
xor (a ∷ as') (b ∷ bs) = bit_xor a b ∷ xor as' bs

unfoldable pub less : NodeId → NodeId → Bool
less [] bs = false
less (a ∷ as') [] = false
less (a ∷ as') (b ∷ bs) = let rest = less as' bs in if a == b then rest else ltb a b

-- Go's `==` on two arrays.
unfoldable pub same_id : NodeId → NodeId → Bool
same_id [] [] = true
same_id (a ∷ as') (b ∷ bs) = a == b && same_id as' bs
same_id _ _ = false

-- `for bit := 7; bit >= 0; bit--`, with `bit + 1` rounds left: the place of the first bit set.
unfoldable pub first_bit : ℕ → ℕ → Option ℕ
first_bit x zero = none
first_bit x (suc bit) =
    let rest = first_bit x bit in if not (bit_and x (2 ^ bit) == 0) then some (7 - bit) else rest

-- The loop of `commonPrefixLen` from byte `i`.
unfoldable pub prefix_from : ℕ → NodeId → NodeId → ℕ
prefix_from i [] bs = i * 8
prefix_from i (a ∷ as') [] = i * 8
prefix_from i (a ∷ as') (b ∷ bs) =
    let rest = prefix_from (i + 1) as' bs in
    let x = bit_xor a b in
    if x == 0 then rest else elim (first_bit x 8) [ some k ↦ i * 8 + k | none ↦ rest ]

unfoldable pub common_prefix_len : NodeId → NodeId → ℕ
common_prefix_len a b = prefix_from 0 a b
