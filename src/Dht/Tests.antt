-- ===== src/Dht/Tests.antt =====
-- Runs of the routing table, and the theorems at concrete inputs.
use go_torrent.Base.{
  sort_by, ℕ, ◌<◌, ◌≡◌, refl, List, [], ◌∷◌, arith, drop, replicate, All-replicate,
}
use go_torrent.Dht.Id.{NodeId, first_bit, prefix_from, common_prefix_len}
use go_torrent.Dht.Table.{NodeAddr, Table, new_table, all_nodes, all_contacts, closer, find_closest}
use go_torrent.Dht.Closest.{IsNodeId, IsClosest, find_closest-IsClosest}
use go_torrent.Dht.Changes.{IsValid, Change, changed, changed-new_table, heard, failed}

abbrev me : NodeId
me = replicate 20 0

abbrev near : NodeId
near = 0 ∷ 16 ∷ replicate 18 7

abbrev far : NodeId
far = replicate 20 255

shared : common_prefix_len me near ≡ 11
unfolding common_prefix_len prefix_from first_bit
shared = refl

abbrev heard_two : List Change
heard_two = heard 5 far 1 ∷ heard 6 near 2 ∷ failed far ∷ []

changed-new_table_example : IsValid (changed (new_table me) heard_two)
changed-new_table_example = changed-new_table me heard_two

abbrev two : Table
two = record {
  self = me;
  buckets =
      (record { id = far; addr = 1; last_seen = 5; failed_queries = 0 } ∷ [])
      ∷ (record { id = near; addr = 2; last_seen = 6; failed_queries = 0 } ∷ [])
      ∷ [];
}

abbrev both : List NodeAddr
both = record { id = far; addr = 1 } ∷ record { id = near; addr = 2 } ∷ []

me-IsNodeId : IsNodeId me
me-IsNodeId = (refl, All-replicate {A = ℕ} (λ x. x < 256) 20 0 (omega arith))

find_closest-IsClosest_example :
    IsClosest me me-IsNodeId 1
      (all_contacts two)
      (find_closest two me 1)
      (drop 1 (sort_by (closer me) (all_contacts two)))
unfolding all_contacts all_nodes
find_closest-IsClosest_example = find_closest-IsClosest me me-IsNodeId two 1 (
  (refl, All-replicate {A = ℕ} (λ x. x < 256) 20 255 (omega arith)),
  (
    (refl, (omega arith, (omega arith, All-replicate {A = ℕ} (λ x. x < 256) 18 7 (omega arith)))),
    tt,
  ),
)
