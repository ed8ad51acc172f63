-- ===== src/Dht/Closest.antt =====
-- What `FindClosest` of internal/dht/table.go returns.
use go_torrent.Base.{
  sort_by, ℕ, suc, ◌+◌, ◌≤◌, ◌<◌, min, ◌≡◌, refl, sym, ap, ◌∙◌, Bool, true, false, List, [], ◌∷◌,
  arith, ltb, length, take, drop, All, length-take, All-drop, All-take, IsSorted, sort_by-All,
  count_if, count_if-sort_by, length-sort_by, sort_by-IsSorted, IsSorted-take, take-IsSorted,
  count_if-take-drop,
}
use go_torrent.Bits.Xor.{bit_xor-lt}
use go_torrent.Dht.Id.{NodeId, xor}
use go_torrent.Dht.Table.{NodeAddr, Table, all_contacts, closer, find_closest}
use go_torrent.Dht.Distance.{value, less-value}

-- A `NodeId`, which in the source is an array of 20 bytes.
abbrev pub IsNodeId : NodeId → Type 0
IsNodeId id = (length id ≡ 20) × All (λ x. x < 256) id

xor_lem :
    (a b : NodeId)
    → length a ≡ length b
    → All (λ x. x < 256) a
    → All (λ x. x < 256) b
    → (length (xor a b) ≡ length a) × All (λ x. x < 256) (xor a b)
unfolding xor
xor_lem [] [] e ha hb = (refl, tt)
xor_lem [] (b ∷ bs) e ha hb = absurd (omega arith)
xor_lem (a ∷ as') [] e ha hb = absurd (omega arith)
xor_lem (a ∷ as') (b ∷ bs) e ha hb =
    let rest = xor_lem as' bs (omega arith) ha.1 hb.1 in
    (ap suc rest.0, (bit_xor-lt a b ha.0 hb.0, rest.1))

abbrev distance : NodeId → NodeAddr → ℕ
distance target n = value (xor target n.id)

module _ (target : NodeId) (t_id : IsNodeId target) where
  closer-ltb :
      (a b : NodeAddr)
      → IsNodeId a.id
      → IsNodeId b.id
      → closer target a b ≡ ltb (distance target a) (distance target b)
  unfolding closer
  closer-ltb a b ha hb =
      let xa = xor_lem target a.id (t_id.0 ∙ sym ha.0) t_id.1 ha.1 in
      let xb = xor_lem target b.id (t_id.0 ∙ sym hb.0) t_id.1 hb.1 in
      less-value (xor target a.id) (xor target b.id) (xa.0 ∙ sym xb.0) xa.1 xb.1

  closer_asym :
      (a b : NodeAddr)
      → IsNodeId a.id
      → IsNodeId b.id
      → closer target a b ≡ true
      → closer target b a ≡ false
  closer_asym a b ha hb h = ground (arith, closer-ltb a b ha hb, closer-ltb b a hb ha)

  closer_through :
      (a b c : NodeAddr)
      → IsNodeId a.id
      → IsNodeId b.id
      → IsNodeId c.id
      → closer target b a ≡ false
      → closer target c b ≡ false
      → closer target c a ≡ false
  closer_through a b c ha hb hc h h' =
      ground (arith, closer-ltb b a hb ha, closer-ltb c b hc hb, closer-ltb c a hc ha)

  -- `found` is the `k` nodes of `all` that are closest to the target, nearest first: `rest` is what is
  -- left out, and nothing there is closer than anything found.
  pub record IsClosest (k : ℕ) (all found rest : List NodeAddr) : Type 0 where
    pub taken : length found ≡ min k (length all)
    pub ordered : IsSorted (closer target) found
    pub from_all :
        (p : NodeAddr → Bool)
        → count_if (closer target) p found + count_if (closer target) p rest
          ≡ count_if (closer target) p all
    pub nearest : All (λ x. All (λ y. distance target x ≤ distance target y) rest) found

  no_closer :
      (x : NodeAddr) (rest : List NodeAddr)
      → IsNodeId x.id
      → All (λ n. IsNodeId n.id) rest
      → All (λ y. closer target y x ≡ false) rest
      → All (λ y. distance target x ≤ distance target y) rest
  no_closer x [] hx hr h = tt
  no_closer x (y ∷ ys) hx hr h =
      (ground (arith, closer-ltb y x hr.0 hx, h.0), no_closer x ys hx hr.1 h.1)

  nearest_lem :
      (found rest : List NodeAddr)
      → All (λ n. IsNodeId n.id) found
      → All (λ n. IsNodeId n.id) rest
      → All (λ x. All (λ y. closer target y x ≡ false) rest) found
      → All (λ x. All (λ y. distance target x ≤ distance target y) rest) found
  nearest_lem [] rest hf hr h = tt
  nearest_lem (x ∷ xs) rest hf hr h =
      (no_closer x rest hf.0 hr h.0, nearest_lem xs rest hf.1 hr h.1)

  -- `FindClosest` returns the contacts of the table whose distance to the target, as a number, is
  -- least, nearest first, and as many as were asked for or are there.
  pub find_closest-IsClosest :
      (t : Table) (k : ℕ)
      → All (λ n. IsNodeId n.id) (all_contacts t)
      → IsClosest k
          (all_contacts t)
          (find_closest t target k)
          (drop k (sort_by (closer target) (all_contacts t)))
  unfolding find_closest
  find_closest-IsClosest t k h =
      let all = all_contacts t in
      let sorted = sort_by (closer target) all in
      let ids = sort_by-All (closer target) (λ n. IsNodeId n.id) all h in
      let order =
        sort_by-IsSorted (closer target) (λ n. IsNodeId n.id) closer_asym closer_through all h in
      record {
        taken = length-take k sorted ∙ ap (min k) (length-sort_by (closer target) all);
        ordered = take-IsSorted (closer target) k sorted order;
        from_all = λ p.
            count_if-take-drop (closer target) p k sorted ∙ count_if-sort_by (closer target) p all;
        nearest =
            nearest_lem (take k sorted) (drop k sorted) (All-take _ k sorted ids)
              (All-drop _ k sorted ids) (IsSorted-take (closer target) k sorted order);
      }
