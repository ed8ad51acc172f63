-- ===== src/Dht/Distance.antt =====
-- The order of distances: `less` of internal/dht/id.go is the order of the numbers.
use go_torrent.Base.{
  ℕ, suc, ◌+◌, ◌*◌, ◌^◌, ◌≤◌, ◌<◌, ◌≡◌, sym, ◌≢◌, inl, inr, [], ◌∷◌, arith, ltb, ◌==◌, lt→ltb,
  le→ltb_false, Bool-cases, length, All,
}
use go_torrent.Dht.Id.{NodeId, less}

-- The number that the bytes write in big-endian order.
pub value : NodeId → ℕ
value [] = 0
value (a ∷ as') = a * 256 ^ length as' + value as'

value-lt : (a : NodeId) → All (λ x. x < 256) a → value a < 256 ^ length a
unfolding value
value-lt [] h = omega arith
value-lt (a ∷ as') h = grind (arith, value-lt as' h.1, h.0)

ltb-add : (m x y : ℕ) → ltb x y ≡ ltb (m + x) (m + y)
ltb-add m x y = ground arith

-- A digit that differs decides, whatever is below it.
ltb-digits : (a b m x y : ℕ) → a ≢ b → x < m → y < m → ltb a b ≡ ltb (a * m + x) (b * m + y)
ltb-digits a b m x y ne hx hy = elim (Bool-cases (ltb a b)) [
  | inl e ↦
      let lt : suc a ≤ b = ground arith in
      let above : suc a * m ≤ b * m = grind arith in rw e (sym (lt→ltb _ _ (grind arith)))
  | inr e ↦
      let lt : suc b ≤ a = ground arith in
      let above : suc b * m ≤ a * m = grind arith in rw e (sym (le→ltb_false _ _ (grind arith)))
]

-- `less` compares two identifiers of one length as the big-endian numbers they are.
pub less-value :
    (a b : NodeId)
    → length a ≡ length b
    → All (λ x. x < 256) a
    → All (λ x. x < 256) b
    → less a b ≡ ltb (value a) (value b)
unfolding less value
less-value [] [] e ha hb = ground arith
less-value [] (b ∷ bs) e ha hb = absurd (omega arith)
less-value (a ∷ as') [] e ha hb = absurd (omega arith)
less-value (a ∷ as') (b ∷ bs) e ha hb =
    let e' : length as' ≡ length bs = omega arith in
    let ih = less-value as' bs e' ha.1 hb.1 in
    elim (Bool-cases (a == b)) [
      | inl same ↦
          let is : a ≡ b = ground arith in
          rw (same, is, ih, e') (ltb-add (b * 256 ^ length bs) (value as') (value bs))
      | inr other ↦
          rw (other, ← e')
            (ltb-digits a b (256 ^ length as') (value as') (value bs) (ground arith)
              (value-lt as' ha.1) (rw e' (value-lt bs hb.1)))
    ]
