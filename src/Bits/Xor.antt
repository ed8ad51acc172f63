-- ===== src/Bits/Xor.antt =====
-- Exclusive or on bytes, decided by evaluation at every pair of bytes.
use go_torrent.Base.{
  all_below, ℕ, ◌<◌, bit_xor, ◌≡◌, refl, Bool, true, ◌&&◌, arith, ltb, ◌==◌, all_below_sound,
}

pairs_sound :
    (p : ℕ → ℕ → Bool)
    → all_below 256 (λ x. all_below 256 (λ y. p x y)) ≡ true
    → (x y : ℕ) → x < 256
    → y < 256
    → p x y ≡ true
pairs_sound p h x y hx hy =
    all_below_sound 256 (λ y. p x y) (all_below_sound 256 (λ x. all_below 256 (λ y. p x y)) h x hx)
      y hy

xor_table :
    all_below 256 (λ x. all_below 256 (λ y. ltb (bit_xor x y) 256 && bit_xor (bit_xor x y) y == x))
    ≡ true
unfolding all_below
xor_table = refl

xor_pair :
    (x y : ℕ) → x < 256 → y < 256 → (ltb (bit_xor x y) 256 && bit_xor (bit_xor x y) y == x) ≡ true
xor_pair x y hx hy =
    pairs_sound (λ x y. ltb (bit_xor x y) 256 && bit_xor (bit_xor x y) y == x) xor_table x y hx hy

pub bit_xor-lt : (x y : ℕ) → x < 256 → y < 256 → bit_xor x y < 256
bit_xor-lt x y hx hy = let h = xor_pair x y hx hy in ground arith

pub bit_xor_twice : (x y : ℕ) → x < 256 → y < 256 → bit_xor (bit_xor x y) y ≡ x
bit_xor_twice x y hx hy = let h = xor_pair x y hx hy in ground arith
