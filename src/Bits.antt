-- ===== src/Bits.antt =====
-- The bits of one byte, most significant first, and the table lemmas on masks that the bit-level
-- components share. Each table is checked by evaluation at every value of its range.
pub mod Xor
pub mod Steps
use go_torrent.Base.{
  ℕ, ◌+◌, ◌-◌, ◌/◌, ◌%◌, ◌^◌, ◌<◌, bit_and, bit_or, bit_xor, ◌≡◌, refl, sym, ap, ◌∙◌, Bool, true,
  false, not, ◌&&◌, ◌||◌, ==_iff, ◌==◌, if◌then◌else◌, all_below, all_below_sound, ltb, leb, ltb→lt,
  arith,
}

-- `1 << (7 - uint(i)%8)`
abbrev pub bit_mask : ℕ → ℕ
bit_mask i = 2 ^ (7 - i % 8)

-- `x & (1 << (7 - j)) != 0`
unfoldable pub test_bit : ℕ → ℕ → Bool
test_bit x j = not (bit_and x (bit_mask j) == 0)

-- `bits.OnesCount8`
unfoldable pub ones_count8 : ℕ → ℕ
ones_count8 x =
    x % 2 + x / 2 % 2 + x / 4 % 2 + x / 8 % 2 + x / 16 % 2 + x / 32 % 2 + x / 64 % 2 + x / 128 % 2

-- `x &^ m` on a byte.
abbrev pub and_not8 : ℕ → ℕ → ℕ
and_not8 x m = bit_and x (bit_xor m 255)

abbrev bool_eq : Bool → Bool → Bool
bool_eq true b = b
bool_eq false b = not b

bool_eq→eq : (a b : Bool) → bool_eq a b ≡ true → a ≡ b
bool_eq→eq true b h = ground arith
bool_eq→eq false b h = ground arith

abbrev table : (ℕ → ℕ → Bool) → Bool
table p = all_below 256 (λ x. all_below 8 (λ k. p x k))

table_sound : (p : ℕ → ℕ → Bool) → table p ≡ true → (x k : ℕ) → x < 256 → k < 8 → p x k ≡ true
table_sound p h x k hx hk =
    all_below_sound 8 (λ k. p x k) (all_below_sound 256 (λ x. all_below 8 (λ k. p x k)) h x hx) k hk

or_bits :
    table (λ x k.
      all_below 8 (λ j. bool_eq (test_bit (bit_or x (bit_mask k)) j) (k == j || test_bit x j)))
    ≡ true
unfolding all_below test_bit
or_bits = refl

clear_bits :
    table (λ x k.
      all_below 8
        (λ j. bool_eq (test_bit (and_not8 x (bit_mask k)) j) (not (k == j) && test_bit x j)))
    ≡ true
unfolding all_below test_bit
clear_bits = refl

or_range : table (λ x k. ltb (bit_or x (bit_mask k)) 256) ≡ true
unfolding all_below
or_range = refl

clear_range : table (λ x k. ltb (and_not8 x (bit_mask k)) 256) ≡ true
unfolding all_below
clear_range = refl

or_ones :
    table (λ x k.
      ones_count8 (bit_or x (bit_mask k))
      == (if test_bit x k then ones_count8 x else ones_count8 x + 1))
    ≡ true
unfolding all_below ones_count8 test_bit
or_ones = refl

clear_ones :
    table (λ x k.
      ones_count8 (and_not8 x (bit_mask k)) + (if test_bit x k then 1 else 0) == ones_count8 x)
    ≡ true
unfolding all_below ones_count8 test_bit
clear_ones = refl

abbrev pub bit_of : ℕ → ℕ → ℕ
bit_of x j = if test_bit x j then 1 else 0

digit_sum :
    all_below 256 (λ x.
      ones_count8 x
      == bit_of x 7
        + (bit_of x 6
            + (bit_of x 5
                + (bit_of x 4 + (bit_of x 3 + (bit_of x 2 + (bit_of x 1 + (bit_of x 0 + 0))))))))
    ≡ true
unfolding all_below ones_count8 test_bit
digit_sum = refl

-- A bit number counts from the front of its own byte.
pub test_bit-mod : (x i : ℕ) → test_bit x i ≡ test_bit x (i % 8)
unfolding test_bit
test_bit-mod x i = let e : i % 8 % 8 ≡ i % 8 = omega arith in rw e

bit_mask-mod : (i : ℕ) → bit_mask i ≡ bit_mask (i % 8)
bit_mask-mod i = let e : i % 8 % 8 ≡ i % 8 = omega arith in rw e

pub test_bit-bit_or :
    (x i j : ℕ) → x < 256 → test_bit (bit_or x (bit_mask i)) j ≡ (i % 8 == j % 8 || test_bit x j)
test_bit-bit_or x i j hx =
    test_bit-mod _ j
    ∙ ap (λ m. test_bit (bit_or x m) (j % 8)) (bit_mask-mod i)
    ∙ bool_eq→eq _ _ (
        all_below_sound 8 _ (table_sound _ or_bits x (i % 8) hx (omega arith)) (j % 8)
          (omega arith))
    ∙ ap (λ b. i % 8 == j % 8 || b) (sym (test_bit-mod x j))

pub test_bit-and_not8 :
    (x i j : ℕ)
    → x < 256
    → test_bit (and_not8 x (bit_mask i)) j ≡ (not (i % 8 == j % 8) && test_bit x j)
test_bit-and_not8 x i j hx =
    test_bit-mod _ j
    ∙ ap (λ m. test_bit (and_not8 x m) (j % 8)) (bit_mask-mod i)
    ∙ bool_eq→eq _ _ (
        all_below_sound 8 _ (table_sound _ clear_bits x (i % 8) hx (omega arith)) (j % 8)
          (omega arith))
    ∙ ap (λ b. not (i % 8 == j % 8) && b) (sym (test_bit-mod x j))

pub bit_or-lt : (x i : ℕ) → x < 256 → bit_or x (bit_mask i) < 256
bit_or-lt x i hx =
    rw (bit_mask-mod i) (ltb→lt _ _ (table_sound _ or_range x (i % 8) hx (omega arith)))

pub and_not8-lt : (x i : ℕ) → x < 256 → and_not8 x (bit_mask i) < 256
and_not8-lt x i hx =
    rw (bit_mask-mod i) (ltb→lt _ _ (table_sound _ clear_range x (i % 8) hx (omega arith)))

pub ones_count8-bit_or :
    (x i : ℕ)
    → x < 256
    → test_bit x i ≡ false
    → ones_count8 (bit_or x (bit_mask i)) ≡ ones_count8 x + 1
ones_count8-bit_or x i hx h =
    let h' : test_bit x (i % 8) ≡ false = sym (test_bit-mod x i) ∙ h in
    rw (bit_mask-mod i) ((==_iff _ _).0 (table_sound _ or_ones x (i % 8) hx (omega arith)) ∙ rw h')

pub ones_count8-and_not8 :
    (x i : ℕ)
    → x < 256
    → test_bit x i ≡ true
    → ones_count8 (and_not8 x (bit_mask i)) + 1 ≡ ones_count8 x
ones_count8-and_not8 x i hx h =
    let h' : test_bit x (i % 8) ≡ true = sym (test_bit-mod x i) ∙ h in
    rw (bit_mask-mod i)
      (rw h' at ((==_iff _ _).0 (table_sound _ clear_ones x (i % 8) hx (omega arith))))

pub ones_count8-digits :
    (x : ℕ)
    → x < 256
    → ones_count8 x
      ≡ bit_of x 7
        + (bit_of x 6
            + (bit_of x 5
                + (bit_of x 4 + (bit_of x 3 + (bit_of x 2 + (bit_of x 1 + (bit_of x 0 + 0)))))))
ones_count8-digits x hx = (==_iff _ _).0 (all_below_sound 256 _ digit_sum x hx)

-- The low bits of a byte, those from bit `s` on, under the mask `0xFF >> s`.
low_mask :
    table (λ x s.
      bool_eq (bit_and x (255 / 2 ^ s) == 0) (all_below 8 (λ j. not (leb s j && test_bit x j))))
    ≡ true
unfolding all_below test_bit
low_mask = refl

pub low_mask_clear :
    (x s : ℕ)
    → x < 256
    → s < 8
    → (bit_and x (255 / 2 ^ s) == 0) ≡ all_below 8 (λ j. not (leb s j && test_bit x j))
low_mask_clear x s hx hs = bool_eq→eq _ _ (table_sound _ low_mask x s hx hs)

zero_bits : all_below 8 (λ j. not (test_bit 0 j)) ≡ true
unfolding all_below test_bit
zero_bits = refl

pub test_bit-zero : (j : ℕ) → test_bit 0 j ≡ false
test_bit-zero j =
    let off : not (test_bit 0 (j % 8)) ≡ true =
      all_below_sound 8 _ zero_bits (j % 8) (omega arith) in
    test_bit-mod 0 j ∙ ground arith
