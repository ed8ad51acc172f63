-- ===== src/Bitfield/Invariant.antt =====
-- The well-formedness of a bitfield, and that every operation keeps it.
use go_torrent.Base.{
  ℕ, zero, suc, ◌+◌, ◌-◌, ◌/◌, ◌%◌, ◌≤◌, ◌<◌, ◌≡◌, ◌≢◌, refl, leb→le, replicate, sym, ap, ◌∙◌, inl,
  inr, bit_or, Bool, true, false, not, ◌&&◌, ◌||◌, leb, ◌==◌, if◌then◌else◌, Bool-cases, List, [],
  ◌∷◌, length, get_or, All, ℤ, pos, negsuc, arith, get_or-All, set-All, length-set, get_or-set_self,
  get_or-set_ne, length-replicate, get_or-replicate, All-replicate,
}
use go_torrent.Base.{set as write_at}
use go_torrent.Bits.{
  bit_mask, test_bit, test_bit-zero, ones_count8, and_not8, test_bit-bit_or, test_bit-and_not8,
  bit_or-lt, and_not8-lt, ones_count8-bit_or, ones_count8-and_not8,
}
use go_torrent.Bitfield.{Bitfield, byte_len, new, popcount, has, set, clear, fill, full}

-- Bit `i` of a byte string, whatever its width.
abbrev pub bit_at : List ℕ → ℕ → Bool
bit_at bits i = test_bit (get_or bits (i / 8) 0) i

pub record IsValid (b : Bitfield) : Type 0 where
  pub width : length b.bits ≡ byte_len (pos b.n)
  pub is_bytes : All (λ x. x < 256) b.bits
  pub counted : b.count ≡ popcount b.bits
  pub padded : (i : ℕ) → b.n ≤ i → bit_at b.bits i ≡ false

byte_lt : (bits : List ℕ) (k : ℕ) → All (λ x. x < 256) bits → get_or bits k 0 < 256
byte_lt bits k h = get_or-All (λ x. x < 256) bits k 0 (omega arith) h

index_lt : (n i : ℕ) → i < n → i / 8 < byte_len (pos n)
unfolding byte_len
index_lt n i h = ground arith

-- What writing one byte does to the bits, for an operation `op` on the byte that holds bit `i`.
bit_at-write_at :
    (bits : List ℕ) (i j v : ℕ)
    → i / 8 < length bits
    → bit_at (write_at bits (i / 8) v) j ≡ (if i / 8 == j / 8 then test_bit v j else bit_at bits j)
bit_at-write_at bits i j v h = elim (Bool-cases (i / 8 == j / 8)) [
  | inl e ↦
      let same : i / 8 ≡ j / 8 = ground arith in rw (e, ← same, get_or-set_self bits (i / 8) v 0 h)
  | inr e ↦
      let other : i / 8 ≢ j / 8 = ground arith in
      rw (e, get_or-set_ne bits (i / 8) (j / 8) v 0 other)
]

same_bit : (i j : ℕ) → i / 8 ≡ j / 8 → (i % 8 == j % 8) ≡ (i == j)
same_bit i j h = ground arith

same_bit_or : (i j : ℕ) (c : Bool) → i / 8 ≡ j / 8 → (i % 8 == j % 8 || c) ≡ (i == j || c)
same_bit_or i j c h = rw (same_bit i j h)

pub bit_at-set :
    (bits : List ℕ) (i j : ℕ)
    → All (λ x. x < 256) bits
    → i / 8 < length bits
    → bit_at (write_at bits (i / 8) (bit_or (get_or bits (i / 8) 0) (bit_mask i))) j
      ≡ (i == j || bit_at bits j)
bit_at-set bits i j hb h =
    bit_at-write_at bits i j _ h
    ∙ ground (
      arith,
      test_bit-bit_or (get_or bits (i / 8) 0) i j (byte_lt bits (i / 8) hb),
      same_bit i j,
      ap (λ k. test_bit (get_or bits k 0) j) {x = i / 8} {y = j / 8},
    )

pub bit_at-clear :
    (bits : List ℕ) (i j : ℕ)
    → All (λ x. x < 256) bits
    → i / 8 < length bits
    → bit_at (write_at bits (i / 8) (and_not8 (get_or bits (i / 8) 0) (bit_mask i))) j
      ≡ (not (i == j) && bit_at bits j)
bit_at-clear bits i j hb h =
    bit_at-write_at bits i j _ h
    ∙ ground (
      arith,
      test_bit-and_not8 (get_or bits (i / 8) 0) i j (byte_lt bits (i / 8) hb),
      same_bit i j,
      ap (λ k. test_bit (get_or bits k 0) j) {x = i / 8} {y = j / 8},
    )

popcount-write_at :
    (bits : List ℕ) (k v : ℕ)
    → k < length bits
    → popcount (write_at bits k v) + ones_count8 (get_or bits k 0) ≡ popcount bits + ones_count8 v
unfolding popcount
popcount-write_at [] k v h = elim h [ ]
popcount-write_at (x ∷ xs) zero v h = omega arith
popcount-write_at (x ∷ xs) (suc k) v h = omega (arith, popcount-write_at xs k v (omega arith))

-- Exactly the indices below `n` whose bit is set are reported.
pub has-bit_at : (b : Bitfield) (i : ℕ) → IsValid b → has b (pos i) ≡ bit_at b.bits i
unfolding has
has-bit_at b i v = elim (Bool-cases (leb b.n i)) [
  | inl e ↦ rw e (sym (v.padded i (leb→le _ _ e)))
  | inr e ↦ rw e
]

module _ (b : Bitfield) (i : ℕ) (v : IsValid b) (h : i < b.n) where
  pub in_width : i / 8 < length b.bits
  in_width = rw v.width (index_lt b.n i h)

  set_bits :
      has b (pos i) ≡ false
      → IsValid (record b {
        bits = write_at b.bits (i / 8) (bit_or (get_or b.bits (i / 8) 0) (bit_mask i));
        count = b.count + 1;
      })
  set_bits off = record {
    width = length-set b.bits (i / 8) _ ∙ v.width;
    is_bytes =
        set-All (λ x. x < 256) b.bits (i / 8) _ (bit_or-lt _ i (byte_lt b.bits (i / 8) v.is_bytes))
          v.is_bytes;
    counted = omega (
      arith,
      v.counted,
      popcount-write_at b.bits (i / 8) (bit_or (get_or b.bits (i / 8) 0) (bit_mask i)) in_width,
      ones_count8-bit_or (get_or b.bits (i / 8) 0) i (byte_lt b.bits (i / 8) v.is_bytes)
          (sym (has-bit_at b i v) ∙ off),
    );
    padded = λ j hj. bit_at-set b.bits i j v.is_bytes in_width ∙ ground (arith, v.padded j hj);
  }

  clear_bits :
      has b (pos i) ≡ true
      → IsValid (record b {
        bits = write_at b.bits (i / 8) (and_not8 (get_or b.bits (i / 8) 0) (bit_mask i));
        count = b.count - 1;
      })
  clear_bits on = record {
    width = length-set b.bits (i / 8) _ ∙ v.width;
    is_bytes =
        set-All (λ x. x < 256) b.bits (i / 8) _
          (and_not8-lt _ i (byte_lt b.bits (i / 8) v.is_bytes)) v.is_bytes;
    counted = omega (
      arith,
      v.counted,
      popcount-write_at b.bits (i / 8) (and_not8 (get_or b.bits (i / 8) 0) (bit_mask i)) in_width,
      ones_count8-and_not8 (get_or b.bits (i / 8) 0) i (byte_lt b.bits (i / 8) v.is_bytes)
          (sym (has-bit_at b i v) ∙ on),
    );
    padded = λ j hj. bit_at-clear b.bits i j v.is_bytes in_width ∙ ground (arith, v.padded j hj);
  }

pub set-IsValid : (b : Bitfield) (i : ℤ) → IsValid b → IsValid (set b i)
unfolding set
set-IsValid b (negsuc k) v = v
set-IsValid b (pos i) v = elim (Bool-cases (leb b.n i || has b (pos i))) [
  | inl e ↦ rw e v
  | inr e ↦ rw e (set_bits b i v (ground arith) (ground arith))
]

pub clear-IsValid : (b : Bitfield) (i : ℤ) → IsValid b → IsValid (clear b i)
unfolding clear
clear-IsValid b (negsuc k) v = v
clear-IsValid b (pos i) v = elim (Bool-cases (leb b.n i || not (has b (pos i)))) [
  | inl e ↦ rw e v
  | inr e ↦ rw e (clear_bits b i v (ground arith) (ground arith))
]

popcount-replicate : (k : ℕ) → popcount (replicate k 0) ≡ 0
unfolding popcount ones_count8
popcount-replicate zero = refl
popcount-replicate (suc k) = omega (arith, popcount-replicate k)

pub bit_at-replicate : (k i : ℕ) → bit_at (replicate k 0) i ≡ false
bit_at-replicate k i = rw (get_or-replicate {A = ℕ} k 0 (i / 8)) (test_bit-zero i)

new_zeros : (n : ℕ) → IsValid (new (pos n))
unfolding new
new_zeros n = record {
  width = length-replicate _ 0;
  is_bytes = All-replicate (λ x. x < 256) _ 0 (omega arith);
  counted = sym (popcount-replicate _);
  padded = λ i h. bit_at-replicate _ i;
}

pub new-IsValid : (n : ℤ) → IsValid (new n)
unfolding new
new-IsValid (pos n) = new_zeros n
new-IsValid (negsuc k) = unfold new in new_zeros 0

pub fill-IsValid : (k : ℕ) (b : Bitfield) → IsValid b → IsValid (fill k b)
unfolding fill
fill-IsValid zero b v = v
fill-IsValid (suc k) b v = set-IsValid (fill k b) (pos k) (fill-IsValid k b v)

pub full-IsValid : (n : ℕ) → IsValid (full n)
unfolding full
full-IsValid n = fill-IsValid n _ (new_zeros n)
