-- ===== src/Bitfield/Counting.antt =====
-- The cached popcount against the set of indices.
use go_torrent.Base.{
  ℕ, zero, suc, ◌+◌, ◌*◌, ◌/◌, ◌%◌, ◌≤◌, ◌<◌, ◌≡◌, ◌↔◌, refl, sym, ap, ◌∙◌, fun_ext, Bool, true,
  false, ◌==◌, if◌then◌else◌, Bool-cases, inl, inr, List, [], ◌∷◌, All, length, get_or, pos, arith,
}
use go_torrent.Bits.{test_bit, test_bit-mod, ones_count8, ones_count8-digits}
use go_torrent.Bitfield.{Bitfield, byte_len, has, complete, popcount}
use go_torrent.Bitfield.Invariant.{IsValid, bit_at, has-bit_at}

-- How many indices below `k` pass the test.
pub count_below : (ℕ → Bool) → ℕ → ℕ
count_below p zero = 0
count_below p (suc k) = (if p k then 1 else 0) + count_below p k

count_below-add :
    (p : ℕ → Bool) (k d : ℕ)
    → count_below p (k + d) ≡ count_below p d + count_below (λ i. p (i + d)) k
unfolding count_below
count_below-add p zero d = let e : 0 + d ≡ d = omega arith in rw e (omega arith)
count_below-add p (suc k) d =
    let e : suc k + d ≡ suc (k + d) = omega arith in rw e (omega (arith, count_below-add p k d))

pub bit_at_next : (x : ℕ) (xs : List ℕ) (i : ℕ) → bit_at (x ∷ xs) (i + 8) ≡ bit_at xs i
bit_at_next x xs i =
    let next_byte : (i + 8) / 8 ≡ suc (i / 8) = omega arith in
    let same : (i + 8) % 8 ≡ i % 8 = omega arith in
    rw next_byte
      (test_bit-mod _ (i + 8) ∙ ap (test_bit (get_or xs (i / 8) 0)) same ∙ sym (test_bit-mod _ i))

first_byte : (x : ℕ) (xs : List ℕ) → x < 256 → count_below (bit_at (x ∷ xs)) 8 ≡ ones_count8 x
unfolding count_below
first_byte x xs h = sym (ones_count8-digits x h)

popcount-count_below :
    (bits : List ℕ)
    → All (λ x. x < 256) bits
    → popcount bits ≡ count_below (bit_at bits) (length bits * 8)
unfolding popcount
popcount-count_below [] h = unfold count_below in refl
popcount-count_below (x ∷ xs) h =
    let split : suc (length xs) * 8 ≡ length xs * 8 + 8 = omega arith in
    rw (split, count_below-add (bit_at (x ∷ xs)) (length xs * 8) 8, fun_ext (bit_at_next x xs))
      (omega (arith, first_byte x xs h.0, popcount-count_below xs h.1))

count_below_stops :
    (p : ℕ → Bool) (n m : ℕ)
    → ((i : ℕ) → n ≤ i → p i ≡ false)
    → n ≤ m
    → count_below p m ≡ count_below p n
unfolding count_below
count_below_stops p n zero off h = let e : n ≡ 0 = omega arith in rw e
count_below_stops p n (suc m) off h = elim (Bool-cases (n == suc m)) [
  | inl e ↦ let e' : n ≡ suc m = ground arith in rw e'
  | inr e ↦
      let le : n ≤ m = ground arith in rw (off m le) (omega (arith, count_below_stops p n m off le))
]

-- The cached count is the number of indices that `Has` reports.
pub count-has : (b : Bitfield) → IsValid b → b.count ≡ count_below (λ i. has b (pos i)) b.n
unfolding byte_len
count-has b v =
    v.counted
    ∙ popcount-count_below b.bits v.is_bytes
    ∙ rw (fun_ext (λ i. has-bit_at b i v)) (
        count_below_stops (bit_at b.bits) b.n _ v.padded
          (rw v.width (unfold byte_len in ground arith)))

count_below-le : (p : ℕ → Bool) (k : ℕ) → count_below p k ≤ k
unfolding count_below
count_below-le p zero = omega arith
count_below-le p (suc k) = ground (arith, count_below-le p k)

pub all_counted : (p : ℕ → Bool) (k : ℕ) → count_below p k ≡ k → (i : ℕ) → i < k → p i ≡ true
unfolding count_below
all_counted p zero e i h = elim h [ ]
all_counted p (suc k) e i h = elim (Bool-cases (i == k)) [
  | inl same ↦ let is : i ≡ k = ground arith in rw is (ground (arith, count_below-le p k))
  | inr other ↦ all_counted p k (ground (arith, count_below-le p k)) i (ground arith)
]

pub count_all : (p : ℕ → Bool) (k : ℕ) → ((i : ℕ) → i < k → p i ≡ true) → count_below p k ≡ k
unfolding count_below
count_all p zero h = refl
count_all p (suc k) h =
    rw (h k (omega arith)) (omega (arith, count_all p k (λ i lt. h i (omega arith))))

pub none_counted : (p : ℕ → Bool) (k : ℕ) → count_below p k ≡ 0 → (i : ℕ) → i < k → p i ≡ false
unfolding count_below
none_counted p zero e i h = elim h [ ]
none_counted p (suc k) e i h = elim (Bool-cases (i == k)) [
  | inl same ↦ let is : i ≡ k = ground arith in rw is (ground arith)
  | inr other ↦ none_counted p k (ground arith) i (ground arith)
]

-- A valid bitfield is complete exactly when it has a piece and lacks none.
pub complete_iff :
    (b : Bitfield)
    → IsValid b
    → (complete b ≡ true) ↔ ((0 < b.n) × ((i : ℕ) → i < b.n → has b (pos i) ≡ true))
unfolding complete
complete_iff b v = (
  (λ e. (ground arith, all_counted (λ i. has b (pos i)) b.n (sym (count-has b v) ∙ ground arith))),
  (λ h.
      let all : b.count ≡ b.n = count-has b v ∙ count_all (λ i. has b (pos i)) b.n h.1 in
      let some_piece : 0 < b.n = h.0 in ground arith),
)
