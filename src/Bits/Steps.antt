-- ===== src/Bits/Steps.antt =====
-- `&` and `^` of numbers without a bound on their bits, by their lowest digits.
use Prim.Native.Nat.{differ, digits, bitwise, bit_and-bitwise, bit_xor-bitwise}
use go_torrent.Base.{
  ℕ, zero, suc, ◌+◌, ◌-◌, ◌*◌, ◌/◌, ◌%◌, ◌≤◌, ◌<◌, min, bit_and, bit_xor, ◌≡◌, refl, inl, inr,
  arith, ltb, ◌==◌, if◌then◌else◌, Bool-cases,
}

module _ (z : ℕ → ℕ) (f : ℕ → ℕ → ℕ) where
  -- More rounds than the number has digits change nothing.
  digits-more : (k n m a b : ℕ) → a ≤ n → a ≤ m → n + m ≤ k → digits z f n a b ≡ digits z f m a b
  digits-more k zero zero a b p q e = refl
  digits-more k zero (suc m) zero b p q e = refl
  digits-more k zero (suc m) (suc a) b p q e = absurd (omega arith)
  digits-more k (suc n) zero zero b p q e = refl
  digits-more k (suc n) zero (suc a) b p q e = absurd (omega arith)
  digits-more k (suc n) (suc m) zero b p q e = refl
  digits-more k (suc n) (suc m) (suc a) b p q e =
      rw (digits-more k n m (suc a / 2) (b / 2) (omega arith) (omega arith) (omega arith)) refl

  bitwise-halves :
      (a b : ℕ)
      → bitwise z f (suc a) b ≡ bitwise z f (suc a / 2) (b / 2) * 2 + f (suc a % 2) (b % 2)
  bitwise-halves a b =
      let e =
        digits-more (a + suc a) a (suc a / 2) (suc a / 2) (b / 2) (omega arith) (omega arith)
          (omega arith) in
      omega (arith, e)

bit_xor-halves : (a b : ℕ) → bit_xor a b ≡ bit_xor (a / 2) (b / 2) * 2 + differ (a % 2) (b % 2)
bit_xor-halves zero b = simp bit_xor-bitwise (omega arith)
bit_xor-halves (suc a) b = simp bit_xor-bitwise (bitwise-halves (λ y. y) differ a b)

bit_and-halves : (a b : ℕ) → bit_and a b ≡ bit_and (a / 2) (b / 2) * 2 + min (a % 2) (b % 2)
bit_and-halves zero b = simp bit_and-bitwise (omega arith)
bit_and-halves (suc a) b = simp bit_and-bitwise (bitwise-halves (λ y. 0) min a b)

bit_and-same : (k a : ℕ) → a ≤ k → bit_and a a ≡ a
bit_and-same zero a h = let e : a ≡ 0 = omega arith in rw e (simp bit_and-bitwise refl)
bit_and-same (suc k) a h = elim (Bool-cases (ltb 0 a)) [
  | inl e ↦ ground (arith, bit_and-halves a a, bit_and-same k (a / 2) (ground arith))
  | inr e ↦ let is : a ≡ 0 = ground arith in rw is (simp bit_and-bitwise refl)
]

differ-zero : (x : ℕ) → differ x 0 ≡ x
differ-zero zero = refl
differ-zero (suc x) = refl

bit_xor-zero : (k a : ℕ) → a ≤ k → bit_xor a 0 ≡ a
bit_xor-zero zero a h = let e : a ≡ 0 = omega arith in rw e (simp bit_xor-bitwise refl)
bit_xor-zero (suc k) a h = elim (Bool-cases (ltb 0 a)) [
  | inl e ↦
      ground (arith, bit_xor-halves a 0, bit_xor-zero k (a / 2) (ground arith), differ-zero (a % 2))
  | inr e ↦ let is : a ≡ 0 = ground arith in rw is (simp bit_xor-bitwise refl)
]

-- `x ^ 1` is the neighbour of `x`.
pub bit_xor-one : (x : ℕ) → bit_xor x 1 ≡ (if x % 2 == 0 then 2 * (x / 2) + 1 else 2 * (x / 2))
bit_xor-one x =
    let step : bit_xor x 1 ≡ bit_xor (x / 2) 0 * 2 + differ (x % 2) 1 = bit_xor-halves x 1 in
    let rest = bit_xor-zero (x / 2) (x / 2) (omega arith) in
    elim (Bool-cases (x % 2 == 0)) [
      | inl e ↦
          let even : x % 2 ≡ 0 = ground arith in
          let s = rw (even, rest) at step in rw e (omega (arith, s))
      | inr e ↦
          let odd : x % 2 ≡ 1 = ground arith in
          let s = rw (odd, rest) at step in rw e (omega (arith, s))
    ]

-- `x & (x - 1) == 0` holds of 1 and, of the numbers above, of the doubles of those it holds of.
pub power_halves :
    (n : ℕ) → 1 < n → bit_and n (n - 1) ≡ 0 → (n ≡ 2 * (n / 2)) × (bit_and (n / 2) (n / 2 - 1) ≡ 0)
power_halves n h e =
    let step = bit_and-halves n (n - 1) in
    let same = bit_and-same (n / 2) (n / 2) (omega arith) in
    elim (Bool-cases (n % 2 == 0)) [
      | inl even ↦
          let half : (n - 1) / 2 ≡ n / 2 - 1 = ground arith in
          let s = rw half at step in (ground arith, omega (arith, s, e))
      | inr odd ↦
          let half : (n - 1) / 2 ≡ n / 2 = ground arith in
          let s = rw half at step in absurd (omega (arith, s, same, e))
    ]

pub power_doubles : (p : ℕ) → 0 < p → bit_and p (p - 1) ≡ 0 → bit_and (p * 2) (p * 2 - 1) ≡ 0
power_doubles p h e =
    let step = bit_and-halves (p * 2) (p * 2 - 1) in
    let a : p * 2 / 2 ≡ p = omega arith in
    let b : (p * 2 - 1) / 2 ≡ p - 1 = omega arith in
    let s = rw (a, b, e) at step in omega (arith, s)
