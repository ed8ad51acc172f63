-- ===== src/Utp/Circle.antt =====
-- Where sequence numbers stand on the circle: internal/utp/seq.go and the mask of packet.go.
use go_torrent.Base.{
  all_below, ℕ, ◌+◌, ◌-◌, ◌/◌, ◌%◌, ◌^◌, ◌<◌, bit_and, bit_or, ◌≡◌, refl, ◌∙◌, ◌≢◌, inl, inr, Bool,
  true, false, not, ◌&&◌, ◌||◌, arith, ltb, leb, ◌==◌, if◌then◌else◌, Bool-cases, all_below_sound,
  length, get_or, length-set, get_or-set_self, get_or-set_ne, get_or-All, pos, negsuc,
}
use go_torrent.Base.{set as write_at}
use go_torrent.Bytes.{Bytes, IsBytes}
use go_torrent.Utp.Sack.{sack_base, sack_has_bit, set_sack_bit}
use go_torrent.Utp.Seq.{sub16, seq_less, seq_diff}

-- `b` is `k` steps ahead of `a`.
abbrev pub ahead : ℕ → ℕ → ℕ
ahead a k = (a + k) % 65536

ahead_lem :
    (a k : ℕ)
    → a < 65536
    → k < 32768
    → (seq_less (ahead a k) a ≡ false) × (seq_diff a (ahead a k) ≡ pos k)
unfolding seq_less seq_diff
ahead_lem a k ha lt =
    let forth : sub16 (ahead a k) a ≡ k = omega arith in rw forth (ground arith, ground arith)

-- A number ahead by less than half the circle is later, not earlier, and the signed difference both
-- ways is the number of steps.
pub seq_less-ahead :
    (a k : ℕ)
    → a < 65536
    → 0 < k
    → k < 32768
    → (seq_less a (ahead a k) ≡ true)
      × (seq_less (ahead a k) a ≡ false)
      × (seq_diff a (ahead a k) ≡ pos k)
      × (seq_diff (ahead a k) a ≡ negsuc (k - 1))
unfolding seq_less seq_diff
seq_less-ahead a k ha hk lt =
    let forth : sub16 (ahead a k) a ≡ k = omega arith in
    let back : sub16 a (ahead a k) ≡ 65536 - k = omega arith in
    rw (forth, back) (ground arith, ground arith, ground arith, ground arith)

bit_or_table :
    all_below 256 (λ x. all_below 8 (λ i. all_below 8 (λ j.
      if bit_and (bit_or x (2 ^ i)) (2 ^ j) == 0
      then not (i == j) && bit_and x (2 ^ j) == 0
      else i == j || not (bit_and x (2 ^ j) == 0))))
    ≡ true
unfolding all_below
bit_or_table = refl

bit_or-bit :
    (x i j : ℕ)
    → x < 256
    → i < 8
    → j < 8
    → not (bit_and (bit_or x (2 ^ i)) (2 ^ j) == 0) ≡ (i == j || not (bit_and x (2 ^ j) == 0))
bit_or-bit x i j hx hi hj =
    let h =
      all_below_sound 8 _ (all_below_sound 8 _ (all_below_sound 256 _ bit_or_table x hx) i hi) j
        hj in
    ground arith

byte_lt : (xs : Bytes) (i : ℕ) → IsBytes xs → get_or xs i 0 < 256
byte_lt xs i h = get_or-All (λ x. x < 256) xs i 0 (omega arith) h

-- The bit of the mask at distance `k` from its base.
abbrev mask_bit : Bytes → ℕ → Bool
mask_bit sack k =
    if leb (length sack) (k / 8)
    then false
    else not (bit_and (get_or sack (k / 8) 0) (2 ^ (k % 8)) == 0)

base_lt : (ack_nr : ℕ) → sack_base ack_nr < 65536
base_lt ack_nr = omega arith

sack_has_bit-ahead :
    (sack : Bytes) (ack_nr k : ℕ)
    → k < 32768
    → sack_has_bit sack ack_nr (ahead (sack_base ack_nr) k) ≡ mask_bit sack k
unfolding sack_has_bit
sack_has_bit-ahead sack ack_nr k lt =
    let facts = ahead_lem (sack_base ack_nr) k (base_lt ack_nr) lt in rw (facts.0, facts.1) refl

mask_bit-write :
    (sack : Bytes) (k j : ℕ)
    → IsBytes sack
    → k / 8 < length sack
    → mask_bit (write_at sack (k / 8) (bit_or (get_or sack (k / 8) 0) (2 ^ (k % 8)))) j
      ≡ (k == j || mask_bit sack j)
mask_bit-write sack k j b h = elim (Bool-cases (k / 8 == j / 8)) [
  | inl e ↦
      let same : k / 8 ≡ j / 8 = ground arith in
      rw
        (
          length-set sack (k / 8) (bit_or (get_or sack (k / 8) 0) (2 ^ (k % 8))),
          ← same,
          get_or-set_self sack (k / 8) (bit_or (get_or sack (k / 8) 0) (2 ^ (k % 8))) 0 h,
        )
        (ground (
          arith,
          bit_or-bit (get_or sack (k / 8) 0) (k % 8) (j % 8) (byte_lt sack (k / 8) b) (omega arith)
              (omega arith),
        ))
  | inr e ↦
      let other : k / 8 ≢ j / 8 = ground arith in
      rw
        (
          length-set sack (k / 8) (bit_or (get_or sack (k / 8) 0) (2 ^ (k % 8))),
          get_or-set_ne sack (k / 8) (j / 8) (bit_or (get_or sack (k / 8) 0) (2 ^ (k % 8))) 0 other,
        )
        (ground arith)
]

-- Within half the circle from the base of the mask, marking a sequence number as received marks
-- that one, where the mask reaches it, and no other.
pub sack_has_bit-set_sack_bit :
    (sack : Bytes) (ack_nr k j : ℕ)
    → IsBytes sack
    → k < 32768
    → j < 32768
    → sack_has_bit
        (set_sack_bit sack ack_nr (ahead (sack_base ack_nr) k))
        ack_nr
        (ahead (sack_base ack_nr) j)
      ≡ (k == j && ltb (k / 8) (length sack)
          || sack_has_bit sack ack_nr (ahead (sack_base ack_nr) j))
unfolding set_sack_bit
sack_has_bit-set_sack_bit sack ack_nr k j b hk hj =
    let facts = ahead_lem (sack_base ack_nr) k (base_lt ack_nr) hk in
    rw (facts.1, sack_has_bit-ahead sack ack_nr j hj)
      (elim (Bool-cases (leb (length sack) (k / 8))) [
        | inl e ↦ rw (e, sack_has_bit-ahead sack ack_nr j hj) (ground arith)
        | inr e ↦
            rw (e, sack_has_bit-ahead _ ack_nr j hj)
              (mask_bit-write sack k j b (ground arith) ∙ ground arith)
      ])
