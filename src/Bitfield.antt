-- ===== src/Bitfield.antt =====
-- internal/bitfield/bitfield.go: the piece bitmap. A byte slice is a list of numbers, a piece
-- index is an integer, and a method returns the new bitfield. `bits[i/8]` is read with a default
-- of 0, which `IsValid.width` of Bitfield/Invariant.antt keeps out of reach.
pub mod Invariant
pub mod Indexed
pub mod Counting
pub mod Wire
pub mod Iteration
mod Tests
use go_torrent.Base.{
  Result, ok, err, ℕ, zero, suc, ◌+◌, ◌-◌, ◌*◌, ◌/◌, ◌%◌, ◌^◌, bit_and, bit_or, Bool, true, false,
  not, ◌&&◌, ◌||◌, ltb, leb, ◌==◌, if◌then◌else◌, List, [], ◌∷◌, length, get_or, replicate, copy, ℤ,
  pos, negsuc,
}
use go_torrent.Base.{set as write_at}
use go_torrent.Bits.{bit_mask, test_bit, ones_count8, and_not8}

pub record Bitfield : Type 0 where
  pub bits : List ℕ
  pub n : ℕ
  pub count : ℕ

-- `(n + 7) / 8` is 0 at n = 0 as well.
unfoldable pub byte_len : ℤ → ℕ
byte_len (negsuc k) = 0
byte_len (pos n) = if n == 0 then 0 else (n + 7) / 8

unfoldable pub new : ℤ → Bitfield
new (negsuc k) = record { bits = replicate (byte_len (pos 0)) 0; n = 0; count = 0 }
new (pos n) = record { bits = replicate (byte_len (pos n)) 0; n = n; count = 0 }

unfoldable pub popcount : List ℕ → ℕ
popcount [] = 0
popcount (x ∷ xs) = ones_count8 x + popcount xs

unfoldable pub recount : Bitfield → Bitfield
unfolding popcount
recount b = record b { count = popcount b.bits }

pub data Error : Type 0 where
  wrong_width spare_bits_set : Error

-- `mask := byte(0xFF >> spare)`; the last byte is tested against it.
unfoldable pub has_spare_bits : List ℕ → ℕ → Bool
has_spare_bits raw n =
    not (n % 8 == 0)
    && (ltb 0 (byte_len (pos n))
        && not (bit_and (get_or raw (byte_len (pos n) - 1) 0) (255 / 2 ^ (n % 8)) == 0))

-- The width is a piece count, which is never negative.
unfoldable pub from_bytes : List ℕ → ℕ → Result Error Bitfield
from_bytes raw n =
    if not (length raw == byte_len (pos n))
    then err wrong_width
    else if has_spare_bits raw n
    then err spare_bits_set
    else ok (recount (record { bits = raw; n = n; count = 0 }))

unfoldable pub complete : Bitfield → Bool
complete b = ltb 0 b.n && b.count == b.n

unfoldable pub empty : Bitfield → Bool
empty b = b.count == 0

unfoldable pub has : Bitfield → ℤ → Bool
has b (negsuc k) = false
has b (pos i) = if leb b.n i then false else test_bit (get_or b.bits (i / 8) 0) i

unfoldable pub set : Bitfield → ℤ → Bitfield
unfolding has
set b (negsuc k) = b
set b (pos i) = if leb b.n i || has b (pos i) then b else record b {
  bits = write_at b.bits (i / 8) (bit_or (get_or b.bits (i / 8) 0) (bit_mask i));
  count = b.count + 1;
}

unfoldable pub clear : Bitfield → ℤ → Bitfield
unfolding has
clear b (negsuc k) = b
clear b (pos i) = if leb b.n i || not (has b (pos i)) then b else record b {
  bits = write_at b.bits (i / 8) (and_not8 (get_or b.bits (i / 8) 0) (bit_mask i));
  count = b.count - 1;
}

-- `for i := 0; i < n; i++ { b.Set(i) }`, by the rounds done.
unfoldable pub fill : ℕ → Bitfield → Bitfield
unfolding set
fill zero b = b
fill (suc i) b = set (fill i b) (pos i)

unfoldable pub full : ℕ → Bitfield
unfolding fill new byte_len
full n = fill n (new (pos n))

unfoldable pub copy_from : Bitfield → List ℕ → Result Error Bitfield
copy_from b raw = elim (from_bytes raw b.n) [
  | err e ↦ err e
  | ok r ↦ ok (record b { bits = copy b.bits r.bits; count = r.count })
]

-- `bits.LeadingZeros8(x)`: 8 at zero.
unfoldable pub leading_zeros8 : ℕ → ℕ
leading_zeros8 x =
    if leb 128 x
    then 0
    else if leb 64 x
    then 1
    else if leb 32 x
    then 2
    else if leb 16 x
    then 3
    else if leb 8 x
    then 4
    else if leb 4 x
    then 5
    else if leb 2 x
    then 6
    else if leb 1 x
    then 7
    else 8

-- Where an iteration with a callback stands: the callback's own state, and whether it may go on.
pub record Visit {ℓ} (S : Type ℓ) : Type ℓ where
  pub state : S
  pub go_on : Bool

module _ {ℓ} {S : Type ℓ} (fn : S → ℕ → Visit S) (n : ℕ) where
  -- `for x != 0 { … }`: each round clears one bit, so eight rounds are enough for a byte.
  unfoldable pub each_bit : ℕ → ℕ → ℕ → S → Visit S
  each_bit zero byte_index x s = record { state = s; go_on = true }
  each_bit (suc fuel) byte_index x s =
      if x == 0
      then record { state = s; go_on = true }
      else let bit = leading_zeros8 x in
        let i = byte_index * 8 + bit in
        if leb n i then record { state = s; go_on = false } else elim (fn s i).go_on [
          | false ↦ record { state = (fn s i).state; go_on = false }
          | true ↦ each_bit fuel byte_index (and_not8 x (bit_mask bit)) (fn s i).state
        ]

  unfoldable pub each_byte : ℕ → List ℕ → S → Visit S
  each_byte byte_index [] s = record { state = s; go_on = true }
  each_byte byte_index (x ∷ xs) s =
      let r = each_bit 8 byte_index x s in
      elim r.go_on [ false ↦ r | true ↦ each_byte (byte_index + 1) xs r.state ]

unfoldable pub each {ℓ} : {S : Type ℓ} → (S → ℕ → Visit S) → Bitfield → S → S
each fn b s = (each_byte fn b.n 0 b.bits s).state
