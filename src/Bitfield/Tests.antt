-- ===== src/Bitfield/Tests.antt =====
-- Runs of the bitfield, and the theorems at concrete inputs.
use go_torrent.Base.{ℕ, ◌≡◌, ◌↔◌, refl, true, List, [], ◌∷◌, ok, err, pos, arith}
use go_torrent.Bits.{test_bit, ones_count8}
use go_torrent.Bitfield.{
  Bitfield, Visit, new, set, has, from_bytes, byte_len, spare_bits_set, has_spare_bits, recount,
  popcount,
}
use go_torrent.Bitfield.Invariant.{IsValid}
use go_torrent.Bitfield.Wire.{from_bytes_iff}

ten : Bitfield
ten = new (pos 10)

set_third : (set ten (pos 3)).bits ≡ 16 ∷ 0 ∷ []
unfolding ten set new has byte_len test_bit
set_third = refl

padding_refused : from_bytes (255 ∷ 255 ∷ []) 10 ≡ err spare_bits_set
unfolding from_bytes has_spare_bits byte_len
padding_refused = refl

padding_accepted :
    from_bytes (255 ∷ 192 ∷ []) 10 ≡ ok (record { bits = 255 ∷ 192 ∷ []; n = 10; count = 10 })
unfolding from_bytes has_spare_bits byte_len recount popcount ones_count8
padding_accepted = refl

abbrev accepted : Bitfield
accepted = record { bits = 255 ∷ 192 ∷ []; n = 10; count = 10 }

from_bytes_iff_example :
    (from_bytes (255 ∷ 192 ∷ []) 10 ≡ ok accepted)
    ↔ (IsValid accepted × (accepted.bits ≡ 255 ∷ 192 ∷ []) × (accepted.n ≡ 10))
from_bytes_iff_example = from_bytes_iff (255 ∷ 192 ∷ []) 10 accepted (omega arith)

-- Collects the indices, latest first.
collect : List ℕ → ℕ → Visit (List ℕ)
collect seen i = record { state = i ∷ seen; go_on = true }
