-- ===== src/Utp/Sack.antt =====
-- The selective-ACK bitmask: `sackHasBit` and `setSackBit` of internal/utp/packet.go.
use go_torrent.Base.{
  ℕ, ◌+◌, ◌/◌, ◌%◌, ◌^◌, bit_and, bit_or, Bool, true, false, not, leb, ◌==◌, if◌then◌else◌, length,
  get_or, ℤ, pos, negsuc,
}
use go_torrent.Base.{set as write_at}
use go_torrent.Bytes.{Bytes}
use go_torrent.Utp.Seq.{seq_less, seq_diff}

abbrev pub sack_base : ℕ → ℕ
sack_base ack_nr = (ack_nr + 2) % 65536

-- A distance that is not negative, which the guards before it ensure.
abbrev pub distance : ℤ → ℕ
distance (pos n) = n
distance (negsuc n) = 0

abbrev pub is_negative : ℤ → Bool
is_negative (pos n) = false
is_negative (negsuc n) = true

unfoldable pub sack_has_bit : Bytes → ℕ → ℕ → Bool
sack_has_bit sack ack_nr seq =
    let base = sack_base ack_nr in
    if seq_less seq base
    then false
    else let idx = distance (seq_diff base seq) in
      if leb (length sack) (idx / 8)
      then false
      else not (bit_and (get_or sack (idx / 8) 0) (2 ^ (idx % 8)) == 0)

unfoldable pub set_sack_bit : Bytes → ℕ → ℕ → Bytes
set_sack_bit sack ack_nr seq =
    let base = sack_base ack_nr in
    if is_negative (seq_diff base seq)
    then sack
    else let idx = distance (seq_diff base seq) in
      if leb (length sack) (idx / 8)
      then sack
      else write_at sack (idx / 8) (bit_or (get_or sack (idx / 8) 0) (2 ^ (idx % 8)))
