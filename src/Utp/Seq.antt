-- ===== src/Utp/Seq.antt =====
-- Sequence numbers, which wrap at 2 ^ 16: internal/utp/seq.go.
use go_torrent.Base.{ℕ, ◌+◌, ◌-◌, ◌%◌, Bool, ◌||◌, ltb, leb, ◌==◌, if◌then◌else◌, ℤ, pos, negsuc}

-- `a - b` on a uint16.
abbrev pub sub16 : ℕ → ℕ → ℕ
sub16 a b = (a + 65536 - b) % 65536

-- `int16(x) < 0`: the top bit is set.
unfoldable pub seq_less : ℕ → ℕ → Bool
seq_less a b = leb 32768 (sub16 a b)

unfoldable pub seq_less_eq : ℕ → ℕ → Bool
seq_less_eq a b = a == b || seq_less a b

-- `int32(int16(b - a))`.
unfoldable pub seq_diff : ℕ → ℕ → ℤ
seq_diff a b = if ltb (sub16 b a) 32768 then pos (sub16 b a) else negsuc (65535 - sub16 b a)
