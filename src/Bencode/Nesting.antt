-- ===== src/Bencode/Nesting.antt =====
-- The bound on nesting of internal/bencode/decode.go.
use go_torrent.Base.{ℕ, zero, suc, ◌<◌, ◌≡◌, refl, ◌++◌, arith, replicate, err}
use go_torrent.Bytes.{Bytes}
use go_torrent.Bencode.Scan.{too_deep}
use go_torrent.Bencode.Decode.{max_depth, letter_l, value, list, unmarshal, skip_items, skip_value}

value-lists :
    (levels n : ℕ) (rest : Bytes)
    → levels < n
    → value levels (replicate n letter_l ++ rest) ≡ err too_deep
unfolding value list
value-lists zero n rest h = refl
value-lists (suc levels) zero rest h = absurd (omega arith)
value-lists (suc levels) (suc zero) rest h = absurd (omega arith)
value-lists (suc levels) (suc (suc n)) rest h =
    rw (value-lists levels (suc n) rest (omega arith)) refl

skip_value-lists :
    (levels n : ℕ) (rest : Bytes)
    → levels < n
    → skip_value levels (replicate n letter_l ++ rest) ≡ err too_deep
unfolding skip_value skip_items
skip_value-lists zero n rest h = refl
skip_value-lists (suc levels) zero rest h = absurd (omega arith)
skip_value-lists (suc levels) (suc zero) rest h = absurd (omega arith)
skip_value-lists (suc levels) (suc (suc n)) rest h =
    rw (skip_value-lists levels (suc n) rest (omega arith)) refl

-- An input that opens more than 64 lists inside each other is refused as too deep, whatever
-- follows, both where it is decoded and where it is skipped.
pub too_many_lists :
    (n : ℕ) (rest : Bytes)
    → max_depth < n
    → (unmarshal (replicate n letter_l ++ rest) ≡ err too_deep)
      × (skip_value max_depth (replicate n letter_l ++ rest) ≡ err too_deep)
unfolding unmarshal
too_many_lists n rest h =
    (rw (value-lists max_depth n rest h, unmarshal) refl, skip_value-lists max_depth n rest h)
