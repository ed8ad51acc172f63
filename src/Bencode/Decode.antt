-- ===== src/Bencode/Decode.antt =====
-- The decoder: `Unmarshal` into an `any`, and into a `RawMessage` by `skip`, of internal/bencode/decode.go. The depth counts
-- down from `maxDepth` here; the loops over the elements run on the length of what is left, since
-- each element takes a byte at least.
use go_torrent.Base.{
  ℕ, zero, suc, ◌-◌, ◌||◌, [], ◌∷◌, ◌==◌, if◌then◌else◌, length, take, Result, ok, err,
}
use go_torrent.Bytes.{Bytes}
use go_torrent.Bencode.Number.{is_digit}
use go_torrent.Bencode.Scan.{
  Error, letter_i, letter_e, scan_int, Text, scan_string, syntax, too_deep,
}
use go_torrent.Bencode.Value.{
  Value, Values, Entries, put, integer, text, items, entries, no_more, more, none_left,
}

abbrev pub max_depth : ℕ
max_depth = 64

abbrev pub letter_l : ℕ
letter_l = 108

abbrev pub letter_d : ℕ
letter_d = 100

pub record Decoded : Type 0 where
  pub value : Value
  pub rest : Bytes

pub record DecodedList : Type 0 where
  pub values : Values
  pub rest : Bytes

pub record DecodedDict : Type 0 where
  pub fields : Entries
  pub rest : Bytes

-- The loop of `list`, with `value` one level down.
unfoldable pub list : (Bytes → Result Error Decoded) → ℕ → Bytes → Result Error DecodedList
list element zero buf = err syntax
list element (suc fuel) [] = err syntax
list element (suc fuel) (c ∷ cs) =
    if c == letter_e then ok (record { values = no_more; rest = cs }) else elim (element (c ∷ cs)) [
      | err e ↦ err e
      | ok first ↦ elim (list element fuel first.rest) [
        | err e ↦ err e
        | ok others ↦ ok (record { values = more first.value others.values; rest = others.rest })
      ]
    ]

unfoldable pub dict_key : Bytes → Result Error Text
dict_key [] = err syntax
dict_key (c ∷ cs) = if is_digit c then scan_string (c ∷ cs) else err syntax

-- The loop of `dict`, `out` the map so far.
unfoldable pub dict :
    (Bytes → Result Error Decoded) → ℕ → Entries → Bytes → Result Error DecodedDict
dict element zero out buf = err syntax
dict element (suc fuel) out [] = err syntax
dict element (suc fuel) out (c ∷ cs) =
    if c == letter_e then ok (record { fields = out; rest = cs }) else elim (dict_key (c ∷ cs)) [
      | err e ↦ err e
      | ok key ↦ elim (element key.rest) [
        | err e ↦ err e
        | ok v ↦ dict element fuel (put key.text v.value out) v.rest
      ]
    ]

unfoldable pub value : ℕ → Bytes → Result Error Decoded
value zero buf = err too_deep
value (suc levels) [] = err syntax
value (suc levels) (c ∷ cs) =
    if c == letter_i
    then elim (scan_int cs) [
      | err e ↦ err e
      | ok i ↦ ok (record { value = integer i.int; rest = i.rest })
    ]
    else if is_digit c
    then elim (scan_string (c ∷ cs)) [
      | err e ↦ err e
      | ok t ↦ ok (record { value = text t.text; rest = t.rest })
    ]
    else if c == letter_l
    then elim (list (value levels) (length cs) cs) [
      | err e ↦ err e
      | ok l ↦ ok (record { value = items l.values; rest = l.rest })
    ]
    else if c == letter_d
    then elim (dict (value levels) (length cs) none_left cs) [
      | err e ↦ err e
      | ok d ↦ ok (record { value = entries d.fields; rest = d.rest })
    ]
    else err syntax

-- Bytes after the first value are ignored.
unfoldable pub unmarshal : Bytes → Result Error Value
unmarshal input = elim (value max_depth input) [ err e ↦ err e | ok d ↦ ok d.value ]

-- The loop of `skipValue` over a list or a dictionary.
unfoldable pub skip_items : (Bytes → Result Error Bytes) → ℕ → Bytes → Result Error Bytes
skip_items element zero buf = err syntax
skip_items element (suc fuel) [] = err syntax
skip_items element (suc fuel) (c ∷ cs) =
    if c == letter_e
    then ok cs
    else elim (element (c ∷ cs)) [ err e ↦ err e | ok rest ↦ skip_items element fuel rest ]

unfoldable pub skip_value : ℕ → Bytes → Result Error Bytes
skip_value zero buf = err too_deep
skip_value (suc levels) [] = err syntax
skip_value (suc levels) (c ∷ cs) =
    if c == letter_i
    then elim (scan_int cs) [ err e ↦ err e | ok i ↦ ok i.rest ]
    else if is_digit c
    then elim (scan_string (c ∷ cs)) [ err e ↦ err e | ok t ↦ ok t.rest ]
    else if c == letter_l || c == letter_d
    then skip_items (skip_value levels) (length cs) cs
    else err syntax

-- The bytes that `skip` passes over: those that a `RawMessage` keeps.
unfoldable pub skip : ℕ → Bytes → Result Error Text
skip levels buf = elim (skip_value levels buf) [
  | err e ↦ err e
  | ok rest ↦ ok (record { text = take (length buf - length rest) buf; rest = rest })
]

-- `value` into a `RawMessage`: its own level is counted before those of `skip`.
unfoldable pub raw_value : ℕ → Bytes → Result Error Text
raw_value zero buf = err too_deep
raw_value (suc levels) buf = skip levels buf
