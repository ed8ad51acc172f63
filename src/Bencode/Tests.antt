-- ===== src/Bencode/Tests.antt =====
-- Runs of the decoder, and the theorems at concrete inputs.
use go_torrent.Base.{
  insert_by, sort_by, ◌≤◌, ◌≡◌, refl, [], ◌∷◌, ◌++◌, arith, replicate, pos, negsuc, ok, err,
}
use go_torrent.Bencode.Number.{
  digits_upto, format_nat, format_int, parse_digits, parse_nat, parse_int,
}
use go_torrent.Bytes.{same_text, Bytes}
use go_torrent.Bencode.Scan.{
  letter_e, index_of, all_digits, check_body, check_integer_text, scan_int, syntax, too_deep,
}
use go_torrent.Bencode.Value.{
  Value, depth, integer, text, items, entries, no_more, more, none_left, entry,
}
use go_torrent.Bencode.Decode.{
  max_depth, letter_l, Decoded, value, list, dict_key, dict, unmarshal, skip_items, skip_value,
  skip, raw_value,
}
use go_torrent.Bencode.Encode.{write_byte_string, less_text, write_fields, marshal_value}
use go_torrent.Bencode.RoundTrip.{IsValue, unmarshal-marshal_value}
use go_torrent.Bencode.Progress.{loops_enough}
use go_torrent.Bencode.Skipping.{raw_value-marshal_value}
use go_torrent.Bencode.Nesting.{too_many_lists}

-- {"a": [-5, "xy"], "b": {}}
abbrev sample : Value
sample = entries (
    entry (97 ∷ []) (items (more (integer (negsuc 4)) (more (text (120 ∷ 121 ∷ [])) no_more)))
      (entry (98 ∷ []) (entries none_left) none_left))

sample-IsValue : IsValue sample
unfolding less_text
sample-IsValue = (
  ((refl, tt), (tt, tt)),
  (omega arith, ((omega arith, (omega arith, tt)), (omega arith, ((tt, tt), tt)))),
)

sample-depth : depth sample ≤ max_depth
unfolding depth
sample-depth = omega arith

-- d1:ali-5e2:xye1:bdee
abbrev written : Bytes
written =
    100 ∷ 49 ∷ 58 ∷ 97 ∷ 108 ∷ 105 ∷ 45 ∷ 53 ∷ 101 ∷ 50 ∷ 58 ∷ 120 ∷ 121 ∷ 101 ∷ 49 ∷ 58 ∷ 98 ∷ 100
    ∷ 101 ∷ 101 ∷ []

sample_written : marshal_value sample ≡ written
unfolding marshal_value write_fields sort_by insert_by less_text write_byte_string format_nat
    digits_upto format_int
sample_written = refl

unmarshal-marshal_value_example : unmarshal (marshal_value sample ++ (0 ∷ [])) ≡ ok sample
unmarshal-marshal_value_example =
    unmarshal-marshal_value sample (0 ∷ []) sample-IsValue sample-depth

raw_value-marshal_value_example :
    raw_value max_depth (marshal_value sample ++ (0 ∷ []))
    ≡ ok (record { text = marshal_value sample; rest = 0 ∷ [] })
raw_value-marshal_value_example =
    raw_value-marshal_value sample max_depth (0 ∷ []) sample-IsValue (unfold depth in (omega arith))

-- One level less than `value` itself takes.
raw_too_deep : raw_value max_depth (replicate 64 letter_l ++ replicate 64 letter_e) ≡ err too_deep
unfolding raw_value skip skip_value skip_items
raw_too_deep = refl

-- i1ee after an l
abbrev one_number : Bytes
one_number = 105 ∷ 49 ∷ 101 ∷ 101 ∷ []

loops_enough_example :
    (list (value 64) 7 one_number ≡ list (value 64) 4 one_number)
    × (dict (value 64) 7 none_left one_number ≡ dict (value 64) 4 none_left one_number)
loops_enough_example = loops_enough 64 7 none_left one_number (omega arith)

too_many_lists_example :
    (unmarshal (replicate 65 letter_l ++ (letter_e ∷ [])) ≡ err too_deep)
    × (skip_value max_depth (replicate 65 letter_l ++ (letter_e ∷ [])) ≡ err too_deep)
too_many_lists_example = too_many_lists 65 (letter_e ∷ []) (omega arith)

-- di1ei2ee
abbrev numbered : Bytes
numbered = 100 ∷ 105 ∷ 49 ∷ 101 ∷ 105 ∷ 50 ∷ 101 ∷ 101 ∷ []

keys_are_not_checked_by_skip : (skip_value 64 numbered ≡ ok []) × (unmarshal numbered ≡ err syntax)
unfolding skip_value skip_items unmarshal value dict dict_key scan_int index_of check_integer_text
    same_text check_body all_digits parse_int parse_nat parse_digits
keys_are_not_checked_by_skip = (refl, refl)

abbrev listed : Decoded
listed = record { value = items (more (integer (pos 1)) no_more); rest = [] }

listed_decoded : value 3 (letter_l ∷ one_number) ≡ ok listed
unfolding value list scan_int index_of check_integer_text same_text check_body all_digits parse_int
    parse_nat parse_digits
listed_decoded = refl
