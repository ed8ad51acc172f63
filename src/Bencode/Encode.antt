-- ===== src/Bencode/Encode.antt =====
-- The encoder on such values: `marshalValue`, `writeByteString`, `marshalList` and `marshalMap` of
-- internal/bencode/encode.go. What is written into the buffer is the list of its bytes.
use go_torrent.Base.{
  sort_by, Bool, true, false, List, [], ◌∷◌, ◌++◌, ltb, ◌==◌, if◌then◌else◌, length,
}
use go_torrent.Bytes.{Bytes}
use go_torrent.Bencode.Number.{format_nat, format_int}
use go_torrent.Bencode.Scan.{letter_i, letter_e, colon}
use go_torrent.Bencode.Value.{
  Value, Values, Entries, integer, text, items, entries, no_more, more, none_left, entry,
}
use go_torrent.Bencode.Decode.{letter_l, letter_d}

unfoldable pub write_byte_string : Bytes → Bytes
write_byte_string b = format_nat (length b) ++ (colon ∷ b)

-- The order of Go's strings.
unfoldable pub less_text : Bytes → Bytes → Bool
less_text [] [] = false
less_text [] (d ∷ ds) = true
less_text (c ∷ cs) [] = false
less_text (c ∷ cs) (d ∷ ds) = if c == d then less_text cs ds else ltb c d

-- An entry of a map with its value as it is written.
pub record Field : Type 0 where
  pub key : Bytes
  pub written : Bytes

abbrev pub key_less : Field → Field → Bool
key_less f g = less_text f.key g.key

unfoldable pub write_fields : List Field → Bytes
write_fields [] = []
write_fields (f ∷ fs) = write_byte_string f.key ++ (f.written ++ write_fields fs)

unfoldable mutual
  pub marshal_value : Value → Bytes
  marshal_value (integer i) = letter_i ∷ (format_int i ++ (letter_e ∷ []))
  marshal_value (text s) = write_byte_string s
  marshal_value (items vs) = letter_l ∷ (marshal_list vs ++ (letter_e ∷ []))
  marshal_value (entries es) =
      letter_d ∷ (write_fields (sort_by key_less (marshal_fields es)) ++ (letter_e ∷ []))

  pub marshal_list : Values → Bytes
  marshal_list no_more = []
  marshal_list (more v vs) = marshal_value v ++ marshal_list vs

  pub marshal_fields : Entries → List Field
  marshal_fields none_left = []
  marshal_fields (entry k v es) = record { key = k; written = marshal_value v } ∷ marshal_fields es
