-- ===== src/Bencode/RoundTrip.antt =====
-- What internal/bencode/encode.go writes, internal/bencode/decode.go reads back.
use go_torrent.Base.{
  ℕ, zero, suc, ◌+◌, ◌≤◌, ◌<◌, ◌≡◌, refl, ap, ◌∙◌, Bool, true, false, not, false≢true, [], ◌∷◌,
  ◌++◌, append_assoc, arith, ◌==◌, length, length-append, Result, ok,
}
use go_torrent.Bytes.{Bytes}
use go_torrent.Bencode.Number.{is_digit, format_nat, format_int, format_nat-first, limit, IsInt64}
use go_torrent.Bencode.Scan.{
  Error, letter_i, letter_e, colon, scan_string, scan_int-format_int, scan_string-written,
}
use go_torrent.Bencode.Value.{
  Value, Values, Entries, put, depth, depth_items, depth_entries, integer, text, items, entries,
  no_more, more, none_left, entry,
}
use go_torrent.Bencode.Decode.{max_depth, Decoded, value, list, dict_key, dict, unmarshal}
use go_torrent.Bencode.Encode.{
  write_byte_string, write_fields, marshal_value, marshal_list, marshal_fields,
}
use go_torrent.Bencode.Keys.{IsAscending, append, append_one, append_none, put_last, sort-ascending}

-- A value that Go can hold: integers of 64 bits and strings that fit a memory. Of the orders that
-- stand for one map, it has the one by keys.
abbrev mutual
  pub IsValue : Value → Type 0
  IsValue (integer i) = IsInt64 i
  IsValue (text s) = length s < limit
  IsValue (items vs) = AreValues vs
  IsValue (entries es) = IsAscending es × AreFields es

  pub AreValues : Values → Type 0
  AreValues no_more = Unit
  AreValues (more v vs) = IsValue v × AreValues vs

  pub AreFields : Entries → Type 0
  AreFields none_left = Unit
  AreFields (entry k v es) = length k < limit × (IsValue v × AreFields es)

-- The text does not begin with the end of a list.
abbrev pub opens : Bytes → Bool
opens [] = false
opens (c ∷ cs) = not (c == letter_e)

write_byte_string-first :
    (k : Bytes) → (c : ℕ) × (cs : Bytes) × (write_byte_string k ≡ c ∷ cs) × (is_digit c ≡ true)
unfolding write_byte_string
write_byte_string-first k =
    let (c, cs, e, d) = format_nat-first (length k) in (c, cs ++ (colon ∷ k), rw e refl, d)

opens-write_byte_string : (k : Bytes) → opens (write_byte_string k) ≡ true
opens-write_byte_string k = let (c, cs, e, d) = write_byte_string-first k in rw e (ground arith)

opens-marshal_value : (v : Value) → opens (marshal_value v) ≡ true
unfolding marshal_value
opens-marshal_value (integer i) = refl
opens-marshal_value (text s) = opens-write_byte_string s
opens-marshal_value (items vs) = refl
opens-marshal_value (entries es) = refl

scan_string-write_byte_string :
    (k rest : Bytes)
    → length k < limit
    → scan_string (write_byte_string k ++ rest) ≡ ok (record { text = k; rest = rest })
unfolding write_byte_string
scan_string-write_byte_string k rest h =
    rw (append_assoc (format_nat (length k)) (colon ∷ k) rest) (scan_string-written k rest h)

dict_key-write_byte_string :
    (k rest : Bytes)
    → length k < limit
    → dict_key (write_byte_string k ++ rest) ≡ ok (record { text = k; rest = rest })
unfolding dict_key
dict_key-write_byte_string k rest h =
    let (c, cs, e, d) = write_byte_string-first k in
    let scanned = scan_string-write_byte_string k rest h in rw e (rw d (rw e at scanned))

value-text :
    (k rest : Bytes) (levels : ℕ)
    → length k < limit
    → value (suc levels) (write_byte_string k ++ rest) ≡ ok (record { value = text k; rest = rest })
unfolding value
value-text k rest levels h =
    let (c, cs, e, d) = write_byte_string-first k in
    let scanned = scan_string-write_byte_string k rest h in
    let not_i : (c == letter_i) ≡ false = ground arith in
    rw e (let s = rw e at scanned in rw (not_i, d, s) refl)

module _ (element : Bytes → Result Error Decoded) where
  list_step :
      (fuel : ℕ) (xs buf rest : Bytes) (v : Value) (vs : Values)
      → opens xs ≡ true
      → element (xs ++ buf) ≡ ok (record { value = v; rest = buf })
      → list element fuel buf ≡ ok (record { values = vs; rest = rest })
      → list element (suc fuel) (xs ++ buf) ≡ ok (record { values = more v vs; rest = rest })
  unfolding list
  list_step fuel [] buf rest v vs o h more_h = absurd (false≢true o)
  list_step fuel (x ∷ xs) buf rest v vs o h more_h =
      let not_e : (x == letter_e) ≡ false = ground arith in rw (not_e, h, more_h) refl

  dict_step :
      (fuel : ℕ) (xs buf buf' : Bytes) (k : Bytes) (v : Value) (out : Entries)
      → opens xs ≡ true
      → dict_key (xs ++ buf) ≡ ok (record { text = k; rest = buf })
      → element buf ≡ ok (record { value = v; rest = buf' })
      → dict element (suc fuel) out (xs ++ buf) ≡ dict element fuel (put k v out) buf'
  unfolding dict
  dict_step fuel [] buf buf' k v out o hk hv = absurd (false≢true o)
  dict_step fuel (x ∷ xs) buf buf' k v out o hk hv =
      let not_e : (x == letter_e) ≡ false = ground arith in rw (not_e, hk, hv) refl

opens-length : (xs ys : Bytes) → opens xs ≡ true → 1 + length ys ≤ length (xs ++ ys)
opens-length [] ys o = absurd (false≢true o)
opens-length (x ∷ xs) ys o = omega (arith, length-append xs ys)

depth-positive : (v : Value) → 1 ≤ depth v
unfolding depth
depth-positive (integer i) = omega arith
depth-positive (text s) = omega arith
depth-positive (items vs) = omega arith
depth-positive (entries es) = omega arith

mutual
  unfolding marshal_value depth value list dict append write_fields

  pub value-marshal_value :
      (v : Value) (levels : ℕ) (rest : Bytes)
      → IsValue v
      → depth v ≤ levels
      → value levels (marshal_value v ++ rest) ≡ ok (record { value = v; rest = rest })
  value-marshal_value v zero rest h d = absurd (omega (arith, d, depth-positive v))
  value-marshal_value (integer i) (suc levels) rest h d =
      rw (append_assoc (format_int i) (letter_e ∷ []) rest, scan_int-format_int i rest h) refl
  value-marshal_value (text s) (suc levels) rest h d = value-text s rest levels h
  value-marshal_value (items vs) (suc levels) rest h d =
      let buf = marshal_list vs ++ (letter_e ∷ rest) in
      rw
        (
          append_assoc (marshal_list vs) (letter_e ∷ []) rest,
          list-marshal_list vs levels (length buf) rest h (omega arith) (omega arith),
        )
        refl
  value-marshal_value (entries es) (suc levels) rest h d =
      let buf = write_fields (marshal_fields es) ++ (letter_e ∷ rest) in
      rw
        (
          sort-ascending es h.0,
          append_assoc (write_fields (marshal_fields es)) (letter_e ∷ []) rest,
          dict-marshal_fields none_left es levels (length buf) rest h.0 h.1 (omega arith)
              (omega arith),
        )
        refl

  list-marshal_list :
      (vs : Values) (levels fuel : ℕ) (rest : Bytes)
      → AreValues vs
      → depth_items vs ≤ levels
      → length (marshal_list vs ++ (letter_e ∷ rest)) ≤ fuel
      → list (value levels) fuel (marshal_list vs ++ (letter_e ∷ rest))
        ≡ ok (record { values = vs; rest = rest })
  list-marshal_list vs levels zero rest h d l =
      absurd (omega (arith, l, length-append (marshal_list vs) (letter_e ∷ rest)))
  list-marshal_list no_more levels (suc fuel) rest h d l = refl
  list-marshal_list (more v vs) levels (suc fuel) rest h d l =
      let buf = marshal_list vs ++ (letter_e ∷ rest) in
      let same = append_assoc (marshal_value v) (marshal_list vs) (letter_e ∷ rest) in
      rw same (
        list_step (value levels) fuel (marshal_value v) buf rest v vs (opens-marshal_value v)
          (value-marshal_value v levels buf h.0 (omega arith))
          (list-marshal_list vs levels fuel rest h.1 (omega arith) (
            omega (
              arith,
              opens-length (marshal_value v) buf (opens-marshal_value v),
              ap length same,
              l,
            ))))

  dict-marshal_fields :
      (out es : Entries) (levels fuel : ℕ) (rest : Bytes)
      → IsAscending (append out es)
      → AreFields es
      → depth_entries es ≤ levels
      → length (write_fields (marshal_fields es) ++ (letter_e ∷ rest)) ≤ fuel
      → dict (value levels) fuel out (write_fields (marshal_fields es) ++ (letter_e ∷ rest))
        ≡ ok (record { fields = append out es; rest = rest })
  dict-marshal_fields out es levels zero rest s h d l =
      absurd (omega (arith, l, length-append (write_fields (marshal_fields es)) (letter_e ∷ rest)))
  dict-marshal_fields out none_left levels (suc fuel) rest s h d l = rw (append_none out) refl
  dict-marshal_fields out (entry k v es) levels (suc fuel) rest s h d l =
      let name = write_byte_string k in
      let others = write_fields (marshal_fields es) in
      let last = others ++ (letter_e ∷ rest) in
      let buf = marshal_value v ++ last in
      let same : (name ++ (marshal_value v ++ others)) ++ (letter_e ∷ rest) ≡ name ++ buf =
        append_assoc name (marshal_value v ++ others) (letter_e ∷ rest)
        ∙ ap (λ x. name ++ x) (append_assoc (marshal_value v) others (letter_e ∷ rest)) in
      let sorted : IsAscending (append (append out (entry k v none_left)) es) =
        rw (append_one out es k v) s in
      let small : length last ≤ fuel = omega (
        arith,
        ap length same,
        l,
        opens-length name buf (opens-write_byte_string k),
        opens-length (marshal_value v) last (opens-marshal_value v),
      ) in
      rw same (
        dict_step (value levels) fuel name buf last k v out (opens-write_byte_string k)
          (dict_key-write_byte_string k buf h.0)
          (value-marshal_value v levels last h.1.0 (omega arith))
        ∙ (rw (put_last k v out es s) (
            dict-marshal_fields (append out (entry k v none_left)) es levels fuel rest sorted h.1.1
              (omega arith) small
            ∙ (rw (append_one out es k v) refl))))

-- For a value of 64-bit integers, of strings that fit a memory and of maps listed by their keys,
-- nested at most 64 levels, what `Marshal` writes `Unmarshal` reads back as that value, whatever
-- bytes follow.
pub unmarshal-marshal_value :
    (v : Value) (rest : Bytes)
    → IsValue v
    → depth v ≤ max_depth
    → unmarshal (marshal_value v ++ rest) ≡ ok v
unfolding unmarshal
unmarshal-marshal_value v rest h d = rw (value-marshal_value v max_depth rest h d, unmarshal) refl
