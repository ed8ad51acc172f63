-- ===== src/Bencode/Skipping.antt =====
-- `skip` of internal/bencode/decode.go against `value`: what a `RawMessage` keeps.
use go_torrent.Base.{
  ℕ, zero, suc, ◌-◌, ◌≤◌, ◌<◌, ◌≡◌, refl, ◌∙◌, inl, inr, true, false, false≢true, [], ◌∷◌, ◌++◌,
  arith, ◌==◌, Bool-cases, length, length-append, take-append_length, Result, Result-cases, ok, err,
}
use go_torrent.Bencode.Value.{Value, Entries, put, depth, none_left}
use go_torrent.Bencode.Encode.{marshal_value}
use go_torrent.Bencode.RoundTrip.{IsValue, opens, value-marshal_value}
use go_torrent.Bencode.Progress.{dict_key-Shorter, value-Shorter}
use go_torrent.Bytes.{Bytes}
use go_torrent.Bencode.Number.{is_digit}
use go_torrent.Bencode.Scan.{
  Error, letter_i, letter_e, scan_int, Text, scan_string, syntax, too_deep,
}
use go_torrent.Bencode.Decode.{
  letter_l, letter_d, Decoded, value, list, dict_key, dict, skip_items, skip_value, skip, raw_value,
}

-- Where decoding succeeds, skipping ends at the same place.
abbrev pub Follows : {A : Type 0} → (A → Bytes) → Result Error Bytes → Result Error A → Type 0
Follows rest_of skipped (err e) = Unit
Follows rest_of skipped (ok a) = skipped ≡ ok (rest_of a)

module _ (levels : ℕ)
    (follows : (buf : Bytes)
      → Follows (λ d. d.rest) (skip_value levels buf) (value levels buf)) where
  list-Follows :
      (fuel : ℕ) (buf : Bytes)
      → Follows
          (λ l. l.rest)
          (skip_items (skip_value levels) fuel buf)
          (list (value levels) fuel buf)
  unfolding list skip_items
  list-Follows zero buf = tt
  list-Follows (suc fuel) [] = tt
  list-Follows (suc fuel) (c ∷ cs) = elim (Bool-cases (c == letter_e)) [
    | inl e ↦ rw e refl
    | inr e ↦ elim (Result-cases (value levels (c ∷ cs))) [
      | inr (x, f) ↦ rw (e, f) tt
      | inl (d, f) ↦
          let s : skip_value levels (c ∷ cs) ≡ ok d.rest = rw f at (follows (c ∷ cs)) in
          elim (Result-cases (list (value levels) fuel d.rest)) [
            | inr (x, g) ↦ rw (e, f, g) tt
            | inl (r, g) ↦ let t = rw g at (list-Follows fuel d.rest) in rw (e, f, g, s) t
          ]
    ]
  ]

value-opens : (levels : ℕ) (buf : Bytes) (d : Decoded) → value levels buf ≡ ok d → opens buf ≡ true
unfolding value
value-opens zero buf d h = ground arith
value-opens (suc levels) [] d h = ground arith
value-opens (suc levels) (c ∷ cs) d h = elim (Bool-cases (c == letter_e)) [
  | inl e ↦
      let same : c ≡ letter_e = ground arith in
      let bad : err syntax ≡ ok d = rw same at h in ground arith
  | inr e ↦ rw e refl
]

dict_key-opens : (buf : Bytes) (k : Text) → dict_key buf ≡ ok k → opens buf ≡ true
unfolding dict_key
dict_key-opens [] k h = ground arith
dict_key-opens (c ∷ cs) k h = elim (Bool-cases (is_digit c)) [
  | inl e ↦ ground arith
  | inr e ↦ let bad : err syntax ≡ ok k = rw e at h in ground arith
]

-- A key is a string, which is skipped as one.
skip_value-dict_key :
    (levels : ℕ) (buf : Bytes) (k : Text)
    → dict_key buf ≡ ok k
    → skip_value (suc levels) buf ≡ ok k.rest
unfolding skip_value dict_key
skip_value-dict_key levels [] k h = ground arith
skip_value-dict_key levels (c ∷ cs) k h = elim (Bool-cases (is_digit c)) [
  | inl e ↦
      let not_i : (c == letter_i) ≡ false = ground arith in
      let scanned : scan_string (c ∷ cs) ≡ ok k = rw e at h in rw (not_i, e, scanned) refl
  | inr e ↦ let bad : err syntax ≡ ok k = rw e at h in ground arith
]

-- If a value follows, there is a level left.
key_skips :
    (levels : ℕ) (buf : Bytes) (k : Text) (d : Decoded)
    → dict_key buf ≡ ok k
    → value levels k.rest ≡ ok d
    → skip_value levels buf ≡ ok k.rest
key_skips zero buf k d h v = let bad : err too_deep ≡ ok d = unfold value in v in ground arith
key_skips (suc levels) buf k d h v = skip_value-dict_key levels buf k h

skip_step :
    (element : Bytes → Result Error Bytes) (fuel : ℕ) (buf rest : Bytes)
    → opens buf ≡ true
    → element buf ≡ ok rest
    → skip_items element (suc fuel) buf ≡ skip_items element fuel rest
unfolding skip_items
skip_step element fuel [] rest o h = absurd (false≢true o)
skip_step element fuel (c ∷ cs) rest o h =
    let not_e : (c == letter_e) ≡ false = ground arith in rw (not_e, h) refl

module _ (levels : ℕ)
    (follows : (buf : Bytes)
      → Follows (λ d. d.rest) (skip_value levels buf) (value levels buf)) where
  entry_skips :
      (fuel : ℕ) (buf : Bytes) (k : Text) (d : Decoded)
      → dict_key buf ≡ ok k
      → value levels k.rest ≡ ok d
      → length buf ≤ suc fuel
      → (m : ℕ) × (length d.rest ≤ m)
        × (skip_items (skip_value levels) (suc fuel) buf ≡ skip_items (skip_value levels) m d.rest)
  entry_skips zero buf k d h v l =
      let short : length k.rest < length buf = rw h at (dict_key-Shorter buf) in
      let shorter : length d.rest < length k.rest = rw v at (value-Shorter levels k.rest) in
      absurd (omega (arith, short, shorter, l))
  entry_skips (suc m) buf k d h v l =
      let short : length k.rest < length buf = rw h at (dict_key-Shorter buf) in
      let shorter : length d.rest < length k.rest = rw v at (value-Shorter levels k.rest) in
      let first =
        skip_step (skip_value levels) (suc m) buf k.rest (dict_key-opens buf k h)
          (key_skips levels buf k d h v) in
      let second =
        skip_step (skip_value levels) m k.rest d.rest (value-opens levels k.rest d v)
          (rw v at (follows k.rest)) in
      (m, omega (arith, short, shorter, l), first ∙ second)

  dict-Follows :
      (fuel fuel' : ℕ) (out : Entries) (buf : Bytes)
      → length buf ≤ fuel'
      → Follows
          (λ d. d.rest)
          (skip_items (skip_value levels) fuel' buf)
          (dict (value levels) fuel out buf)
  unfolding dict
  dict-Follows zero fuel' out buf h = tt
  dict-Follows (suc fuel) fuel' out [] h = tt
  dict-Follows (suc fuel) zero out (c ∷ cs) h = absurd (omega arith)
  dict-Follows (suc fuel) (suc fuel') out (c ∷ cs) h = elim (Bool-cases (c == letter_e)) [
    | inl e ↦ rw e (unfold skip_items in (rw e refl))
    | inr e ↦ elim (Result-cases (dict_key (c ∷ cs))) [
      | inr (x, f) ↦ rw (e, f) tt
      | inl (k, f) ↦ elim (Result-cases (value levels k.rest)) [
        | inr (x, g) ↦ rw (e, f, g) tt
        | inl (d, g) ↦
            let (m, short, same) = entry_skips fuel' (c ∷ cs) k d f g h in
            rw (e, f, g, same) (dict-Follows fuel m (put k.text d.value out) d.rest short)
      ]
    ]
  ]

value-Follows :
    (levels : ℕ) (buf : Bytes) → Follows (λ d. d.rest) (skip_value levels buf) (value levels buf)
unfolding value skip_value
value-Follows zero buf = tt
value-Follows (suc levels) [] = tt
value-Follows (suc levels) (c ∷ cs) =
    let follows = value-Follows levels in
    elim (Bool-cases (c == letter_i)) [
      | inl e ↦ elim (Result-cases (scan_int cs)) [
        | inr (x, f) ↦ rw (e, f) tt
        | inl (i, f) ↦ rw (e, f) refl
      ]
      | inr e ↦ elim (Bool-cases (is_digit c)) [
        | inl e1 ↦ elim (Result-cases (scan_string (c ∷ cs))) [
          | inr (x, f) ↦ rw (e, e1, f) tt
          | inl (t, f) ↦ rw (e, e1, f) refl
        ]
        | inr e1 ↦ elim (Bool-cases (c == letter_l)) [
          | inl e2 ↦ elim (Result-cases (list (value levels) (length cs) cs)) [
            | inr (x, f) ↦ rw (e, e1, e2, f) tt
            | inl (r, f) ↦
                let t = rw f at (list-Follows levels follows (length cs) cs) in rw (e, e1, e2, f) t
          ]
          | inr e2 ↦ elim (Bool-cases (c == letter_d)) [
            | inl e3 ↦ elim (Result-cases (dict (value levels) (length cs) none_left cs)) [
              | inr (x, f) ↦ rw (e, e1, e2, e3, f) tt
              | inl (r, f) ↦
                  let t = rw f at (
                    dict-Follows levels follows (length cs) (length cs) none_left cs
                      (omega arith)) in
                  rw (e, e1, e2, e3, f) t
            ]
            | inr e3 ↦ rw (e, e1, e2, e3) tt
          ]
        ]
      ]
    ]

-- Where a value can be decoded, skipping it instead ends at the same byte.
pub skip_value-value :
    (levels : ℕ) (buf : Bytes) (d : Decoded)
    → value levels buf ≡ ok d
    → skip_value levels buf ≡ ok d.rest
skip_value-value levels buf d h = rw h at (value-Follows levels buf)

skip-marshal_value :
    (v : Value) (levels : ℕ) (rest : Bytes)
    → IsValue v
    → depth v ≤ levels
    → skip levels (marshal_value v ++ rest) ≡ ok (record { text = marshal_value v; rest = rest })
unfolding skip
skip-marshal_value v levels rest h d =
    let written = marshal_value v in
    let skipped : skip_value levels (written ++ rest) ≡ ok rest =
      skip_value-value levels (written ++ rest) _ (value-marshal_value v levels rest h d) in
    let size : length (written ++ rest) - length rest ≡ length written =
      omega (arith, length-append written rest) in
    rw (skipped, size, take-append_length written rest, skip) refl

-- For a value of 64-bit integers, of strings that fit a memory and of maps listed by their keys,
-- nested less deep than the levels that are left (at most 63 levels where `Unmarshal` begins), a
-- `RawMessage` in its place keeps exactly the bytes that `Marshal` wrote for it, whatever follows.
pub raw_value-marshal_value :
    (v : Value) (levels : ℕ) (rest : Bytes)
    → IsValue v
    → depth v < levels
    → raw_value levels (marshal_value v ++ rest)
      ≡ ok (record { text = marshal_value v; rest = rest })
unfolding raw_value
raw_value-marshal_value v zero rest h d = absurd (omega arith)
raw_value-marshal_value v (suc levels) rest h d =
    skip-marshal_value v levels rest h (omega (arith, d))
