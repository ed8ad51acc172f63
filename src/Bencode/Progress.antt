-- ===== src/Bencode/Progress.antt =====
-- The decoder of internal/bencode/decode.go moves on: each value takes a byte at least, so that its
-- loops end.
use go_torrent.Base.{
  ℕ, zero, suc, ◌≤◌, ◌<◌, ◌≡◌, refl, inl, inr, Option, none, some, [], ◌∷◌, arith, ltb, ◌==◌,
  if◌then◌else◌, Bool-cases, Option-cases, length, take, drop, length-drop, ℤ, pos, negsuc, Result,
  Result-cases, ok, err,
}
use go_torrent.Bytes.{Bytes}
use go_torrent.Bencode.Scan.{
  Error, letter_i, letter_e, colon, Split, index_of, check_integer_text, scan_int, Text,
  has_leading_zero, scan_string, syntax,
}
use go_torrent.Bencode.Number.{is_digit, parse_int}
use go_torrent.Bencode.Value.{Entries, put, none_left}
use go_torrent.Bencode.Decode.{
  letter_l, letter_d, Decoded, value, DecodedDict, list, dict_key, dict,
}

-- What is left after a success is shorter than `n`.
abbrev pub Shorter : {A : Type 0} → (A → Bytes) → ℕ → Result Error A → Type 0
Shorter rest_of n (err e) = Unit
Shorter rest_of n (ok a) = length (rest_of a) < n

longer :
    {n m : ℕ} (r : Result Error DecodedDict)
    → m ≤ n
    → Shorter (λ d. d.rest) m r
    → Shorter (λ d. d.rest) n r
longer (err e) h l = tt
longer (ok d) h l = omega (arith, h, l)

abbrev Found : ℕ → Option Split → Type 0
Found n none = Unit
Found n (some s) = length s.after < n

index_of-Shorter : (target : ℕ) (buf : Bytes) → Found (length buf) (index_of target buf)
unfolding index_of
index_of-Shorter target [] = tt
index_of-Shorter target (c ∷ cs) = elim (Bool-cases (c == target)) [
  | inl e ↦ rw e (omega arith)
  | inr e ↦ elim (Option-cases (index_of target cs)) [
    | inl f ↦ rw (e, f) tt
    | inr (s, f) ↦ let l = rw f at (index_of-Shorter target cs) in rw (e, f) (omega (arith, l))
  ]
]

pub scan_int-Shorter : (buf : Bytes) → Shorter (λ i. i.rest) (length buf) (scan_int buf)
unfolding scan_int
scan_int-Shorter buf = elim (Option-cases (index_of letter_e buf)) [
  | inl f ↦ rw (f, scan_int) tt
  | inr (s, f) ↦
      let l = rw f at (index_of-Shorter letter_e buf) in
      elim (Bool-cases (check_integer_text s.before)) [
        | inl e ↦ elim (Option-cases (parse_int s.before)) [
          | inl g ↦ rw (f, e, g, scan_int) tt
          | inr (n, g) ↦ rw (f, e, g, scan_int) l
        ]
        | inr e ↦ rw (f, e, scan_int) tt
      ]
]

-- The last step of `scanString`.
abbrev by_length : Split → Option ℤ → Result Error Text
by_length s none = err syntax
by_length s (some (negsuc n)) = err syntax
by_length s (some (pos n)) =
    if ltb (length s.after) n
    then err syntax
    else ok (record { text = take n s.after; rest = drop n s.after })

by_length-Shorter :
    (s : Split) (n : ℕ) (o : Option ℤ)
    → length s.after < n
    → Shorter (λ t. t.rest) n (by_length s o)
by_length-Shorter s n none l = tt
by_length-Shorter s n (some (negsuc m)) l = tt
by_length-Shorter s n (some (pos m)) l = elim (Bool-cases (ltb (length s.after) m)) [
  | inl e ↦ rw e tt
  | inr e ↦ rw e (omega (arith, l, length-drop m s.after))
]

pub scan_string-Shorter : (buf : Bytes) → Shorter (λ t. t.rest) (length buf) (scan_string buf)
unfolding scan_string
scan_string-Shorter buf = elim (Option-cases (index_of colon buf)) [
  | inl f ↦ rw (f, scan_string) tt
  | inr (s, f) ↦
      let l = rw f at (index_of-Shorter colon buf) in
      elim (Bool-cases (length s.before == 0)) [
        | inl e ↦ rw (f, e, scan_string) tt
        | inr e ↦ elim (Bool-cases (has_leading_zero s.before)) [
          | inl z ↦ rw (f, e, z, scan_string) tt
          | inr z ↦
              rw (f, e, z, scan_string) (by_length-Shorter s (length buf) (parse_int s.before) l)
        ]
      ]
]

pub dict_key-Shorter : (buf : Bytes) → Shorter (λ t. t.rest) (length buf) (dict_key buf)
unfolding dict_key
dict_key-Shorter [] = tt
dict_key-Shorter (c ∷ cs) = elim (Bool-cases (is_digit c)) [
  | inl e ↦ rw e (scan_string-Shorter (c ∷ cs))
  | inr e ↦ rw e tt
]

module _ (element : Bytes → Result Error Decoded)
    (moves : (buf : Bytes) → Shorter (λ d. d.rest) (length buf) (element buf)) where
  list-Shorter :
      (fuel : ℕ) (buf : Bytes) → Shorter (λ l. l.rest) (length buf) (list element fuel buf)
  unfolding list
  list-Shorter zero buf = tt
  list-Shorter (suc fuel) [] = tt
  list-Shorter (suc fuel) (c ∷ cs) = elim (Bool-cases (c == letter_e)) [
    | inl e ↦ rw e (omega arith)
    | inr e ↦ elim (Result-cases (element (c ∷ cs))) [
      | inr (x, f) ↦ rw (e, f) tt
      | inl (d, f) ↦
          let l = rw f at (moves (c ∷ cs)) in
          elim (Result-cases (list element fuel d.rest)) [
            | inr (x, g) ↦ rw (e, f, g) tt
            | inl (r, g) ↦
                let l' = rw g at (list-Shorter fuel d.rest) in rw (e, f, g) (omega (arith, l, l'))
          ]
    ]
  ]

  -- The loop over a list ends by itself: more rounds than there are bytes change nothing.
  list_fuels :
      (fuel fuel' : ℕ) (buf : Bytes)
      → length buf ≤ fuel
      → length buf ≤ fuel'
      → list element fuel buf ≡ list element fuel' buf
  unfolding list
  list_fuels zero zero buf h h' = refl
  list_fuels zero (suc fuel') [] h h' = refl
  list_fuels (suc fuel) zero [] h h' = refl
  list_fuels (suc fuel) (suc fuel') [] h h' = refl
  list_fuels zero fuel' (c ∷ cs) h h' = absurd (omega arith)
  list_fuels (suc fuel) zero (c ∷ cs) h h' = absurd (omega arith)
  list_fuels (suc fuel) (suc fuel') (c ∷ cs) h h' = elim (Bool-cases (c == letter_e)) [
    | inl e ↦ rw e refl
    | inr e ↦ elim (Result-cases (element (c ∷ cs))) [
      | inr (x, f) ↦ rw (e, f) refl
      | inl (d, f) ↦
          let l = rw f at (moves (c ∷ cs)) in
          rw (e, f, list_fuels fuel fuel' d.rest (omega (arith, l)) (omega (arith, l))) refl
    ]
  ]

  dict-Shorter :
      (fuel : ℕ) (out : Entries) (buf : Bytes)
      → Shorter (λ l. l.rest) (length buf) (dict element fuel out buf)
  unfolding dict
  dict-Shorter zero out buf = tt
  dict-Shorter (suc fuel) out [] = tt
  dict-Shorter (suc fuel) out (c ∷ cs) = elim (Bool-cases (c == letter_e)) [
    | inl e ↦ rw e (omega arith)
    | inr e ↦ elim (Result-cases (dict_key (c ∷ cs))) [
      | inr (x, f) ↦ rw (e, f) tt
      | inl (k, f) ↦
          let l = rw f at (dict_key-Shorter (c ∷ cs)) in
          elim (Result-cases (element k.rest)) [
            | inr (x, g) ↦ rw (e, f, g) tt
            | inl (d, g) ↦
                let l' = rw g at (moves k.rest) in
                rw (e, f, g)
                  (longer (dict element fuel (put k.text d.value out) d.rest) (omega (arith, l, l'))
                    (dict-Shorter fuel (put k.text d.value out) d.rest))
          ]
    ]
  ]

  dict_fuels :
      (fuel fuel' : ℕ) (out : Entries) (buf : Bytes)
      → length buf ≤ fuel
      → length buf ≤ fuel'
      → dict element fuel out buf ≡ dict element fuel' out buf
  unfolding dict
  dict_fuels zero zero out buf h h' = refl
  dict_fuels zero (suc fuel') out [] h h' = refl
  dict_fuels (suc fuel) zero out [] h h' = refl
  dict_fuels (suc fuel) (suc fuel') out [] h h' = refl
  dict_fuels zero fuel' out (c ∷ cs) h h' = absurd (omega arith)
  dict_fuels (suc fuel) zero out (c ∷ cs) h h' = absurd (omega arith)
  dict_fuels (suc fuel) (suc fuel') out (c ∷ cs) h h' = elim (Bool-cases (c == letter_e)) [
    | inl e ↦ rw e refl
    | inr e ↦ elim (Result-cases (dict_key (c ∷ cs))) [
      | inr (x, f) ↦ rw (e, f) refl
      | inl (k, f) ↦
          let l = rw f at (dict_key-Shorter (c ∷ cs)) in
          elim (Result-cases (element k.rest)) [
            | inr (x, g) ↦ rw (e, f, g) refl
            | inl (d, g) ↦
                let l' = rw g at (moves k.rest) in
                rw (e, f, g)
                  (dict_fuels fuel fuel' (put k.text d.value out) d.rest (omega (arith, l, l'))
                    (omega (arith, l, l')))
          ]
    ]
  ]

-- A value that is decoded takes a byte at least.
pub value-Shorter :
    (levels : ℕ) (buf : Bytes) → Shorter (λ d. d.rest) (length buf) (value levels buf)
unfolding value
value-Shorter zero buf = tt
value-Shorter (suc levels) [] = tt
value-Shorter (suc levels) (c ∷ cs) =
    let moves = value-Shorter levels in
    elim (Bool-cases (c == letter_i)) [
      | inl e ↦ elim (Result-cases (scan_int cs)) [
        | inr (x, f) ↦ rw (e, f) tt
        | inl (i, f) ↦ let l = rw f at (scan_int-Shorter cs) in rw (e, f) (omega (arith, l))
      ]
      | inr e ↦ elim (Bool-cases (is_digit c)) [
        | inl e1 ↦ elim (Result-cases (scan_string (c ∷ cs))) [
          | inr (x, f) ↦ rw (e, e1, f) tt
          | inl (t, f) ↦ let l = rw f at (scan_string-Shorter (c ∷ cs)) in rw (e, e1, f) l
        ]
        | inr e1 ↦ elim (Bool-cases (c == letter_l)) [
          | inl e2 ↦ elim (Result-cases (list (value levels) (length cs) cs)) [
            | inr (x, f) ↦ rw (e, e1, e2, f) tt
            | inl (r, f) ↦
                let l = rw f at (list-Shorter (value levels) moves (length cs) cs) in
                rw (e, e1, e2, f) (omega (arith, l))
          ]
          | inr e2 ↦ elim (Bool-cases (c == letter_d)) [
            | inl e3 ↦ elim (Result-cases (dict (value levels) (length cs) none_left cs)) [
              | inr (x, f) ↦ rw (e, e1, e2, e3, f) tt
              | inl (r, f) ↦
                  let l = rw f at (dict-Shorter (value levels) moves (length cs) none_left cs) in
                  rw (e, e1, e2, e3, f) (omega (arith, l))
            ]
            | inr e3 ↦ rw (e, e1, e2, e3) tt
          ]
        ]
      ]
    ]

-- The loops over the elements of a list and over the entries of a dictionary end by themselves:
-- with as many rounds as there are bytes left, or any number more, the outcome is the same.
pub loops_enough :
    (levels fuel : ℕ) (out : Entries) (buf : Bytes)
    → length buf ≤ fuel
    → (list (value levels) fuel buf ≡ list (value levels) (length buf) buf)
      × (dict (value levels) fuel out buf ≡ dict (value levels) (length buf) out buf)
loops_enough levels fuel out buf h = (
  list_fuels (value levels) (value-Shorter levels) fuel (length buf) buf h (omega arith),
  dict_fuels (value levels) (value-Shorter levels) fuel (length buf) out buf h (omega arith),
)
