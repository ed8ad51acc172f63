-- ===== src/Bitfield/Wire.antt =====
-- Bytes off the wire: `FromBytes`, `CopyFrom` and the padding rule.
use go_torrent.Base.{
  Result, ok, err, ℕ, ◌+◌, ◌-◌, ◌*◌, ◌/◌, ◌%◌, ◌≤◌, ◌<◌, ◌≡◌, ◌≢◌, ◌↔◌, refl, sym, ap, ap₂, ◌∙◌,
  true, false, not, ◌&&◌, leb, ◌⊎◌, leb→le, ◌==◌, Bool-cases, inl, inr, List, All, length, get_or,
  pos, arith, copy, copy_full, get_or-All, get_or-ge, all_below, all_below_sound,
  all_below_complete,
}
use go_torrent.Bits.{test_bit, test_bit-mod, test_bit-zero, low_mask_clear}
use go_torrent.Bitfield.{
  Bitfield, Error, wrong_width, spare_bits_set, byte_len, has_spare_bits, from_bytes, copy_from,
  recount, popcount,
}
use go_torrent.Bitfield.Invariant.{IsValid, bit_at}

-- No bit from `n` on is set.
abbrev pub IsPadded : List ℕ → ℕ → Type 0
IsPadded raw n = (i : ℕ) → n ≤ i → bit_at raw i ≡ false

module _ (raw : List ℕ) (n : ℕ) (bytes : All (λ x. x < 256) raw)
    (width : length raw ≡ byte_len (pos n)) where
  last : ℕ
  last = get_or raw (byte_len (pos n) - 1) 0

  last_clear :
      n % 8 ≢ 0
      → has_spare_bits raw n ≡ not (all_below 8 (λ j. not (leb (n % 8) j && test_bit last j)))
  unfolding has_spare_bits last
  last_clear h = ground (
    arith,
    byte_len_pos,
    low_mask_clear last (n % 8)
        (get_or-All (λ x. x < 256) raw (byte_len (pos n) - 1) 0 (omega arith) bytes) (omega arith),
  )
    where
      byte_len_pos : 0 < byte_len (pos n)
      byte_len_pos = unfold byte_len in ground arith

  beyond : (i : ℕ) → length raw ≤ i / 8 → bit_at raw i ≡ false
  beyond i h = rw (get_or-ge raw (i / 8) 0 h) (test_bit-zero i)

  -- An index from `n` on lies in the padding of the last byte, or behind it.
  place :
      (i : ℕ)
      → n ≤ i
      → (length raw ≤ i / 8) ⊎ ((n % 8 ≢ 0) × (n % 8 ≤ i % 8) × (i / 8 ≡ byte_len (pos n) - 1))
  place i h = elim (Bool-cases (leb (length raw) (i / 8))) [
    | inl e ↦ inl (leb→le _ _ e)
    | inr e ↦
        let short : i / 8 < byte_len (pos n) = ground (arith, width) in
        inr (unfold byte_len in (ground arith, ground arith, ground arith))
  ]

  spare→padded : has_spare_bits raw n ≡ false → IsPadded raw n
  unfolding last
  spare→padded e i h = elim (place i h) [
    | inl far ↦ beyond i far
    | inr (spare, off, at) ↦
        let table : all_below 8 (λ j. not (leb (n % 8) j && test_bit last j)) ≡ true =
          ground (arith, last_clear spare) in
        rw (at, test_bit-mod) (ground (arith, all_below_sound 8 _ table (i % 8) (omega arith)))
  ]

  padded→spare : IsPadded raw n → has_spare_bits raw n ≡ false
  unfolding last
  padded→spare h = elim (Bool-cases (n % 8 == 0)) [
    | inl e ↦ unfold has_spare_bits in rw e
    | inr e ↦
        last_clear (ground arith)
        ∙ ap not (
            all_below_complete 8 _ (λ j hj. elim (Bool-cases (leb (n % 8) j)) [
              | inl le ↦ rw (le, padding j hj (leb→le _ _ le) (ground arith))
              | inr lt ↦ rw lt
            ]))
  ]
    where
      padding : (j : ℕ) → j < 8 → n % 8 ≤ j → n % 8 ≢ 0 → test_bit last j ≡ false
      padding j hj le spare =
          let i = (byte_len (pos n) - 1) * 8 + j in
          let at : i / 8 ≡ byte_len (pos n) - 1 = omega arith in
          let off : i % 8 ≡ j = omega arith in
          let big : n ≤ i = unfold byte_len in ground arith in
          ap (test_bit last) (sym off)
          ∙ sym (test_bit-mod last i)
          ∙ ap (λ k. test_bit (get_or raw k 0) i) (sym at)
          ∙ h i big

-- The wire bytes of a valid bitfield are read back as that bitfield.
pub from_bytes-bits : (b : Bitfield) → IsValid b → from_bytes b.bits b.n ≡ ok b
unfolding from_bytes recount
from_bytes-bits b v =
    ground (arith, v.width, v.counted, padded→spare b.bits b.n v.is_bytes v.width v.padded)

from_bytes-eq_ok :
    (raw : List ℕ) (n : ℕ) (b : Bitfield)
    → from_bytes raw n ≡ ok b
    → (length raw ≡ byte_len (pos n))
      × (has_spare_bits raw n ≡ false)
      × (b ≡ record { bits = raw; n = n; count = popcount raw })
unfolding from_bytes recount
from_bytes-eq_ok raw n b e = ground arith

from_bytes_sound :
    (raw : List ℕ) (n : ℕ) (b : Bitfield)
    → All (λ x. x < 256) raw
    → from_bytes raw n ≡ ok b
    → IsValid b × (b.bits ≡ raw) × (b.n ≡ n)
from_bytes_sound raw n b bytes e =
    let (width, spare, same) = from_bytes-eq_ok raw n b e in
    rw same (
      record {
        width = width;
        is_bytes = bytes;
        counted = refl;
        padded = spare→padded raw n bytes width spare;
      },
      refl,
      refl,
    )

-- On a list of bytes `FromBytes` gives exactly the valid bitfield of the asked width over them, if
-- there is one.
pub from_bytes_iff :
    (raw : List ℕ) (n : ℕ) (b : Bitfield)
    → All (λ x. x < 256) raw
    → (from_bytes raw n ≡ ok b) ↔ (IsValid b × (b.bits ≡ raw) × (b.n ≡ n))
from_bytes_iff raw n b bytes = (
  from_bytes_sound raw n b bytes,
  (λ h. ap₂ from_bytes (sym h.1) (sym h.2) ∙ from_bytes-bits b h.0),
)

-- `FromBytes` refuses a wrong width first, and then exactly the padding that is not zero.
pub from_bytes_refuses :
    (raw : List ℕ) (n : ℕ)
    → All (λ x. x < 256) raw
    → ((from_bytes raw n ≡ err wrong_width) ↔ (length raw ≢ byte_len (pos n)))
      × ((from_bytes raw n ≡ err spare_bits_set)
          ↔ ((length raw ≡ byte_len (pos n)) × ¬ (IsPadded raw n)))
unfolding from_bytes
from_bytes_refuses raw n bytes =
    (((λ e. ground arith), (λ h. ground arith)), ((λ e. ground_spare e), (λ h. spare h.0 h.1)))
  where
    width_ok : from_bytes raw n ≡ err spare_bits_set → length raw ≡ byte_len (pos n)
    width_ok e = ground arith

    ground_spare :
        from_bytes raw n ≡ err spare_bits_set → (length raw ≡ byte_len (pos n)) × ¬ (IsPadded raw n)
    ground_spare e = (width_ok e, λ p. ground (arith, padded→spare raw n bytes (width_ok e) p))

    spare :
        length raw ≡ byte_len (pos n) → ¬ (IsPadded raw n) → from_bytes raw n ≡ err spare_bits_set
    spare w h = elim (Bool-cases (has_spare_bits raw n)) [
      | inl e ↦ ground arith
      | inr e ↦ absurd (h (spare→padded raw n bytes w e))
    ]

-- On a valid bitfield `CopyFrom` has the outcome of `FromBytes` at the same width: the new
-- contents as a whole, or the error and no change.
pub copy_from-from_bytes :
    (b : Bitfield) (raw : List ℕ)
    → IsValid b
    → All (λ x. x < 256) raw
    → copy_from b raw ≡ from_bytes raw b.n
unfolding copy_from
copy_from-from_bytes b raw v bytes = split (from_bytes raw b.n) refl
  where
    outcome : Result Error Bitfield → Result Error Bitfield
    outcome r = elim r [
      | err e ↦ err e
      | ok r ↦ ok (record b { bits = copy b.bits r.bits; count = r.count })
    ]

    split : (r : Result Error Bitfield) → from_bytes raw b.n ≡ r → outcome r ≡ r
    split (err x) e = refl
    split (ok r) e =
        let (valid, same, wide) = from_bytes_sound raw b.n r bytes e in
        let widths : length b.bits ≡ length r.bits =
          v.width ∙ ap (λ n. byte_len (pos n)) (sym wide) ∙ sym valid.width in
        rw (copy_full b.bits r.bits widths, ← wide)
