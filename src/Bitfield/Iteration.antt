-- ===== src/Bitfield/Iteration.antt =====
-- `Each` against a plain scan of the indices.
use go_torrent.Base.{
  ℕ, zero, suc, ◌+◌, ◌-◌, ◌*◌, ◌/◌, ◌%◌, ◌≤◌, ◌<◌, ◌≡◌, ◌≢◌, refl, sym, ap, ◌∙◌, Bool, true, false,
  not, ◌&&◌, ◌||◌, ltb, leb, ◌==◌, Bool-cases, inl, inr, List, [], ◌∷◌, All, length, get_or, pos,
  arith, all_below, all_below_sound, fun_ext,
}
use go_torrent.Bits.{
  bit_mask, test_bit, test_bit-mod, test_bit-zero, and_not8, and_not8-lt, test_bit-and_not8,
}
use go_torrent.Bitfield.{Bitfield, Visit, byte_len, has, leading_zeros8, each_bit, each_byte, each}
use go_torrent.Bitfield.Invariant.{IsValid, bit_at, has-bit_at}
use go_torrent.Bitfield.Counting.{bit_at_next}

-- The leading one of a byte that is not 0, and what is left when it is cleared.
lead_ok : ℕ → Bool
lead_ok x =
    let bit = leading_zeros8 x in
    x == 0
    || (ltb bit 8
        && (test_bit x bit
            && (all_below 8 (λ j. not (ltb j bit && test_bit x j))
                && ltb bit (leading_zeros8 (and_not8 x (bit_mask bit))))))

lead_table : all_below 256 lead_ok ≡ true
unfolding all_below lead_ok leading_zeros8 test_bit
lead_table = refl

module _ (x : ℕ) (hx : x < 256) (nz : x ≢ 0) where
  lead_facts :
      (leading_zeros8 x < 8)
      × (test_bit x (leading_zeros8 x) ≡ true)
      × (all_below 8 (λ j. not (ltb j (leading_zeros8 x) && test_bit x j)) ≡ true)
      × (leading_zeros8 x < leading_zeros8 (and_not8 x (bit_mask (leading_zeros8 x))))
  unfolding lead_ok
  lead_facts =
      let e : lead_ok x ≡ true = all_below_sound 256 lead_ok lead_table x hx in ground arith

  before_lead : (j : ℕ) → j < leading_zeros8 x → test_bit x j ≡ false
  before_lead j h =
      let e : not (ltb j (leading_zeros8 x) && test_bit x j) ≡ true =
        all_below_sound 8 _ lead_facts.2 j (omega (arith, lead_facts.0)) in
      ground arith

leading_zeros8-le : (x : ℕ) → leading_zeros8 x ≤ 8
unfolding leading_zeros8
leading_zeros8-le x = ground arith

leading_zeros8-zero : leading_zeros8 0 ≡ 8
unfolding leading_zeros8
leading_zeros8-zero = refl

before_lead_any : (x j : ℕ) → x < 256 → j < leading_zeros8 x → test_bit x j ≡ false
before_lead_any x j hx h = elim (Bool-cases (x == 0)) [
  | inl e ↦ let z : x ≡ 0 = ground arith in rw z (test_bit-zero j)
  | inr e ↦ before_lead x hx (ground arith) j h
]

module _ {ℓ} {S : Type ℓ} (fn : S → ℕ → Visit S) where
  -- The reference: the `k` indices from `i` on in order, until the callback says stop.
  unfoldable pub scan : (ℕ → Bool) → ℕ → ℕ → S → Visit S
  scan p i zero s = record { state = s; go_on = true }
  scan p i (suc k) s = elim (p i) [
    | false ↦ scan p (i + 1) k s
    | true ↦ elim (fn s i).go_on [
      | false ↦ record { state = (fn s i).state; go_on = false }
      | true ↦ scan p (i + 1) k (fn s i).state
    ]
  ]

  scan_skip :
      (p : ℕ → Bool) (i k : ℕ) (s : S)
      → ((j : ℕ) → i ≤ j → j < i + k → p j ≡ false)
      → scan p i k s ≡ record { state = s; go_on = true }
  unfolding scan
  scan_skip p i zero s off = refl
  scan_skip p i (suc k) s off = ground (
    arith,
    off i (omega arith) (omega arith),
    scan_skip p (i + 1) k s (λ j lo hi. off j (omega arith) (omega arith)),
  )

  scan_congr :
      (p q : ℕ → Bool) (i k : ℕ) (s : S)
      → ((j : ℕ) → i ≤ j → j < i + k → p j ≡ q j)
      → scan p i k s ≡ scan q i k s
  unfolding scan
  scan_congr p q i zero s same = refl
  scan_congr p q i (suc k) s same =
      let rest =
        λ (s : S). scan_congr p q (i + 1) k s (λ j lo hi. same j (omega arith) (omega arith)) in
      ground (arith, same i (omega arith) (omega arith), rest s, rest (fn s i).state)

  then_scan : (ℕ → Bool) → ℕ → ℕ → Visit S → Visit S
  then_scan p i k r = elim r.go_on [ false ↦ r | true ↦ scan p i k r.state ]

  scan_split :
      (p : ℕ → Bool) (i k m : ℕ) (s : S) → scan p i (k + m) s ≡ then_scan p (i + k) m (scan p i k s)
  unfolding scan then_scan
  scan_split p i zero m s =
      let e : zero + m ≡ m = omega arith in let f : i + zero ≡ i = omega arith in rw (e, f)
  scan_split p i (suc k) m s =
      let e : suc k + m ≡ suc (k + m) = omega arith in
      let f : i + suc k ≡ i + 1 + k = omega arith in
      rw (e, f)
        (ground (arith, scan_split p (i + 1) k m s, scan_split p (i + 1) k m (fn s i).state))

  module _ (n : ℕ) where
    -- The bits of `x` that `Each` may meet lie below `n`.
    abbrev InRange : ℕ → ℕ → Type 0
    InRange byte_index x = (j : ℕ) → j < 8 → n ≤ byte_index * 8 + j → test_bit x j ≡ false

    -- Clearing the leading one leaves the same bits behind it.
    scan_after :
        (byte_index x : ℕ) (s : S)
        → x < 256
        → x ≢ 0
        → scan (test_bit x) (byte_index * 8 + leading_zeros8 x + 1) (7 - leading_zeros8 x) s
          ≡ scan
              (test_bit (and_not8 x (bit_mask (leading_zeros8 x))))
              (byte_index * 8 + leading_zeros8 (and_not8 x (bit_mask (leading_zeros8 x))))
              (8 - leading_zeros8 (and_not8 x (bit_mask (leading_zeros8 x))))
              s
    unfolding then_scan
    scan_after byte_index x s hx nz =
        let d = leading_zeros8 x in
        let x' = and_not8 x (bit_mask d) in
        let d' = leading_zeros8 x' in
        let (lt, on, before, later) = lead_facts x hx nz in
        let top : d' ≤ 8 = leading_zeros8-le x' in
        let parts : 7 - d ≡ (d' - d - 1) + (8 - d') = omega arith in
        let jump : byte_index * 8 + d + 1 + (d' - d - 1) ≡ byte_index * 8 + d' = omega arith in
        scan_congr (test_bit x) (test_bit x') (byte_index * 8 + d + 1) (7 - d) s
          (λ j lo hi. ground (arith, test_bit-and_not8 x d j hx))
        ∙ ap (λ k. scan (test_bit x') (byte_index * 8 + d + 1) k s) parts
        ∙ scan_split (test_bit x') (byte_index * 8 + d + 1) (d' - d - 1) (8 - d') s
        ∙ ap (then_scan (test_bit x') (byte_index * 8 + d + 1 + (d' - d - 1)) (8 - d')) (
            scan_skip (test_bit x') (byte_index * 8 + d + 1) (d' - d - 1) s (λ j lo hi.
              test_bit-mod x' j ∙ before_lead_any x' (j % 8) (and_not8-lt x d hx) (omega arith)))
        ∙ ap (λ i. scan (test_bit x') i (8 - d') s) jump

    scan_hit :
        (p : ℕ → Bool) (i k : ℕ) (s : S)
        → p i ≡ true
        → scan p i (suc k) s ≡ (elim (fn s i).go_on as (λ _. Visit S) [
          | false ↦ record { state = (fn s i).state; go_on = false }
          | true ↦ scan p (i + 1) k (fn s i).state
        ])
    unfolding scan
    scan_hit p i k s on = ground arith

    each_bit-scan :
        (fuel byte_index x : ℕ) (s : S)
        → x < 256
        → InRange byte_index x
        → 8 - leading_zeros8 x ≤ fuel
        → each_bit fn n fuel byte_index x s
          ≡ scan (test_bit x) (byte_index * 8 + leading_zeros8 x) (8 - leading_zeros8 x) s
    unfolding each_bit
    each_bit-scan zero byte_index x s hx r h =
        let none_left : 8 - leading_zeros8 x ≡ 0 = omega arith in rw none_left (unfold scan in refl)
    each_bit-scan (suc fuel) byte_index x s hx r h = elim (Bool-cases (x == 0)) [
      | inl e ↦ let z : x ≡ 0 = ground arith in rw (z, leading_zeros8-zero) (unfold scan in refl)
      | inr e ↦
          let nz : x ≢ 0 = ground arith in
          let d = leading_zeros8 x in
          let (lt, on, before, later) = lead_facts x hx nz in
          let one_more : 8 - d ≡ suc (7 - d) = omega arith in
          let i : ℕ = byte_index * 8 + d in
          let below : leb n i ≡ false = ground (arith, r d) in
          let place : i % 8 ≡ d = omega arith in
          let hit : test_bit x i ≡ true = test_bit-mod x i ∙ ap (test_bit x) place ∙ on in
          rw (e, below, one_more)
            (ground (
              arith,
              scan_hit (test_bit x) i (7 - d) s hit,
              scan_after byte_index x (fn s i).state hx nz,
              each_bit-scan fuel byte_index (and_not8 x (bit_mask d)) (fn s i).state
                  (and_not8-lt x d hx)
                  (λ j hj hn. test_bit-and_not8 x d j hx ∙ ground (arith, r j hj hn)) (omega arith),
            ))
    ]

    each_bit-byte :
        (byte_index x : ℕ) (s : S)
        → x < 256
        → InRange byte_index x
        → each_bit fn n 8 byte_index x s ≡ scan (test_bit x) (byte_index * 8) 8 s
    unfolding then_scan
    each_bit-byte byte_index x s hx r =
        let d = leading_zeros8 x in
        let top : d ≤ 8 = leading_zeros8-le x in
        let parts : 8 ≡ d + (8 - d) = omega arith in
        each_bit-scan 8 byte_index x s hx r (omega arith)
        ∙ sym (
            ap (λ k. scan (test_bit x) (byte_index * 8) k s) parts
            ∙ scan_split (test_bit x) (byte_index * 8) d (8 - d) s
            ∙ ap (then_scan (test_bit x) (byte_index * 8 + d) (8 - d)) (
                scan_skip (test_bit x) (byte_index * 8) d s
                  (λ j lo hi. test_bit-mod x j ∙ before_lead_any x (j % 8) hx (omega arith))))

    each_byte-scan :
        (p : ℕ → Bool) (byte_index : ℕ) (xs : List ℕ) (s : S)
        → All (λ x. x < 256) xs
        → ((k : ℕ) → p (byte_index * 8 + k) ≡ bit_at xs k)
        → ((i : ℕ) → n ≤ i → p i ≡ false)
        → each_byte fn n byte_index xs s ≡ scan p (byte_index * 8) (length xs * 8) s
    unfolding each_byte then_scan
    each_byte-scan p byte_index [] s hx at off = unfold scan in refl
    each_byte-scan p byte_index (x ∷ xs) s hx at off =
        let parts : suc (length xs) * 8 ≡ 8 + length xs * 8 = omega arith in
        let next : (byte_index + 1) * 8 ≡ byte_index * 8 + 8 = omega arith in
        let front : (j : ℕ) → j < 8 → p (byte_index * 8 + j) ≡ test_bit x j = λ j hj.
          at j
          ∙ ap (λ k. test_bit (get_or (x ∷ xs) k 0) j) (let e : j / 8 ≡ 0 = omega arith in e) in
        let first : each_bit fn n 8 byte_index x s ≡ scan p (byte_index * 8) 8 s =
          each_bit-byte byte_index x s hx.0 (λ j hj hn. sym (front j hj) ∙ off _ hn)
          ∙ scan_congr (test_bit x) p (byte_index * 8) 8 s (λ j lo hi.
            test_bit-mod x j
            ∙ sym (front (j % 8) (omega arith))
            ∙ ap p (let e : byte_index * 8 + j % 8 ≡ j = omega arith in e)) in
        let later : (k : ℕ) → p ((byte_index + 1) * 8 + k) ≡ bit_at xs k = λ k.
          ap p (let e : (byte_index + 1) * 8 + k ≡ byte_index * 8 + (k + 8) = omega arith in e)
          ∙ at (k + 8)
          ∙ bit_at_next x xs k in
        rw (parts, scan_split p (byte_index * 8) 8 (length xs * 8) s, ← first, ← next)
          (ground (
            arith,
            each_byte-scan p (byte_index + 1) xs (each_bit fn n 8 byte_index x s).state hx.1 later
                off,
          ))

  -- Indices that fail the test may be left off the end.
  scan_end :
      (p : ℕ → Bool) (n m : ℕ) (s : S)
      → ((i : ℕ) → n ≤ i → p i ≡ false)
      → n ≤ m
      → (scan p 0 m s).state ≡ (scan p 0 n s).state
  unfolding then_scan
  scan_end p n m s off h =
      let parts : m ≡ n + (m - n) = omega arith in
      let start : 0 + n ≡ n = omega arith in
      ap (λ k. (scan p 0 k s).state) parts
      ∙ ap (λ r. r.state) (scan_split p 0 n (m - n) s)
      ∙ rw start (ground (arith, scan_skip p n (m - n) (scan p 0 n s).state (λ j lo hi. off j lo)))

-- On a valid bitfield `Each` calls back with exactly the set indices, in ascending order, until it
-- is told to stop.
pub each-scan {ℓ} :
    {S : Type ℓ} (fn : S → ℕ → Visit S) (b : Bitfield) (s : S)
    → IsValid b
    → each fn b s ≡ (scan fn (λ i. has b (pos i)) 0 b.n s).state
unfolding each
each-scan fn b s v = rw (fun_ext (λ i. has-bit_at b i v)) (
    ap (λ r. r.state)
      (each_byte-scan fn b.n (bit_at b.bits) 0 b.bits s v.is_bytes
        (λ k. ap (bit_at b.bits) (let e : 0 + k ≡ k = omega arith in e)) v.padded)
    ∙ scan_end fn (bit_at b.bits) b.n (length b.bits * 8) s v.padded
        (rw v.width (unfold byte_len in ground arith)))
