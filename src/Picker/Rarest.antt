-- ===== src/Picker/Rarest.antt =====
-- What the strategies choose: `pickByStrategy` and `rarestWithTieBreak` of
-- internal/picker/picker.go.
use go_torrent.Base.{
  ℕ, zero, suc, ◌≤◌, ◌<◌, ◌≡◌, refl, sym, ◌∙◌, ◌⊎◌, inl, inr, Bool, true, false, not, ◌&&◌, ◌||◌,
  false≢true, Option, none, some, List, arith, ltb, ◌==◌, Bool-cases, Option-cases,
}
use go_torrent.Picker.Select.{Best, rarest}
use go_torrent.Picker.Availability.{count_of}

module _ (avail : List ℕ) (want : ℕ → Bool) where
  -- A piece that is wanted and that some peer holds.
  abbrev pub candidate : ℕ → Bool
  candidate i = not (count_of avail i == 0) && want i

  -- The choice among the first `n` pieces: a candidate that no other candidate is rarer than, or
  -- nothing where there is no candidate.
  abbrev pub IsRarest : ℕ → Option ℕ → Type 0
  IsRarest n none = (j : ℕ) → j < n → candidate j ≡ false
  IsRarest n (some i) =
      (i < n)
      × (candidate i ≡ true)
      × ((j : ℕ) → j < n → candidate j ≡ true → count_of avail i ≤ count_of avail j)

  abbrev Counted : ℕ → Option ℕ → Type 0
  Counted c none = Unit
  Counted c (some i) = c ≡ count_of avail i

  IsRarest-skip : (n : ℕ) (o : Option ℕ) → candidate n ≡ false → IsRarest n o → IsRarest (suc n) o
  IsRarest-skip n none out h = λ j lt. elim (Bool-cases (j == n)) [
    | inl e ↦ let same : j ≡ n = ground arith in rw same out
    | inr e ↦ h j (ground arith)
  ]
  IsRarest-skip n (some i) out h = (
    omega (arith, h.0),
    h.1,
    λ j lt c. elim (Bool-cases (j == n)) [
      | inl e ↦ let same : j ≡ n = ground arith in absurd (false≢true (sym out ∙ rw same at c))
      | inr e ↦ h.2 j (ground arith) c
    ],
  )

  same_or_below : (n j : ℕ) → j < suc n → (j ≡ n) ⊎ (j < n)
  same_or_below n j h = elim (Bool-cases (j == n)) [
    | inl e ↦ inl (ground arith)
    | inr e ↦ inr (ground arith)
  ]

  IsRarest-first : (n : ℕ) → candidate n ≡ true → IsRarest n none → IsRarest (suc n) (some n)
  IsRarest-first n c h = (
    omega arith,
    c,
    λ j lt cj. elim (same_or_below n j lt) [
      | inl same ↦ rw same (omega arith)
      | inr below ↦ absurd (false≢true (sym (h j below) ∙ cj))
    ],
  )

  IsRarest-replace :
      (n i : ℕ)
      → candidate n ≡ true
      → count_of avail n ≤ count_of avail i
      → IsRarest n (some i)
      → IsRarest (suc n) (some n)
  IsRarest-replace n i c le h = (
    omega arith,
    c,
    λ j lt cj. elim (same_or_below n j lt) [
      | inl same ↦ rw same (omega arith)
      | inr below ↦ omega (arith, h.2 j below cj)
    ],
  )

  IsRarest-keep :
      (n i : ℕ)
      → count_of avail i ≤ count_of avail n
      → IsRarest n (some i)
      → IsRarest (suc n) (some i)
  IsRarest-keep n i le h = (
    omega (arith, h.0),
    h.1,
    λ j lt cj. elim (same_or_below n j lt) [ inl same ↦ rw same le | inr below ↦ h.2 j below cj ],
  )

  module _ (draw : ℕ → ℕ → ℕ) where
    abbrev at : ℕ → Best
    at n = rarest avail want draw n

    abbrev Sound : ℕ → Best → Type 0
    Sound n b = IsRarest n b.piece × Counted b.count b.piece

    -- One round of the loop, from the state that the rounds before it left.
    rarest-step : (n : ℕ) → Sound n (at n) → Sound (suc n) (at (suc n))
    unfolding rarest
    rarest-step n h = elim (Bool-cases (candidate n)) [
      | inr out ↦
          let skipped : (count_of avail n == 0 || not (want n)) ≡ true = ground arith in
          rw skipped (IsRarest-skip n (at n).piece out h.0, h.1)
      | inl c ↦
          let kept : (count_of avail n == 0 || not (want n)) ≡ false = ground arith in
          rw kept (elim (Option-cases (at n).piece) [
            | inl e ↦ rw e (IsRarest-first n c (rw e at h.0), refl)
            | inr (i, e) ↦
                let chosen : IsRarest n (some i) = rw e at h.0 in
                let counted : (at n).count ≡ count_of avail i = rw e at h.1 in
                rw e (elim (Bool-cases (ltb (count_of avail n) (at n).count)) [
                  | inl less ↦
                      rw less (IsRarest-replace n i c (ground (arith, counted)) chosen, refl)
                  | inr more ↦ rw more (elim (Bool-cases (count_of avail n == (at n).count)) [
                    | inl tie ↦ rw tie (elim (Bool-cases (draw n (suc (at n).ties) == 0)) [
                      | inl taken ↦
                          rw taken
                            (IsRarest-replace n i c (ground (arith, counted)) chosen, ground arith)
                      | inr kept ↦
                          rw kept (IsRarest-keep n i (ground (arith, counted)) chosen, counted)
                    ])
                    | inr apart ↦
                        rw (apart, e) (IsRarest-keep n i (ground (arith, counted)) chosen, counted)
                  ])
                ])
          ])
    ]

    rarest-Sound : (n : ℕ) → Sound n (at n)
    unfolding rarest
    rarest-Sound zero = ((λ j h. elim h [ ]), tt)
    rarest-Sound (suc n) = rarest-step n (rarest-Sound n)

    -- Rarest first starts a candidate that no other candidate is rarer than, whatever is drawn
    -- among ties, and nothing exactly where there is no candidate.
    pub rarest-IsRarest : (n : ℕ) → IsRarest n (rarest avail want draw n).piece
    rarest-IsRarest n = (rarest-Sound n).0
