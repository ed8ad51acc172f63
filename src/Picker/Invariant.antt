-- ===== src/Picker/Invariant.antt =====
-- The invariant of the picker: the pieces in progress are pieces of the torrent, in order, each
-- once, none of them verified yet, each cut into its blocks with the count of those that arrived.
use go_torrent.Base.{
  ℕ, suc, ◌+◌, ◌-◌, ◌/◌, ◌≤◌, ◌<◌, ◌≡◌, ◌≢◌, inl, inr, Bool, false, Option, none, some, List, [],
  ◌∷◌, arith, ltb, ◌==◌, Bool-cases, length, All, pos,
}
use go_torrent.Bitfield
use go_torrent.Bitfield.{Bitfield}
use go_torrent.Bitfield.Invariant.{IsValid as IsValidBitfield}
use go_torrent.Picker.{Picker, find, put, delete, drop_verified}
use go_torrent.Picker.Progress.{PieceProgress, block_size}
use go_torrent.Picker.Cells.{count_arrived}

abbrev pub blocks_of : ℕ → ℕ
blocks_of len = (len + (block_size - 1)) / block_size

-- One piece in progress: `f` gives the piece lengths, `verified` what is on disk.
abbrev pub IsProgress : ℕ → (ℕ → ℕ) → (ℕ → Bool) → PieceProgress → Type 0
IsProgress n f verified pp =
    (pp.index < n)
    × (verified pp.index ≡ false)
    × (pp.len ≡ f pp.index)
    × (length pp.cells ≡ blocks_of (f pp.index))
    × (pp.done ≡ count_arrived pp.cells)

abbrev pub Ascending : ℕ → List PieceProgress → Type 0
Ascending least [] = Unit
Ascending least (pp ∷ pps) = (least ≤ pp.index) × Ascending (suc pp.index) pps

module _ (P : PieceProgress → Type 0) where
  pub put-All : (pps : List PieceProgress) (x : PieceProgress) → All P pps → P x → All P (put pps x)
  unfolding put
  put-All [] x h hx = (hx, tt)
  put-All (pp ∷ pps) x h hx = elim (Bool-cases (ltb x.index pp.index)) [
    | inl e ↦ rw e (hx, h)
    | inr e ↦ rw e (elim (Bool-cases (x.index == pp.index)) [
      | inl same ↦ rw same (hx, h.1)
      | inr other ↦ rw other (h.0, put-All pps x h.1 hx)
    ])
  ]

  pub delete-All :
      (pps : List PieceProgress) (i : ℕ)
      → All (λ pp. (pp.index ≢ i) → P pp) pps
      → All P (delete pps i)
  unfolding delete
  delete-All [] i h = tt
  delete-All (pp ∷ pps) i h = elim (Bool-cases (pp.index == i)) [
    | inl e ↦ rw e (delete-All pps i h.1)
    | inr e ↦ rw e (h.0 (ground arith), delete-All pps i h.1)
  ]

  abbrev Found : ℕ → Option PieceProgress → Type 0
  Found i none = Unit
  Found i (some pp) = P pp × (pp.index ≡ i)

  found : (pps : List PieceProgress) (i : ℕ) → All P pps → Found i (find pps i)
  unfolding find
  found [] i h = tt
  found (q ∷ qs) i h = elim (Bool-cases (q.index == i)) [
    | inl same ↦ rw same (h.0, ground arith)
    | inr other ↦ rw other (found qs i h.1)
  ]

  pub find-All :
      (pps : List PieceProgress) (i : ℕ) (pp : PieceProgress)
      → find pps i ≡ some pp
      → All P pps
      → P pp × (pp.index ≡ i)
  find-All pps i pp e h = rw e at (found pps i h)

pub All-map {ℓ κ μ} :
    {A : Type ℓ} (P : A → Type κ) (Q : A → Type μ) (xs : List A)
    → ((x : A) → P x → Q x)
    → All P xs
    → All Q xs
All-map P Q [] f h = tt
All-map P Q (x ∷ xs) f h = (f x h.0, All-map P Q xs f h.1)

pub Ascending-weaken :
    (least more_than : ℕ) (pps : List PieceProgress)
    → least ≤ more_than
    → Ascending more_than pps
    → Ascending least pps
Ascending-weaken least more_than [] le h = tt
Ascending-weaken least more_than (pp ∷ pps) le h = (omega (arith, h.0), h.1)

pub put-Ascending :
    (least : ℕ) (pps : List PieceProgress) (x : PieceProgress)
    → least ≤ x.index
    → Ascending least pps
    → Ascending least (put pps x)
unfolding put
put-Ascending least [] x le h = (le, tt)
put-Ascending least (pp ∷ pps) x le h = elim (Bool-cases (ltb x.index pp.index)) [
  | inl e ↦ rw e (le, (ground arith, h.1))
  | inr e ↦ rw e (elim (Bool-cases (x.index == pp.index)) [
    | inl same ↦ let is : x.index ≡ pp.index = ground arith in rw same (le, rw is h.1)
    | inr other ↦ rw other (h.0, put-Ascending (suc pp.index) pps x (ground arith) h.1)
  ])
]

pub delete-Ascending :
    (least : ℕ) (pps : List PieceProgress) (i : ℕ)
    → Ascending least pps
    → Ascending least (delete pps i)
unfolding delete
delete-Ascending least [] i h = tt
delete-Ascending least (pp ∷ pps) i h = elim (Bool-cases (pp.index == i)) [
  | inl e ↦ rw e (
      delete-Ascending least pps i
        (Ascending-weaken least (suc pp.index) pps (omega (arith, h.0)) h.1))
  | inr e ↦ rw e (h.0, delete-Ascending (suc pp.index) pps i h.1)
]

pub drop_verified-Ascending :
    (have : Bitfield) (least : ℕ) (pps : List PieceProgress)
    → Ascending least pps
    → Ascending least (drop_verified have pps)
unfolding drop_verified
drop_verified-Ascending have least [] h = tt
drop_verified-Ascending have least (pp ∷ pps) h =
    elim (Bool-cases (Bitfield.has have (pos pp.index))) [
      | inl e ↦ rw e (
          drop_verified-Ascending have least pps
            (Ascending-weaken least (suc pp.index) pps (omega (arith, h.0)) h.1))
      | inr e ↦ rw e (h.0, drop_verified-Ascending have (suc pp.index) pps h.1)
    ]

pub record IsValid (p : Picker) : Type 0 where
  pub wide : p.have.n ≡ p.cfg.num_pieces
  pub packed : IsValidBitfield p.have
  pub tracked :
      All
        (IsProgress p.cfg.num_pieces p.cfg.piece_length (λ i. Bitfield.has p.have (pos i)))
        p.active
  pub sorted : Ascending 0 p.active
