-- ===== src/Picker/Cells.antt =====
-- The blocks of a piece under the operations on them: how many there are, and how many have arrived.
use go_torrent.Base.{
  ℕ, zero, suc, ◌+◌, ◌≤◌, ◌<◌, ◌≡◌, refl, sym, ap, inl, inr, Bool, true, false, false≢true, List,
  [], ◌∷◌, arith, if◌then◌else◌, Bool-cases, length, get_or, set, replicate, All,
}
use go_torrent.Picker.Progress.{
  BlockState, is_pending, is_arrived, Cell, PieceProgress, reset_cells, reset_pending, no_cell,
  is_overdue, expire_cells, skips, fill_cells, needed, pending, arrived,
}

pub count_arrived : List Cell → ℕ
count_arrived [] = 0
count_arrived (c ∷ cs) = (if is_arrived c.state then 1 else 0) + count_arrived cs

-- The two measures that the operations keep.
abbrev pub SameCells : List Cell → List Cell → Type 0
SameCells cs ds = (length cs ≡ length ds) × (count_arrived cs ≡ count_arrived ds)

SameCells-cons :
    (c d : Cell) (cs ds : List Cell)
    → is_arrived c.state ≡ is_arrived d.state
    → SameCells cs ds
    → SameCells (c ∷ cs) (d ∷ ds)
unfolding count_arrived
SameCells-cons c d cs ds e h = rw e (ap suc h.0, omega (arith, h.1))

pub reset_cells_lem :
    (cs : List Cell) → (length (reset_cells cs) ≡ length cs) × (count_arrived (reset_cells cs) ≡ 0)
unfolding reset_cells count_arrived
reset_cells_lem [] = (refl, refl)
reset_cells_lem (c ∷ cs) = let ih = reset_cells_lem cs in (ap suc ih.0, omega (arith, ih.1))

pending_not_arrived : (s : BlockState) → is_pending s ≡ true → is_arrived s ≡ false
pending_not_arrived needed e = refl
pending_not_arrived pending e = refl
pending_not_arrived arrived e = absurd (false≢true e)

pub reset_pending-SameCells : (cs : List Cell) → SameCells (reset_pending cs) cs
unfolding reset_pending
reset_pending-SameCells [] = (refl, refl)
reset_pending-SameCells (c ∷ cs) = elim (Bool-cases (is_pending c.state)) [
  | inl e ↦
      rw e
        (SameCells-cons _ c _ cs (sym (pending_not_arrived c.state e)) (reset_pending-SameCells cs))
  | inr e ↦ rw e (SameCells-cons c c _ cs refl (reset_pending-SameCells cs))
]

module _ (timeout now : ℕ) where
  pub expire_cells-SameCells : (cs : List Cell) → SameCells (expire_cells timeout now cs).1 cs
  unfolding expire_cells
  expire_cells-SameCells [] = (refl, refl)
  expire_cells-SameCells (c ∷ cs) = elim (Bool-cases (is_overdue timeout now c)) [
    | inl e ↦
        let was : is_pending c.state ≡ true = unfold is_overdue in ground arith in
        rw e (
          SameCells-cons _ c _ cs (sym (pending_not_arrived c.state was))
            (expire_cells-SameCells cs))
    | inr e ↦ rw e (SameCells-cons c c _ cs refl (expire_cells-SameCells cs))
  ]

pub skips-arrived :
    (endgame : Bool) (s : BlockState) → skips endgame s ≡ false → is_arrived s ≡ false
unfolding skips
skips-arrived endgame needed e = refl
skips-arrived endgame pending e = refl
skips-arrived endgame arrived e = absurd (false≢true (sym e))

module _ (pp : PieceProgress) (now : ℕ) (endgame : Bool) where
  pub fill_cells-SameCells :
      (room i : ℕ) (cs : List Cell) → SameCells (fill_cells pp now endgame room i cs).1 cs
  unfolding fill_cells
  fill_cells-SameCells room i [] = (refl, refl)
  fill_cells-SameCells zero i (c ∷ cs) = (refl, refl)
  fill_cells-SameCells (suc room) i (c ∷ cs) = elim (Bool-cases (skips endgame c.state)) [
    | inl e ↦ rw e (SameCells-cons c c _ cs refl (fill_cells-SameCells (suc room) (suc i) cs))
    | inr e ↦ rw e (
        SameCells-cons _ c _ cs (sym (skips-arrived endgame c.state e))
          (fill_cells-SameCells room (suc i) cs))
  ]

pub count_arrived-set :
    (cs : List Cell) (i : ℕ)
    → i < length cs
    → is_arrived (get_or cs i no_cell).state ≡ false
    → count_arrived (set cs i (record (get_or cs i no_cell) { state = arrived }))
      ≡ suc (count_arrived cs)
unfolding count_arrived
count_arrived-set [] i h e = elim h [ ]
count_arrived-set (c ∷ cs) zero h e = rw e (omega arith)
count_arrived-set (c ∷ cs) (suc i) h e = omega (arith, count_arrived-set cs i (omega arith) e)

pub count_arrived-le : (cs : List Cell) → count_arrived cs ≤ length cs
unfolding count_arrived
count_arrived-le [] = omega arith
count_arrived-le (c ∷ cs) = ground (arith, count_arrived-le cs)

-- All blocks are counted as arrived exactly when each of them has arrived.
pub all_arrived :
    (cs : List Cell) → count_arrived cs ≡ length cs → All (λ c. is_arrived c.state ≡ true) cs
unfolding count_arrived
all_arrived [] e = tt
all_arrived (c ∷ cs) e =
    let le = count_arrived-le cs in (ground arith, all_arrived cs (ground arith))

pub count_arrived-replicate : (n : ℕ) → count_arrived (replicate n no_cell) ≡ 0
unfolding count_arrived
count_arrived-replicate zero = refl
count_arrived-replicate (suc n) = omega (arith, count_arrived-replicate n)
