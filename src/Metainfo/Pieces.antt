-- ===== src/Metainfo/Pieces.antt =====
-- Which file a piece of a torrent of version 2 is of: internal/metainfo/v2.go.
use native.Mathlib.Nat.{div-eq_of_lt, le-div_iff_mul-le}
use go_torrent.Base.{
  search, ℕ, zero, suc, ◌+◌, ◌-◌, ◌*◌, ◌/◌, ◌≤◌, ◌<◌, ◌≡◌, refl, sym, subst, ◌∙◌, inl, inr, Bool,
  true, false, some, List, [], ◌∷◌, arith, ltb, ◌==◌, ==_refl, Bool-cases, length, get_or, IsBorder,
  search-IsBorder, holds_at, first, first-IsBorder,
}
use go_torrent.Metainfo.{
  PieceRun, run_end, MetaInfo, build_runs, build_v2_piece_runs, v2_total_pieces, piece_file,
  range_in, v2_file_piece_range,
}

-- The runs follow one another from a piece on.
abbrev IsChain : ℕ → List PieceRun → Type 0
IsChain o [] = Unit
IsChain o (r ∷ rs) = (r.start_piece ≡ o) × IsChain (run_end r) rs

build_runs-IsChain : (n i next : ℕ) (lens : List ℕ) → IsChain next (build_runs n i next lens)
unfolding build_runs
build_runs-IsChain n i next [] = tt
build_runs-IsChain n i next (len ∷ lens) = elim (Bool-cases (len == 0)) [
  | inl e ↦ rw e (build_runs-IsChain n (suc i) next lens)
  | inr e ↦ rw e (refl, build_runs-IsChain n (suc i) (next + (len + n - 1) / n) lens)
]

abbrev after : ℕ → PieceRun → Bool
after index r = ltb index (run_end r)

all_after :
    (rs : List PieceRun) (o index k : ℕ)
    → IsChain o rs
    → index < o
    → k < length rs
    → holds_at (after index) rs k ≡ true
all_after [] o index k c h l = absurd (omega arith)
all_after (r ∷ rs) o index zero c h l = let e = c.0 in ground arith
all_after (r ∷ rs) o index (suc k) c h l =
    let e = c.0 in all_after rs (run_end r) index k c.1 (omega arith) (omega arith)

after_rises :
    (rs : List PieceRun) (o index a b : ℕ)
    → IsChain o rs
    → a ≤ b
    → b < length rs
    → holds_at (after index) rs a ≡ true
    → holds_at (after index) rs b ≡ true
after_rises [] o index a b c ab l h = absurd (omega arith)
after_rises (r ∷ rs) o index zero zero c ab l h = h
after_rises (r ∷ rs) o index (suc a) zero c ab l h = absurd (omega arith)
after_rises (r ∷ rs) o index zero (suc b) c ab l h =
    all_after rs (run_end r) index b c.1 (ground arith) (omega arith)
after_rises (r ∷ rs) o index (suc a) (suc b) c ab l h =
    after_rises rs (run_end r) index a b c.1 (omega arith) (omega arith) h

-- How many pieces the files have.
abbrev pieces_of : ℕ → List ℕ → ℕ
pieces_of n [] = 0
pieces_of n (len ∷ lens) = (len + n - 1) / n + pieces_of n lens

v2_total_pieces_le :
    (b : ℕ) (r : PieceRun) (rs : List PieceRun)
    → run_end r ≤ b
    → v2_total_pieces rs ≤ b
    → v2_total_pieces (r ∷ rs) ≤ b
unfolding v2_total_pieces
v2_total_pieces_le b r [] h k = h
v2_total_pieces_le b r (s ∷ rs) h k = k

v2_total_pieces-build_runs :
    (n i next : ℕ) (lens : List ℕ)
    → v2_total_pieces (build_runs n i next lens) ≤ next + pieces_of n lens
unfolding build_runs
v2_total_pieces-build_runs n i next [] = unfold v2_total_pieces in omega arith
v2_total_pieces-build_runs n i next (len ∷ lens) = elim (Bool-cases (len == 0)) [
  | inl e ↦ let rest = v2_total_pieces-build_runs n (suc i) next lens in rw e (omega (arith, rest))
  | inr e ↦
      let m = (len + n - 1) / n in
      let rest = v2_total_pieces-build_runs n (suc i) (next + m) lens in
      rw e (
        v2_total_pieces_le (next + (m + pieces_of n lens)) _ (build_runs n (suc i) (next + m) lens)
          (omega arith) (omega (arith, rest)))
]

-- The run of a piece, among those of the files from `i` on.
record IsRunOf (n i index : ℕ) (lens : List ℕ) (rs : List PieceRun) : Type 0 where
  run : PieceRun
  found : first (after index) rs ≡ some run
  starts : run.start_piece ≤ index
  ends : index < run_end run
  range : range_in rs run.file_index ≡ some (run.start_piece, run_end run - 1)
  later : i ≤ run.file_index
  inside : (index - run.start_piece) * n < get_or lens (run.file_index - i) 0

piece_inside : (n len k : ℕ) → 0 < n → k < (len + n - 1) / n → k * n < len
piece_inside n len k h l =
    let up = (le-div_iff_mul-le {k = n} {x = suc k} {y = len + n - 1} h).0 l in ground (arith, up)

inside_later :
    (i file x len : ℕ) (lens : List ℕ)
    → suc i ≤ file
    → x < get_or lens (file - suc i) 0
    → x < get_or (len ∷ lens) (file - i) 0
inside_later i file x len lens l h = let e : file - i ≡ suc (file - suc i) = omega arith in rw e h

file_later :
    (n i index len : ℕ) (lens : List ℕ) (rs : List PieceRun)
    → IsRunOf n (suc i) index lens rs
    → IsRunOf n i index (len ∷ lens) rs
file_later n i index len lens rs r =
    let l = r.later in
    record {
      run = r.run;
      found = r.found;
      starts = r.starts;
      ends = r.ends;
      range = r.range;
      later = omega arith;
      inside = inside_later i r.run.file_index _ len lens l r.inside;
    }

run_later :
    (n i index len : ℕ) (lens : List ℕ) (s : PieceRun) (rs : List PieceRun)
    → s.file_index ≡ i
    → run_end s ≤ index
    → IsRunOf n (suc i) index lens rs
    → IsRunOf n i index (len ∷ lens) (s ∷ rs)
unfolding range_in
run_later n i index len lens s rs e p r =
    let l = r.later in
    let passed : after index s ≡ false = ground arith in
    let other : (s.file_index == r.run.file_index) ≡ false = ground arith in
    record {
      run = r.run;
      found = rw passed r.found;
      starts = r.starts;
      ends = r.ends;
      range = rw other r.range;
      later = omega arith;
      inside = inside_later i r.run.file_index _ len lens l r.inside;
    }

build_runs-IsRunOf :
    (n i next index : ℕ) (lens : List ℕ)
    → 0 < n
    → next ≤ index
    → index < next + pieces_of n lens
    → IsRunOf n i index lens (build_runs n i next lens)
unfolding build_runs range_in
build_runs-IsRunOf n i next index [] h a b = absurd (omega arith)
build_runs-IsRunOf n i next index (len ∷ lens) h a b = elim (Bool-cases (len == 0)) [
  | inl e ↦
      let empty : len ≡ 0 = ground arith in
      let few : len + n - 1 < n = omega arith in
      let no_piece = div-eq_of_lt few in
      rw e (
        file_later n i index len lens _
          (build_runs-IsRunOf n (suc i) next index lens h a (omega (arith, no_piece))))
  | inr e ↦
      let m = (len + n - 1) / n in
      let s : PieceRun = record { file_index = i; start_piece = next; num_pieces = m } in
      let rest = build_runs n (suc i) (next + m) lens in
      elim (Bool-cases (after index s)) [
        | inl here ↦
            let same : (i == i) ≡ true = ==_refl i in
            let zero_off : i - i ≡ 0 = omega arith in
            let is : IsRunOf n i index (len ∷ lens) (s ∷ rest) = record {
              run = s;
              found = rw here refl;
              starts = a;
              ends = ground arith;
              range = rw same refl;
              later = omega arith;
              inside = rw zero_off (piece_inside n len (index - next) h (ground arith));
            } in
            rw e is
        | inr beyond ↦ rw e (
            run_later n i index len lens s rest refl (ground arith)
              (build_runs-IsRunOf n (suc i) (next + m) index lens h (ground arith) (omega arith)))
      ]
]

-- What a piece of a torrent of version 2 is of.
pub record IsPieceOf (mi : MetaInfo) (index : ℕ) : Type 0 where
  pub file : ℕ
  pub first_piece : ℕ
  pub last_piece : ℕ
  pub found : piece_file mi index ≡ some (file, (index - first_piece) * mi.piece_length)
  pub range : v2_file_piece_range mi file ≡ some (first_piece, last_piece)
  pub from_first : first_piece ≤ index
  pub to_last : index ≤ last_piece
  pub inside : (index - first_piece) * mi.piece_length < get_or mi.v2_lengths file 0

-- For the runs that `buildV2PieceRuns` makes of the files, with a piece length that is not 0: each
-- piece below their number is resolved to a file whose range of pieces has it, and to the offset of
-- the piece from the first of them, which lies within the file.
pub piece_file-IsPieceOf :
    (mi : MetaInfo) (index : ℕ)
    → 0 < mi.piece_length
    → mi.v2_pieces ≡ build_v2_piece_runs mi.v2_lengths mi.piece_length
    → index < v2_total_pieces mi.v2_pieces
    → IsPieceOf mi index
unfolding piece_file v2_file_piece_range
piece_file-IsPieceOf mi index h built l =
    let n = mi.piece_length in
    let lens = mi.v2_lengths in
    let runs = mi.v2_pieces in
    let total = v2_total_pieces-build_runs n 0 0 lens in
    let bound : index < v2_total_pieces (build_v2_piece_runs lens n) =
      subst (λ rs. index < v2_total_pieces rs) built l in
    let r : IsRunOf n 0 index lens runs =
      subst (λ rs. IsRunOf n 0 index lens rs) (sym built)
        (build_runs-IsRunOf n 0 0 index lens h (omega arith) (omega (arith, total))) in
    let chain : IsChain 0 runs =
      subst (λ rs. IsChain 0 rs) (sym built) (build_runs-IsChain n 0 0 lens) in
    let test = holds_at (after index) runs in
    let border : IsBorder test (length runs) (search (length runs) test 0 (length runs)) =
      search-IsBorder test (length runs)
        (λ a b ab k t. after_rises runs 0 index a b chain ab k t) in
    let at = first-IsBorder (after index) runs _ border ∙ r.found in
    let starts : ltb index r.run.start_piece ≡ false = let s = r.starts in ground arith in
    let zero_off : r.run.file_index - 0 ≡ r.run.file_index = omega arith in
    record {
      file = r.run.file_index;
      first_piece = r.run.start_piece;
      last_piece = run_end r.run - 1;
      found = rw (piece_file, at) (rw starts refl);
      range = r.range;
      from_first = r.starts;
      to_last = let e = r.ends in omega arith;
      inside = rw zero_off at r.inside;
    }
