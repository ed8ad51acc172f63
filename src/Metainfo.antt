-- ===== src/Metainfo.antt =====
-- What a torrent says of its pieces and files: internal/metainfo, metainfo.go and v2.go. A piece's
-- index is not negative; the hashes of the pieces are counted only. A subtraction that Go would take
-- below 0 stops there: a torrent that was read has lengths for which it does not.
pub mod Pieces
mod Tests
use go_torrent.Base.{
  holds_at, search, ℕ, suc, ◌+◌, ◌-◌, ◌*◌, ◌/◌, min, Bool, false, not, ◌&&◌, ◌||◌, Option, none,
  some, List, [], ◌∷◌, ltb, leb, ◌==◌, if◌then◌else◌, length, get_elem?, get_or,
}
use go_torrent.Bytes.{Bytes}

pub record FileInfo : Type 0 where
  pub length : ℕ
  pub attr : Bytes

abbrev pub letter_p : ℕ
letter_p = 112

abbrev pub contains_byte : ℕ → Bytes → Bool
contains_byte c [] = false
contains_byte c (x ∷ xs) = x == c || contains_byte c xs

unfoldable pub is_padding : FileInfo → Bool
is_padding f = contains_byte letter_p f.attr

pub record PieceRun : Type 0 where
  pub file_index : ℕ
  pub start_piece : ℕ
  pub num_pieces : ℕ

abbrev pub run_end : PieceRun → ℕ
run_end r = r.start_piece + r.num_pieces

pub record MetaInfo : Type 0 where
  pub num_hashes : ℕ
  pub total_length : ℕ
  pub meta_version : ℕ
  pub piece_length : ℕ
  pub info_length : ℕ
  pub files : List FileInfo
  pub v2_lengths : List ℕ
  pub v2_pieces : List PieceRun

-- The loop of `buildV2PieceRuns` from file `i` on, at the next piece.
unfoldable pub build_runs : ℕ → ℕ → ℕ → List ℕ → List PieceRun
build_runs piece_length i next [] = []
build_runs piece_length i next (len ∷ lens) =
    let n = (len + piece_length - 1) / piece_length in
    if len == 0
    then build_runs piece_length (suc i) next lens
    else record { file_index = i; start_piece = next; num_pieces = n }
      ∷ build_runs piece_length (suc i) (next + n) lens

abbrev pub build_v2_piece_runs : List ℕ → ℕ → List PieceRun
build_v2_piece_runs lens piece_length = build_runs piece_length 0 0 lens

unfoldable pub v2_total_pieces : List PieceRun → ℕ
v2_total_pieces [] = 0
v2_total_pieces (r ∷ []) = run_end r
v2_total_pieces (r ∷ s ∷ rs) = v2_total_pieces (s ∷ rs)

unfoldable pub num_pieces : MetaInfo → ℕ
num_pieces mi =
    if ltb 0 mi.num_hashes
    then mi.num_hashes
    else if mi.meta_version == 2
    then v2_total_pieces mi.v2_pieces
    else 0

-- The file of a piece and the piece's offset in it.
unfoldable pub piece_file : MetaInfo → ℕ → Option (ℕ × ℕ)
piece_file mi index =
    let runs = mi.v2_pieces in
    let n = length runs in
    let i = search n (holds_at (λ r. ltb index (run_end r)) runs) 0 n in
    elim (get_elem? runs i) [
      | none ↦ none
      | some r ↦
          if ltb index r.start_piece
          then none
          else some (r.file_index, (index - r.start_piece) * mi.piece_length)
    ]

unfoldable pub piece_len : MetaInfo → ℕ → ℕ
piece_len mi index =
    if ltb 0 mi.num_hashes
    then (if leb mi.num_hashes index
        then 0
        else if suc index == mi.num_hashes
        then mi.total_length - (mi.num_hashes - 1) * mi.piece_length
        else mi.piece_length)
    else if not (mi.meta_version == 2)
    then 0
    else elim (piece_file mi index) [
      | none ↦ 0
      | some (file, offset) ↦ min (get_or mi.v2_lengths file 0 - offset) mi.piece_length
    ]

unfoldable pub is_pure_v2 : MetaInfo → Bool
is_pure_v2 mi = mi.meta_version == 2 && mi.num_hashes == 0

unfoldable pub range_in : List PieceRun → ℕ → Option (ℕ × ℕ)
range_in [] file = none
range_in (r ∷ rs) file =
    let rest = range_in rs file in
    if r.file_index == file then some (r.start_piece, run_end r - 1) else rest

-- The first and the last piece of a file.
unfoldable pub v2_file_piece_range : MetaInfo → ℕ → Option (ℕ × ℕ)
v2_file_piece_range mi file = range_in mi.v2_pieces file
