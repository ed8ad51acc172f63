-- ===== src/Torrent/Priority.antt =====
-- From the priorities of files to those of pieces and to the files on disk: internal/torrent/priority.go.
-- A list of priorities is as long as the list it goes with.
use go_torrent.Base.{
  ℕ, zero, suc, ◌+◌, ◌-◌, ◌*◌, ◌/◌, Bool, true, false, not, ◌&&◌, ◌||◌, none, some, List, [], ◌∷◌,
  map, ltb, leb, ◌==◌, if◌then◌else◌, length, get_or, set, take, replicate, copy,
}
use go_torrent.Metainfo.{
  is_padding, num_pieces, MetaInfo, piece_file, piece_len, is_pure_v2, v2_file_piece_range,
}
use go_torrent.Picker.{Priority, is_skip, skip, low, normal, high}
pub mod Overlap
pub mod Needed
mod Tests

abbrev pub level : Priority → ℕ
level skip = 0
level low = 1
level normal = 2
level high = 3

unfoldable pub num_files : MetaInfo → ℕ
num_files mi =
    if is_pure_v2 mi
    then length mi.v2_lengths
    else if ltb 0 (length mi.files)
    then length mi.files
    else 1

unfoldable pub file_lengths : MetaInfo → List ℕ
file_lengths mi =
    if ltb 0 (length mi.files) then map (λ f. f.length) mi.files else mi.info_length ∷ []

unfoldable pub padding_flags : MetaInfo → List Bool
padding_flags mi =
    if ltb 0 (length mi.files)
    then copy (replicate (num_files mi) false) (map is_padding mi.files)
    else replicate (num_files mi) false

unfoldable pub normalized_file_priorities : MetaInfo → List Priority → List Priority
normalized_file_priorities mi file_priorities =
    copy (map (λ pad. if pad then skip else normal) (padding_flags mi)) file_priorities

pub record FileSpan : Type 0 where
  pub start : ℕ
  pub end : ℕ
  pub priority : Priority

-- The spans of the files from an offset on.
unfoldable pub file_spans : ℕ → List ℕ → List Priority → List FileSpan
file_spans offset [] ps = []
file_spans offset (len ∷ lens) [] = []
file_spans offset (len ∷ lens) (p ∷ ps) =
    record { start = offset; end = offset + len; priority = p } ∷ file_spans (offset + len) lens ps

-- The loop that moves `si` on.
unfoldable pub skip_ended : ℕ → List FileSpan → List FileSpan
skip_ended piece_start [] = []
skip_ended piece_start (s ∷ ss) =
    let rest = skip_ended piece_start ss in if leb s.end piece_start then rest else s ∷ ss

-- The loop over `j`.
unfoldable pub best_from : Priority → ℕ → List FileSpan → Priority
best_from best piece_end [] = best
best_from best piece_end (s ∷ ss) =
    let next = if ltb (level best) (level s.priority) then s.priority else best in
    let rest = best_from next piece_end ss in if ltb s.start piece_end then rest else best

-- The loop over the pieces from `i` on, with the spans from `si` on.
unfoldable pub span_priorities : MetaInfo → ℕ → ℕ → List FileSpan → List Priority
span_priorities mi zero i spans = []
span_priorities mi (suc k) i spans =
    let piece_start = i * mi.piece_length in
    let left = skip_ended piece_start spans in
    best_from skip (piece_start + piece_len mi i) left ∷ span_priorities mi k (suc i) left

-- The loop of the branch for v2 over the pieces from `i` on.
unfoldable pub v2_priorities : MetaInfo → List Priority → ℕ → ℕ → List Priority
v2_priorities mi ps zero i = []
v2_priorities mi ps (suc k) i =
    elim (piece_file mi i) [ none ↦ skip | some (file, offset) ↦ get_or ps file skip ]
    ∷ v2_priorities mi ps k (suc i)

unfoldable pub piece_priorities : MetaInfo → List Priority → List Priority
piece_priorities mi file_priorities =
    let ps = normalized_file_priorities mi file_priorities in
    if is_pure_v2 mi
    then v2_priorities mi ps (num_pieces mi) 0
    else span_priorities mi (num_pieces mi) 0 (file_spans 0 (file_lengths mi) ps)

-- Whether one of some pieces, `p` the first, is wanted; there are no pieces beyond the list.
unfoldable pub any_wanted : List Priority → ℕ → ℕ → Bool
any_wanted pp p zero = false
any_wanted pp p (suc k) =
    let rest = any_wanted pp (suc p) k in
    if ltb p (length pp) then not (is_skip (get_or pp p skip)) || rest else false

-- The loop of `filesNeedingAllocation` from file `i` on, at its offset.
unfoldable pub need_from : MetaInfo → List Priority → List Priority → ℕ → ℕ → List ℕ → List Bool
need_from mi file_priorities pp i offset [] = []
need_from mi file_priorities pp i offset (len ∷ lens) =
    let rest = need_from mi file_priorities pp (suc i) (offset + len) lens in
    let first_piece = offset / mi.piece_length in
    let last_piece = (offset + len - 1) / mi.piece_length in
    (if not (is_skip (get_or file_priorities i skip))
      then true
      else if ltb 0 len
      then any_wanted pp first_piece (suc last_piece - first_piece)
      else false)
    ∷ rest

unfoldable pub files_needing_allocation : MetaInfo → List Priority → List Priority → List Bool
files_needing_allocation mi file_priorities pp =
    if is_pure_v2 mi
    then take (length mi.v2_lengths) (map (λ p. not (is_skip p)) file_priorities)
    else need_from mi file_priorities pp 0 0 (file_lengths mi)

abbrev pub raise : List Priority → ℕ → List Priority
raise ps i = set ps i (if ltb (level (get_or ps i skip)) 3 then high else get_or ps i skip)

-- The loops of `boostFirstAndLastPiece` from file `i` on.
unfoldable pub boost_v2 : MetaInfo → List Priority → ℕ → List ℕ → List Priority → List Priority
boost_v2 mi file_priorities i [] ps = ps
boost_v2 mi file_priorities i (len ∷ lens) ps = boost_v2 mi file_priorities (suc i) lens (
    if len == 0 || is_skip (get_or file_priorities i skip)
    then ps
    else elim (v2_file_piece_range mi i) [ none ↦ ps | some (p, q) ↦ raise (raise ps p) q ])

unfoldable pub boost_from :
    MetaInfo → List Priority → ℕ → ℕ → List ℕ → List Priority → List Priority
boost_from mi file_priorities i offset [] ps = ps
boost_from mi file_priorities i offset (len ∷ lens) ps =
    let first_piece = offset / mi.piece_length in
    let last_piece = (offset + len - 1) / mi.piece_length in
    boost_from mi file_priorities (suc i) (offset + len) lens (
      if ltb 0 len && not (is_skip (get_or file_priorities i skip))
      then raise (raise ps first_piece) last_piece
      else ps)

unfoldable pub boost_first_and_last_piece : MetaInfo → List Priority → List Priority → List Priority
boost_first_and_last_piece mi file_priorities ps =
    if is_pure_v2 mi
    then boost_v2 mi file_priorities 0 mi.v2_lengths ps
    else boost_from mi file_priorities 0 0 (file_lengths mi) ps
