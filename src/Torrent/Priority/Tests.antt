-- ===== src/Torrent/Priority/Tests.antt =====
-- Examples for the priorities of pieces: files of 10, 0 and 10 bytes in pieces of 8.
use go_torrent.Base.{◌+◌, ◌≡◌, refl, true, false, [], ◌∷◌, arith, get_or}
use go_torrent.Metainfo.{letter_p, is_padding, num_pieces, MetaInfo, piece_len, is_pure_v2}
use go_torrent.Picker.{skip, low, normal, high}
use go_torrent.Torrent.Priority.{
  num_files, file_lengths, padding_flags, normalized_file_priorities, file_spans, skip_ended,
  best_from, span_priorities, piece_priorities, any_wanted, need_from, files_needing_allocation,
  boost_from, boost_first_and_last_piece,
}
use go_torrent.Torrent.Priority.Overlap.{highest, piece_priorities-highest}
use go_torrent.Torrent.Priority.Needed.{files_needing_allocation-wanted}

abbrev three_files : MetaInfo
three_files = record {
  num_hashes = 3;
  total_length = 20;
  meta_version = 0;
  piece_length = 8;
  info_length = 0;
  files =
      record { length = 10; attr = [] }
      ∷ record { length = 0; attr = letter_p ∷ [] }
      ∷ record { length = 10; attr = [] }
      ∷ [];
  v2_lengths = [];
  v2_pieces = [];
}

defaults : normalized_file_priorities three_files (high ∷ []) ≡ high ∷ skip ∷ normal ∷ []
unfolding normalized_file_priorities padding_flags num_files is_pure_v2 is_padding
defaults = refl

shared_piece : piece_priorities three_files (skip ∷ skip ∷ low ∷ []) ≡ skip ∷ low ∷ low ∷ []
unfolding piece_priorities normalized_file_priorities padding_flags num_files is_pure_v2 is_padding
    span_priorities skip_ended best_from file_spans file_lengths num_pieces piece_len
shared_piece = refl

-- A file without bytes within a piece decides about it too.
empty_file : piece_priorities three_files (skip ∷ high ∷ skip ∷ []) ≡ skip ∷ high ∷ skip ∷ []
unfolding piece_priorities normalized_file_priorities padding_flags num_files is_pure_v2 is_padding
    span_priorities skip_ended best_from file_spans file_lengths num_pieces piece_len
empty_file = refl

needed :
    files_needing_allocation three_files (skip ∷ skip ∷ low ∷ []) (skip ∷ low ∷ low ∷ [])
    ≡ true ∷ false ∷ true ∷ []
unfolding files_needing_allocation need_from any_wanted is_pure_v2 file_lengths
needed = refl

boosted :
    boost_first_and_last_piece three_files (skip ∷ skip ∷ low ∷ []) (skip ∷ low ∷ low ∷ [])
    ≡ skip ∷ high ∷ high ∷ []
unfolding boost_first_and_last_piece boost_from is_pure_v2 file_lengths
boosted = refl

is_v1 : is_pure_v2 three_files ≡ false
unfolding is_pure_v2
is_v1 = refl

piece_priorities-highest_example :
    get_or (piece_priorities three_files (skip ∷ skip ∷ low ∷ [])) 1 skip
    ≡ highest skip 8 (8 + piece_len three_files 1) (
        file_spans 0
          (file_lengths three_files)
          (normalized_file_priorities three_files (skip ∷ skip ∷ low ∷ [])))
piece_priorities-highest_example =
    piece_priorities-highest three_files (skip ∷ skip ∷ low ∷ []) 1 is_v1
      (unfold num_pieces in omega arith)

files_needing_allocation-wanted_example :
    get_or
      (files_needing_allocation three_files (skip ∷ skip ∷ low ∷ []) (skip ∷ low ∷ low ∷ []))
      0
      false
    ≡ true
files_needing_allocation-wanted_example =
    files_needing_allocation-wanted three_files (skip ∷ skip ∷ low ∷ []) (skip ∷ low ∷ low ∷ []) 0 9
      is_v1 (omega arith) (unfold file_lengths in omega arith) (unfold file_lengths in omega arith)
      (unfold file_lengths in omega arith) (omega arith) refl
