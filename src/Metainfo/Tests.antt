-- ===== src/Metainfo/Tests.antt =====
-- Examples for the pieces of a torrent: files of 5, 0 and 8 bytes in pieces of 4.
use go_torrent.Base.{search, ◌≡◌, refl, [], ◌∷◌, map, arith}
use go_torrent.Metainfo.{
  num_pieces, MetaInfo, build_runs, build_v2_piece_runs, v2_total_pieces, piece_file, piece_len,
}
use go_torrent.Metainfo.Pieces.{IsPieceOf, piece_file-IsPieceOf}

abbrev three_files : MetaInfo
three_files = record {
  num_hashes = 0;
  total_length = 13;
  meta_version = 2;
  piece_length = 4;
  info_length = 0;
  files = [];
  v2_lengths = 5 ∷ 0 ∷ 8 ∷ [];
  v2_pieces =
      record { file_index = 0; start_piece = 0; num_pieces = 2 }
      ∷ record { file_index = 2; start_piece = 2; num_pieces = 2 }
      ∷ [];
}

three_runs : three_files.v2_pieces ≡ build_v2_piece_runs (5 ∷ 0 ∷ 8 ∷ []) 4
unfolding build_runs
three_runs = refl

four_pieces : num_pieces three_files ≡ 4
unfolding num_pieces v2_total_pieces
four_pieces = refl

lengths : map (piece_len three_files) (0 ∷ 1 ∷ 2 ∷ 3 ∷ 4 ∷ []) ≡ 4 ∷ 1 ∷ 4 ∷ 4 ∷ 0 ∷ []
unfolding piece_len piece_file search
lengths = refl

abbrev old_style : MetaInfo
old_style = record {
  num_hashes = 3;
  total_length = 10;
  meta_version = 0;
  piece_length = 4;
  info_length = 10;
  files = [];
  v2_lengths = [];
  v2_pieces = [];
}

old_lengths : map (piece_len old_style) (0 ∷ 1 ∷ 2 ∷ 3 ∷ []) ≡ 4 ∷ 4 ∷ 2 ∷ 0 ∷ []
unfolding piece_len
old_lengths = refl

piece_file-IsPieceOf_example : IsPieceOf three_files 3
piece_file-IsPieceOf_example =
    piece_file-IsPieceOf three_files 3 (omega arith) three_runs
      (unfold v2_total_pieces in omega arith)
