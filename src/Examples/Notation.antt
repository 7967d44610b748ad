-- ===== src/Examples/Notation.antt =====
-- Engine pool, notation: tests, and the theorems at concrete states.
use plywise.Chess.Piece.{type_index, color_eq, type_eq, piece_eq, is_empty, opposite}
use plywise.Chess.Square.{codes, file_of, rank_of, on_board, make_square}
use plywise.Chess.Board.{has, king_from, king_square}
use plywise.Chess.Attack.{
  any_offset, holds, pawn_source_rank, pawn_attacks, knight_attacks, line_attacker, line_attacks,
  directions_attack, is_square_attacked, in_check,
}
use plywise.Chess.Moves.{
  append_each, add_move, add_pawn_move, add_pawn_capture, add_pawn_pushes, add_pawn_moves, add_step,
  add_knight_moves, slide, add_sliding_moves, all_of, may_castle, add_castle, add_castles,
  add_king_moves, moves_by_type, moves_from, squares_from, pseudo_legal_moves,
}
use plywise.Chess.Hash.{mix, piece_code, hash_squares, hash_en_passant, compute_hash}
use plywise.Chess.Make.{
  behind, king_side_rook, queen_side_rook, transfer, castle_rook, rights_king, rights_corner,
  rights_after, captured_at, arriving, squares_after, moved, record_hash,
}
use plywise.Chess.Board.{Board, Move}
use plywise.Chess.Legal.Perft.{legal_list}
use plywise.Chess.Moves.{mk_move}
use plywise.Chess.Piece.{none}
use plywise.Chess.Fen.{is_space}
use plywise.Chess.San.Parsed.{parse_san-FirstNamed, FirstNamed}
use plywise.Chess.San.{normalize, parse_san, squeeze, drop_marks, erase_ep, is_mark, starts_ep}
use plywise.Examples.Positions.{passed, passed-IsWellFormed}
use plywise.Prelude.Int.{◌+ℤ◌, to_u8}
use plywise.Prelude.{◌≡◌, refl, List, [], ◌∷◌, get_or, set}

-- The functions that a test of the legal moves runs.
unfoldable pub legal : Board → List Move
unfolding type_index color_eq type_eq piece_eq is_empty opposite file_of rank_of on_board
    make_square has king_from king_square any_offset holds pawn_source_rank pawn_attacks
    knight_attacks line_attacker line_attacks directions_attack is_square_attacked in_check
    append_each add_move add_pawn_move add_pawn_capture add_pawn_pushes add_pawn_moves add_step
    add_knight_moves slide add_sliding_moves all_of may_castle add_castle add_castles add_king_moves
    moves_by_type moves_from squares_from pseudo_legal_moves mix piece_code hash_squares
    hash_en_passant compute_hash behind king_side_rook queen_side_rook transfer castle_rook
    rights_king rights_corner rights_after captured_at arriving squares_after moved record_hash
    get_or set ◌+ℤ◌ to_u8
legal = legal_list

abbrev after_d3 : List Move
after_d3 =
    mk_move 27 20 none 17
    ∷ mk_move 60 61 none 0
    ∷ mk_move 60 59 none 0
    ∷ mk_move 60 52 none 0
    ∷ mk_move 60 53 none 0
    ∷ mk_move 60 51 none 0
    ∷ []

passed-legal : legal passed ≡ mk_move 27 19 none 0 ∷ after_d3
unfolding legal
passed-legal = refl

parse_san-FirstNamed_example :
    FirstNamed passed
      (normalize (codes "dxe3"))
      (legal_list passed)
      (parse_san passed (codes "dxe3"))
parse_san-FirstNamed_example = parse_san-FirstNamed passed passed-IsWellFormed (codes "dxe3")

normalize-annotated : normalize (codes " 0-0 +!?") ≡ codes "O-O"
unfolding normalize squeeze drop_marks erase_ep is_mark starts_ep is_space
normalize-annotated = refl
