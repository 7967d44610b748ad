-- ===== src/Examples/Positions.antt =====
-- Positions for the tests, with the FENs that they are read from.
use plywise.Chess.Board.{Board, king_square, king_from}
use plywise.Chess.Attack.{holds}
use plywise.Chess.Fen.{
  from_fen, initial, split, split_onto, finish_word, is_space, is_digit, is_dash, parse_fields,
  parse_placement, place, place_symbol, empty_squares, parse_side, parse_rights, add_rights,
  parse_target, parse_uint, digits_value, finish_board, board_of_fields, has_kings, with_hash,
}
use plywise.Chess.Fen.Accepts.{from_fen-IsParsed, IsParsed-IsWellFormed}
use plywise.Chess.Make.{behind}
use plywise.Chess.Hash.{compute_hash, hash_squares, hash_en_passant, mix, piece_code}
use plywise.Chess.Piece.{
  white, black, Piece, PieceType, pawn, knight, bishop, rook, queen, king, no_piece,
  piece_from_symbol, is_empty, type_eq, piece_eq, color_eq, type_index,
}
use plywise.Chess.Shape.{IsWellFormed, HasTarget}
use plywise.Chess.Square.{codes, Text, parse_square, file_of, rank_of, on_board}
use plywise.Errors.{Result, ok}
use plywise.Prelude.Int.{◌+ℤ◌}
use plywise.Prelude.{ℕ, List, [], ◌∷◌, ◌++◌, ◌≡◌, refl, inl, inr, get_or, set, arith}

abbrev pub w : PieceType → Piece
w t = record { color = white; type = t }

abbrev pub b : PieceType → Piece
b t = record { color = black; type = t }

abbrev pub blanks : ℕ → List Piece
blanks ℕ.zero = []
blanks (ℕ.suc n) = no_piece ∷ blanks n

abbrev pub row : Piece → List Piece
row p = p ∷ p ∷ p ∷ p ∷ p ∷ p ∷ p ∷ p ∷ []

abbrev pub officers : (PieceType → Piece) → List Piece
officers c = c rook ∷ c knight ∷ c bishop ∷ c queen ∷ c king ∷ c bishop ∷ c knight ∷ c rook ∷ []

-- The initial position.
abbrev pub start_fen : Text
start_fen = codes "rnbqkbnr/pppppppp/8/8/8/8/PPPPPPPP/RNBQKBNR w KQkq - 0 1"

abbrev pub start : Board
start = record {
  squares = officers w ++ row (w pawn) ++ blanks 32 ++ row (b pawn) ++ officers b;
  side_to_move = white;
  castling_rights = 15;
  en_passant = 64;
  halfmove_clock = 0;
  fullmove_number = 1;
  hash = 1947601947446308384;
  repetition_history = 1947601947446308384 ∷ [];
}

-- The functions that a test of `from_fen` runs.
unfoldable pub fen_reader : Text → Result Board
unfolding from_fen split split_onto finish_word is_space is_digit is_dash parse_fields
    parse_placement place place_symbol empty_squares parse_side parse_rights add_rights parse_target
    parse_uint digits_value finish_board board_of_fields has_kings with_hash king_square king_from
    piece_eq color_eq type_eq type_index is_empty compute_hash hash_squares hash_en_passant mix
    piece_code piece_from_symbol get_or set
fen_reader = from_fen

pub start-from_fen : from_fen start_fen ≡ ok start
unfolding fen_reader
start-from_fen = refl

initial-start : initial ≡ ok start
unfolding initial fen_reader
initial-start = refl

pub start-IsWellFormed : IsWellFormed start
start-IsWellFormed = IsParsed-IsWellFormed (from_fen-IsParsed start_fen start-from_fen) (inl refl)

-- A knight of the side to move stands on the en passant target, and nothing behind it.
abbrev pub lost_fen : Text
lost_fen = codes "4k3/8/8/8/3N4/2P5/8/4K3 w - d4 0 1"

abbrev pub lost : Board
lost = record {
  squares =
      (blanks 4 ++ w king ∷ blanks 3)
      ++ blanks 8
      ++ (blanks 2 ++ w pawn ∷ blanks 5)
      ++ (blanks 3 ++ w knight ∷ blanks 4)
      ++ blanks 24
      ++ (blanks 4 ++ b king ∷ blanks 3);
  side_to_move = white;
  castling_rights = 0;
  en_passant = 27;
  halfmove_clock = 0;
  fullmove_number = 1;
  hash = 15370581350024216984;
  repetition_history = 15370581350024216984 ∷ [];
}

pub lost-from_fen : from_fen lost_fen ≡ ok lost
unfolding fen_reader parse_square holds on_board ◌+ℤ◌ file_of rank_of
lost-from_fen = refl

-- Black may capture en passant on e3.
abbrev pub passed_fen : Text
passed_fen = codes "4k3/8/8/8/3pP3/8/8/4K3 b - e3 0 3"

abbrev pub passed : Board
passed = record {
  squares =
      (blanks 4 ++ w king ∷ blanks 3)
      ++ blanks 16
      ++ (blanks 3 ++ b pawn ∷ w pawn ∷ blanks 3)
      ++ blanks 24
      ++ (blanks 4 ++ b king ∷ blanks 3);
  side_to_move = black;
  castling_rights = 0;
  en_passant = 20;
  halfmove_clock = 0;
  fullmove_number = 3;
  hash = 14319876559346640414;
  repetition_history = 14319876559346640414 ∷ [];
}

pub passed-from_fen : from_fen passed_fen ≡ ok passed
unfolding fen_reader parse_square holds on_board ◌+ℤ◌ file_of rank_of
passed-from_fen = refl

passed-HasTarget : HasTarget passed
unfolding behind get_or is_empty color_eq type_index
passed-HasTarget = record {
  target_on = omega arith;
  target_free = refl;
  victim_on = omega arith;
  victim_held = refl;
  victim_enemy = refl;
}

pub passed-IsWellFormed : IsWellFormed passed
passed-IsWellFormed =
    IsParsed-IsWellFormed (from_fen-IsParsed passed_fen passed-from_fen) (inr passed-HasTarget)
