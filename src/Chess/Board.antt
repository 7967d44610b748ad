-- ===== src/Chess/Board.antt =====
-- `Move`, `Undo` and the state of `Board`: include/pct/chess/board.hpp, src/chess/board.cpp.
use Prim.Native.Nat.{bit_and}
use plywise.Chess.Piece.{Color, Piece, king, no_piece, PieceType, piece_eq}
use plywise.Chess.Square.{no_square}
use plywise.Errors.{Result, ok, err, invalid_argument}
use plywise.Prelude.{ℕ, ◌+◌, Bool, not, List, [], ◌∷◌, leb, ◌==◌, if◌then◌else◌, get_or}

pub record Move : Type 0 where
  pub from : ℕ
  pub to : ℕ
  pub promotion : PieceType
  pub flags : ℕ

-- `Move::has`.
unfoldable pub has : Move → ℕ → Bool
has m flag = not (bit_and m.flags flag == 0)

pub record Undo : Type 0 where
  pub captured : Piece
  pub captured_square : ℕ
  pub en_passant : ℕ
  pub castling_rights : ℕ
  pub halfmove_clock : ℕ
  pub fullmove_number : ℕ
  pub hash : ℕ

-- `squares` has 64 entries; the head of `repetition_history` is the oldest position.
pub record Board : Type 0 where
  pub squares : List Piece
  pub side_to_move : Color
  pub castling_rights : ℕ
  pub en_passant : ℕ
  pub halfmove_clock : ℕ
  pub fullmove_number : ℕ
  pub hash : ℕ
  pub repetition_history : List ℕ

-- `squares_[square]`, for a square on the board.
abbrev pub read : List Piece → ℕ → Piece
read squares square = get_or squares square no_piece

-- `Board::at`.
unfoldable pub piece_at : Board → ℕ → Result Piece
piece_at b square = if leb 64 square then err invalid_argument else ok (read b.squares square)

unfoldable pub king_from : Color → List Piece → ℕ → ℕ
king_from color [] square = no_square
king_from color (p ∷ ps) square =
    if piece_eq p (record { color = color; type = king })
    then square
    else king_from color ps (square + 1)

-- `Board::king_square`.
unfoldable pub king_square : Board → Color → ℕ
unfolding king_from
king_square b color = king_from color b.squares 0
