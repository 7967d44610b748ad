-- ===== src/Chess/Piece.antt =====
-- Pieces and their symbols: include/pct/chess/board.hpp, src/chess/board.cpp.
pub mod Symbols
use plywise.Prelude.{ℕ, ◌+◌, ◌-◌, Bool, true, false, ◌&&◌, leb, ◌==◌, if◌then◌else◌}

pub data Color : Type 0 where
  white black : Color

pub data PieceType : Type 0 where
  none pawn knight bishop rook queen king : PieceType

pub record Piece : Type 0 where
  pub color : Color
  pub type : PieceType

-- The number that `static_cast` gives an enumerator.
unfoldable pub type_index : PieceType → ℕ
type_index none = 0
type_index pawn = 1
type_index knight = 2
type_index bishop = 3
type_index rook = 4
type_index queen = 5
type_index king = 6

unfoldable pub color_eq : Color → Color → Bool
color_eq white white = true
color_eq black black = true
color_eq _ _ = false

unfoldable pub type_eq : PieceType → PieceType → Bool
unfolding type_index
type_eq a b = type_index a == type_index b

-- `Piece::operator==`.
unfoldable pub piece_eq : Piece → Piece → Bool
unfolding color_eq type_eq
piece_eq p q = color_eq p.color q.color && type_eq p.type q.type

-- `Piece::empty`.
unfoldable pub is_empty : Piece → Bool
unfolding type_eq
is_empty p = type_eq p.type none

-- `Piece{}`.
abbrev pub no_piece : Piece
no_piece = record { color = white; type = none }

unfoldable pub opposite : Color → Color
opposite white = black
opposite black = white

-- <cctype> in the "C" locale.
unfoldable pub is_upper : ℕ → Bool
is_upper c = leb b'A' c && leb c b'Z'

unfoldable pub to_lower : ℕ → ℕ
unfolding is_upper
to_lower c = if is_upper c then c + 32 else c

unfoldable pub to_upper : ℕ → ℕ
to_upper c = if leb b'a' c && leb c b'z' then c - 32 else c

lower_symbol : PieceType → ℕ
lower_symbol pawn = b'p'
lower_symbol knight = b'n'
lower_symbol bishop = b'b'
lower_symbol rook = b'r'
lower_symbol queen = b'q'
lower_symbol king = b'k'
lower_symbol none = b' '

-- A character is its code.
unfoldable pub piece_symbol : Piece → ℕ
unfolding lower_symbol to_upper
piece_symbol p = elim p.type [
  | none ↦ b' '
  | type ↦ elim p.color [ white ↦ to_upper (lower_symbol type) | black ↦ lower_symbol type ]
]

type_from_symbol : ℕ → PieceType
type_from_symbol c =
    if c == b'p'
    then pawn
    else if c == b'n'
    then knight
    else if c == b'b'
    then bishop
    else if c == b'r'
    then rook
    else if c == b'q'
    then queen
    else if c == b'k'
    then king
    else none

unfoldable pub piece_from_symbol : ℕ → Piece
unfolding type_from_symbol is_upper to_lower
piece_from_symbol c = record {
  color = if is_upper c then white else black;
  type = type_from_symbol (to_lower c);
}
