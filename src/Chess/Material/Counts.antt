-- ===== src/Chess/Material/Counts.antt =====
-- `material` in terms of the number of pieces of each type.
use plywise.Chess.Board.{Board}
use plywise.Chess.Material.{value_of, material_loop, material}
use plywise.Chess.Piece.{
  Color, Piece, PieceType, pawn, knight, bishop, rook, queen, is_empty, color_eq, type_eq,
  type_index,
}
use plywise.Prelude.{ℕ, ◌+◌, ◌*◌, ◌≡◌, ◌&&◌, List, [], ◌∷◌, if◌then◌else◌, arith}

-- How many pieces of a colour and a type there are.
unfoldable pub count_pieces : Color → PieceType → List Piece → ℕ
count_pieces color t [] = 0
count_pieces color t (p ∷ ps) =
    (if color_eq p.color color && type_eq p.type t then 1 else 0) + count_pieces color t ps

abbrev weighed : Color → List Piece → ℕ
weighed color ps =
    100 * count_pieces color pawn ps
    + 320 * count_pieces color knight ps
    + 330 * count_pieces color bishop ps
    + 500 * count_pieces color rook ps
    + 900 * count_pieces color queen ps

material_loop-weighed :
    (color : Color) (ps : List Piece) (total : ℕ)
    → material_loop color ps total ≡ total + weighed color ps
unfolding material_loop count_pieces is_empty value_of type_eq type_index
material_loop-weighed color [] total = omega arith
material_loop-weighed color (p ∷ ps) total = ground (
  arith,
  material_loop-weighed color ps total,
  material_loop-weighed color ps (total + value_of p.type),
)

-- The material of a side is 100 for each pawn, 320 for each knight, 330 for each bishop, 500 for each
-- rook and 900 for each queen that it has.
pub material-weighed :
    (b : Board) (color : Color)
    → material b color
      ≡ 100 * count_pieces color pawn b.squares
        + 320 * count_pieces color knight b.squares
        + 330 * count_pieces color bishop b.squares
        + 500 * count_pieces color rook b.squares
        + 900 * count_pieces color queen b.squares
unfolding material
material-weighed b color = omega (arith, material_loop-weighed color b.squares 0)
