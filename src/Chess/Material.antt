-- ===== src/Chess/Material.antt =====
-- The value of a side's pieces: `Board::material` of src/chess/board.cpp.
pub mod Counts
use plywise.Chess.Board.{Board}
use plywise.Chess.Piece.{
  Color, Piece, PieceType, none, pawn, knight, bishop, rook, queen, king, is_empty, color_eq,
}
use plywise.Prelude.{ℕ, ◌+◌, not, ◌||◌, List, [], ◌∷◌, if◌then◌else◌}

unfoldable pub value_of : PieceType → ℕ
value_of pawn = 100
value_of knight = 320
value_of bishop = 330
value_of rook = 500
value_of queen = 900
value_of king = 0
value_of none = 0

-- The loop over the squares. The total is at most 64 times 900, so that an `int` holds it.
unfoldable pub material_loop : Color → List Piece → ℕ → ℕ
material_loop color [] total = total
material_loop color (p ∷ ps) total =
    let skip = material_loop color ps total in
    let add = material_loop color ps (total + value_of p.type) in
    if is_empty p || not (color_eq p.color color) then skip else add

unfoldable pub material : Board → Color → ℕ
material b color = material_loop color b.squares 0
