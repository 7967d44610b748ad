-- ===== src/Chess/Square.antt =====
-- Squares, coordinates and their names: include/pct/chess/board.hpp, src/chess/board.cpp.
-- A square is a number; 64 is `no_square`. Coordinates are `int`s, which may leave the board.
pub mod Names
use Prim.Native.Char.{code}
use Prim.Native.String.{String}
use plywise.Errors.{Result, ok, err, invalid_argument, parse_error}
use plywise.Prelude.Int.{ℤ, pos, negsuc}
use plywise.Prelude.{
  ℕ, ◌+◌, ◌-◌, ◌*◌, ◌/◌, ◌%◌, Bool, false, ◌&&◌, ◌||◌, List, [], ◌∷◌, leb, ltb, if◌then◌else◌,
}

abbrev pub no_square : ℕ
no_square = 64

unfoldable pub file_of : ℕ → ℤ
file_of square = pos (square % 8)

unfoldable pub rank_of : ℕ → ℤ
rank_of square = pos (square / 8)

below_eight : ℤ → Bool
below_eight (pos n) = ltb n 8
below_eight (negsuc n) = false

unfoldable pub on_board : ℤ → ℤ → Bool
unfolding below_eight
on_board file rank = below_eight file && below_eight rank

-- `static_cast<Square>(rank * 8 + file)`; every caller has tested `on_board`, or its
-- arguments are not negative.
unfoldable pub make_square : ℤ → ℤ → ℕ
make_square (pos file) (pos rank) = (rank * 8 + file) % 256
make_square _ _ = 0

-- Text is a list of character codes.
abbrev pub Text : Type 0
Text = List ℕ

-- The text that a literal stands for.
abbrev pub codes : String → Text
codes String.[] = []
codes (String.◌∷◌ c s) = code c ∷ codes s

unfoldable pub square_name : ℕ → Result Text
square_name square =
    if leb 64 square
    then err invalid_argument
    else ok ((b'a' + square % 8) ∷ (b'1' + square / 8) ∷ [])

unfoldable pub parse_square : Text → Result ℕ
unfolding make_square
parse_square (f ∷ r ∷ []) =
    if ltb f b'a' || ltb b'h' f || ltb r b'1' || ltb b'8' r
    then err parse_error
    else ok (make_square (pos (f - b'a')) (pos (r - b'1')))
parse_square _ = err parse_error
