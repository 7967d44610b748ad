-- ===== src/Chess/Moves/Geometry.antt =====
-- Coordinates and squares.
use plywise.Chess.Square.{file_of, rank_of, on_board, make_square}
use plywise.Prelude.Int.{ℤ, pos, negsuc, ◌+ℤ◌}
use plywise.Prelude.{ℕ, ◌+◌, ◌<◌, ◌≤◌, ◌≡◌, true, arith}

-- Coordinates on the board name one of the 64 squares, and are its file and rank.
pub make_square-on_board :
    (file rank : ℤ)
    → on_board file rank ≡ true
    → (make_square file rank < 64)
      × (file_of (make_square file rank) ≡ file)
      × (rank_of (make_square file rank) ≡ rank)
unfolding on_board make_square file_of rank_of
make_square-on_board (pos f) (pos r) h = ground arith
make_square-on_board (pos f) (negsuc r) h = ground arith
make_square-on_board (negsuc f) (pos r) h = ground arith
make_square-on_board (negsuc f) (negsuc r) h = ground arith

-- The squares that a pawn steps to.
pub one_white :
    (from : ℕ) → from < 64 → make_square (file_of from) (rank_of from +ℤ pos 1) ≡ from + 8
unfolding make_square file_of rank_of ◌+ℤ◌
one_white from h = ground arith

pub one_black :
    (from : ℕ)
    → from < 64
    → 8 ≤ from
    → make_square (file_of from) (rank_of from +ℤ negsuc 0) + 8 ≡ from
unfolding make_square file_of rank_of ◌+ℤ◌
one_black from h k = ground arith

pub two_white :
    (from : ℕ) → from < 64 → make_square (file_of from) (rank_of from +ℤ pos 2) ≡ from + 16
unfolding make_square file_of rank_of ◌+ℤ◌
two_white from h = ground arith

pub two_black :
    (from : ℕ)
    → from < 64
    → 16 ≤ from
    → make_square (file_of from) (rank_of from +ℤ negsuc 1) + 16 ≡ from
unfolding make_square file_of rank_of ◌+ℤ◌
two_black from h k = ground arith
