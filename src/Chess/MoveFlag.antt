-- ===== src/Chess/MoveFlag.antt =====
-- `MoveFlag` of include/pct/chess/board.hpp: the bits of `Move::flags`.
use plywise.Prelude.{ℕ}

abbrev pub quiet : ℕ
quiet = 0

abbrev pub capture : ℕ
capture = 1

abbrev pub double_pawn_push : ℕ
double_pawn_push = 2

abbrev pub king_castle : ℕ
king_castle = 4

abbrev pub queen_castle : ℕ
queen_castle = 8

abbrev pub en_passant : ℕ
en_passant = 16

abbrev pub promotion : ℕ
promotion = 32
