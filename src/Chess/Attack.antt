-- ===== src/Chess/Attack.antt =====
-- `Board::is_square_attacked` and `Board::in_check`: src/chess/board.cpp.
pub mod Fuel
use plywise.Chess.Board.{Board, read, king_square}
use plywise.Chess.Piece.{
  Color, white, black, Piece, PieceType, pawn, knight, bishop, rook, queen, king, piece_eq,
  color_eq, type_eq, is_empty, opposite,
}
use plywise.Chess.Square.{no_square, file_of, rank_of, on_board, make_square}
use plywise.Prelude.Int.{ℤ, pos, negsuc, ◌+ℤ◌}
use plywise.Prelude.{
  ℕ, zero, suc, ◌+◌, Bool, false, not, ◌&&◌, ◌||◌, List, [], ◌∷◌, leb, ◌==◌, if◌then◌else◌,
}

abbrev pub Offset : Type 0
Offset = ℤ × ℤ

-- A loop over offsets that returns true at the first that passes.
unfoldable pub any_offset : (Offset → Bool) → List Offset → Bool
any_offset p [] = false
any_offset p (o ∷ os) = p o || any_offset p os

abbrev pub side_files : List ℤ
side_files = negsuc 0 ∷ pos 1 ∷ []

abbrev pub knight_offsets : List Offset
knight_offsets =
    (pos 1, pos 2)
    ∷ (pos 2, pos 1)
    ∷ (pos 2, negsuc 0)
    ∷ (pos 1, negsuc 1)
    ∷ (negsuc 0, negsuc 1)
    ∷ (negsuc 1, negsuc 0)
    ∷ (negsuc 1, pos 1)
    ∷ (negsuc 0, pos 2)
    ∷ []

-- `directions`: four straight, then four diagonal.
abbrev pub king_offsets : List Offset
king_offsets =
    (pos 1, pos 0)
    ∷ (negsuc 0, pos 0)
    ∷ (pos 0, pos 1)
    ∷ (pos 0, negsuc 0)
    ∷ (pos 1, pos 1)
    ∷ (pos 1, negsuc 0)
    ∷ (negsuc 0, pos 1)
    ∷ (negsuc 0, negsuc 0)
    ∷ []

-- Whether the square at these coordinates is on the board and holds the piece.
unfoldable pub holds : Board → Piece → ℤ → ℤ → Bool
holds b p file rank = on_board file rank && piece_eq (read b.squares (make_square file rank)) p

abbrev pub piece : Color → PieceType → Piece
piece c t = record { color = c; type = t }

-- The rank from which a pawn of this colour attacks.
unfoldable pub pawn_source_rank : ℕ → Color → ℤ
pawn_source_rank square by = rank_of square +ℤ elim by [ white ↦ negsuc 0 | black ↦ pos 1 ]

unfoldable pub pawn_attacks : Board → ℕ → Color → Bool
unfolding holds pawn_source_rank
pawn_attacks b square by =
    holds b (piece by pawn) (file_of square +ℤ negsuc 0) (pawn_source_rank square by)
    || holds b (piece by pawn) (file_of square +ℤ pos 1) (pawn_source_rank square by)

unfoldable pub knight_attacks : Board → ℕ → Color → Bool
unfolding holds any_offset
knight_attacks b square by =
    any_offset (λ o. holds b (piece by knight) (file_of square +ℤ o.0) (rank_of square +ℤ o.1))
      knight_offsets

-- Whether the first piece met on a line, at this distance, attacks along it.
unfoldable pub line_attacker : Bool → ℕ → Piece → Bool
line_attacker diagonal distance p =
    type_eq p.type queen
    || (diagonal && type_eq p.type bishop)
    || (not diagonal && type_eq p.type rook)
    || (distance == 1 && type_eq p.type king)

-- The `while` loop along one direction; eight rounds take it off the board.
unfoldable pub line_attacks : ℕ → Board → Color → Bool → Offset → ℤ → ℤ → ℕ → Bool
line_attacks zero b by diagonal d file rank distance = false
line_attacks (suc fuel) b by diagonal d file rank distance =
    let rest = line_attacks fuel b by diagonal d (file +ℤ d.0) (rank +ℤ d.1) (distance + 1) in
    let p = read b.squares (make_square file rank) in
    if on_board file rank
    then (if is_empty p then rest else color_eq p.color by && line_attacker diagonal distance p)
    else false

abbrev pub line_fuel : ℕ
line_fuel = 8

-- The `for` loop over the directions from this index on.
unfoldable pub directions_attack : Board → ℕ → Color → ℕ → List Offset → Bool
unfolding line_attacks
directions_attack b square by index [] = false
directions_attack b square by index (d ∷ ds) =
    line_attacks line_fuel b by (leb 4 index) d (file_of square +ℤ d.0) (rank_of square +ℤ d.1) 1
    || directions_attack b square by (index + 1) ds

unfoldable pub is_square_attacked : Board → ℕ → Color → Bool
unfolding pawn_attacks knight_attacks directions_attack
is_square_attacked b square by =
    pawn_attacks b square by
    || knight_attacks b square by
    || directions_attack b square by 0 king_offsets

unfoldable pub in_check : Board → Color → Bool
unfolding king_square
in_check b color =
    let king = king_square b color in
    not (king == no_square) && is_square_attacked b king (opposite color)
