-- ===== src/Chess/Moves.antt =====
-- The pseudo-legal moves of a position: `Board::add_*_moves` and `Board::pseudo_legal_moves` of
-- src/chess/board.cpp. The vector that they append to is the list of what they append.
pub mod Fuel
pub mod Geometry
pub mod Steps
pub mod Shapes
pub mod Castles
pub mod Pawns
use Prim.Native.Nat.{bit_and, bit_or}
use plywise.Chess.MoveFlag
use plywise.Chess.Attack.{
  Offset, knight_offsets, king_offsets, side_files, is_square_attacked, in_check, piece,
}
use plywise.Chess.Board.{Board, Move, read}
use plywise.Chess.Piece.{
  Color, white, black, Piece, PieceType, none, pawn, knight, bishop, rook, queen, king, piece_eq,
  color_eq, is_empty, opposite, no_piece,
}
use plywise.Chess.Square.{file_of, rank_of, on_board, make_square}
use plywise.Prelude.Int.{ℤ, pos, negsuc, ◌+ℤ◌}
use plywise.Prelude.{
  ℕ, zero, suc, ◌+◌, ◌/◌, Bool, true, not, ◌&&◌, ◌||◌, List, [], ◌∷◌, ◌++◌, map, ◌==◌,
  if◌then◌else◌,
}

-- What the loop body appends for each item, in order.
unfoldable pub append_each {ℓ} : {A : Type ℓ} → (A → List Move) → List A → List Move
append_each f [] = []
append_each f (x ∷ xs) = f x ++ append_each f xs

abbrev pub mk_move : ℕ → ℕ → PieceType → ℕ → Move
mk_move from to promotion flags = record {
  from = from;
  to = to;
  promotion = promotion;
  flags = flags;
}

-- `add_move`, with no extra flag at any call.
unfoldable pub add_move : ℕ → ℕ → Piece → List Move
add_move from to target =
    mk_move from to none
      (bit_or MoveFlag.quiet (if is_empty target then MoveFlag.quiet else MoveFlag.capture))
    ∷ []

-- The lambda `add_pawn_move`.
unfoldable pub add_pawn_move : ℕ → Color → ℕ → ℕ → List Move
add_pawn_move from color to flags =
    if to / 8 == elim color [ white ↦ 7 | black ↦ 0 ]
    then map (λ t. mk_move from to t (bit_or flags MoveFlag.promotion))
        (queen ∷ rook ∷ bishop ∷ knight ∷ [])
    else mk_move from to none flags ∷ []

-- One round of the loop over the two capture files.
unfoldable pub add_pawn_capture : Board → ℕ → Color → ℤ → ℤ → List Move
add_pawn_capture b from color target_file next_rank =
    let target = make_square target_file next_rank in
    let held = read b.squares target in
    if on_board target_file next_rank
    then (if not (is_empty held) && not (color_eq held.color color)
        then add_pawn_move from color target MoveFlag.capture
        else if target == b.en_passant
        then add_pawn_move from color target (bit_or MoveFlag.capture MoveFlag.en_passant)
        else [])
    else []

abbrev pub pawn_step : Color → ℤ
pawn_step white = pos 1
pawn_step black = negsuc 0

-- 2 * step
abbrev pub double_step : Color → ℤ
double_step white = pos 2
double_step black = negsuc 1

abbrev pub start_rank : Color → ℕ
start_rank white = 1
start_rank black = 6

-- The step forward, and from the start rank the double step.
unfoldable pub add_pawn_pushes : Board → ℕ → Color → List Move
add_pawn_pushes b from color =
    let step = pawn_step color in
    let one = make_square (file_of from) (rank_of from +ℤ step) in
    let two = make_square (file_of from) (rank_of from +ℤ double_step color) in
    if is_empty (read b.squares one)
    then add_pawn_move from color one MoveFlag.quiet
      ++ (if from / 8 == start_rank color && is_empty (read b.squares two)
          then mk_move from two none MoveFlag.double_pawn_push ∷ []
          else [])
    else []

unfoldable pub add_pawn_moves : Board → ℕ → Piece → List Move
add_pawn_moves b from p =
    let next_rank = rank_of from +ℤ pawn_step p.color in
    if on_board (file_of from) next_rank
    then add_pawn_pushes b from p.color
      ++ append_each (λ d. add_pawn_capture b from p.color (file_of from +ℤ d) next_rank) side_files
    else []

-- One step of a knight or of a king.
unfoldable pub add_step : Board → ℕ → Piece → Offset → List Move
add_step b from p o =
    let target = make_square (file_of from +ℤ o.0) (rank_of from +ℤ o.1) in
    let held = read b.squares target in
    if on_board (file_of from +ℤ o.0) (rank_of from +ℤ o.1)
      && (is_empty held || not (color_eq held.color p.color))
    then add_move from target held
    else []

unfoldable pub add_knight_moves : Board → ℕ → Piece → List Move
add_knight_moves b from p = append_each (add_step b from p) knight_offsets

-- The `while` loop along one direction; eight rounds take it off the board.
unfoldable pub slide : ℕ → Board → ℕ → Piece → Offset → ℤ → ℤ → List Move
slide zero b from p d file rank = []
slide (suc fuel) b from p d file rank =
    let rest = slide fuel b from p d (file +ℤ d.0) (rank +ℤ d.1) in
    let target = make_square file rank in
    let held = read b.squares target in
    if on_board file rank
    then (if is_empty held
        then add_move from target no_piece ++ rest
        else if color_eq held.color p.color
        then []
        else add_move from target held)
    else []

abbrev pub slide_fuel : ℕ
slide_fuel = 8

unfoldable pub add_sliding_moves : Board → ℕ → Piece → List Offset → List Move
add_sliding_moves b from p =
    append_each (λ d. slide slide_fuel b from p d (file_of from +ℤ d.0) (rank_of from +ℤ d.1))

abbrev pub white_king_side : ℕ
white_king_side = 1

abbrev pub white_queen_side : ℕ
white_queen_side = 2

abbrev pub black_king_side : ℕ
black_king_side = 4

abbrev pub black_queen_side : ℕ
black_queen_side = 8

-- The arguments of one castling `if`: the right, the squares that must be empty, the rook's square,
-- the squares that must not be attacked, the king's target and the flag.
pub record Castle : Type 0 where
  pub right : ℕ
  pub between : List ℕ
  pub rook_from : ℕ
  pub crossed : List ℕ
  pub target : ℕ
  pub flag : ℕ

unfoldable pub all_of : (ℕ → Bool) → List ℕ → Bool
all_of p [] = true
all_of p (s ∷ ss) = p s && all_of p ss

unfoldable pub may_castle : Board → Color → Castle → Bool
may_castle b color c =
    not (bit_and b.castling_rights c.right == 0)
    && all_of (λ s. is_empty (read b.squares s)) c.between
    && piece_eq (read b.squares c.rook_from) (piece color rook)
    && all_of (λ s. not (is_square_attacked b s (opposite color))) c.crossed

unfoldable pub add_castle : Board → Color → ℕ → Castle → List Move
add_castle b color from c =
    if may_castle b color c then mk_move from c.target none c.flag ∷ [] else []

-- f1 g1 / h1, d1 c1 b1 / a1 and the same on the eighth rank.
abbrev pub castle_of : Color → ℕ → Castle
castle_of white zero = record {
  right = white_king_side;
  between = 5 ∷ 6 ∷ [];
  rook_from = 7;
  crossed = 5 ∷ 6 ∷ [];
  target = 6;
  flag = MoveFlag.king_castle;
}
castle_of white (suc _) = record {
  right = white_queen_side;
  between = 3 ∷ 2 ∷ 1 ∷ [];
  rook_from = 0;
  crossed = 3 ∷ 2 ∷ [];
  target = 2;
  flag = MoveFlag.queen_castle;
}
castle_of black zero = record {
  right = black_king_side;
  between = 61 ∷ 62 ∷ [];
  rook_from = 63;
  crossed = 61 ∷ 62 ∷ [];
  target = 62;
  flag = MoveFlag.king_castle;
}
castle_of black (suc _) = record {
  right = black_queen_side;
  between = 59 ∷ 58 ∷ 57 ∷ [];
  rook_from = 56;
  crossed = 59 ∷ 58 ∷ [];
  target = 58;
  flag = MoveFlag.queen_castle;
}

-- e1 and e8.
abbrev pub king_home : Color → ℕ
king_home white = 4
king_home black = 60

unfoldable pub add_castles : Board → ℕ → Color → List Move
add_castles b from color =
    if from == king_home color && not (in_check b color)
    then add_castle b color from (castle_of color 0) ++ add_castle b color from (castle_of color 1)
    else []

unfoldable pub add_king_moves : Board → ℕ → Piece → List Move
add_king_moves b from p = append_each (add_step b from p) king_offsets ++ add_castles b from p.color

abbrev pub bishop_directions : List Offset
bishop_directions =
    (pos 1, pos 1) ∷ (pos 1, negsuc 0) ∷ (negsuc 0, pos 1) ∷ (negsuc 0, negsuc 0) ∷ []

abbrev pub rook_directions : List Offset
rook_directions = (pos 1, pos 0) ∷ (negsuc 0, pos 0) ∷ (pos 0, pos 1) ∷ (pos 0, negsuc 0) ∷ []

-- The `switch` on the piece's type.
unfoldable pub moves_by_type : PieceType → Board → ℕ → Piece → List Move
moves_by_type pawn b from p = add_pawn_moves b from p
moves_by_type knight b from p = add_knight_moves b from p
moves_by_type bishop b from p = add_sliding_moves b from p bishop_directions
moves_by_type rook b from p = add_sliding_moves b from p rook_directions
moves_by_type queen b from p =
    add_sliding_moves b from p bishop_directions ++ add_sliding_moves b from p rook_directions
moves_by_type king b from p = add_king_moves b from p
moves_by_type none b from p = []

-- One round of the loop over the squares.
unfoldable pub moves_from : Board → ℕ → List Move
moves_from b from =
    let p = read b.squares from in
    if is_empty p || not (color_eq p.color b.side_to_move)
    then []
    else moves_by_type p.type b from p

-- `for (square = start; ...)`, this many rounds.
unfoldable pub squares_from : ℕ → ℕ → List ℕ
squares_from zero start = []
squares_from (suc n) start = start ∷ squares_from n (start + 1)

unfoldable pub pseudo_legal_moves : Board → List Move
pseudo_legal_moves b = append_each (moves_from b) (squares_from 64 0)
