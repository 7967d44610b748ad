-- ===== src/Chess/Fen.antt =====
-- `Board::from_fen`, `Board::to_fen` and `Board::initial`: src/chess/fen.cpp.
pub mod Accepts
pub mod RoundTrip
pub mod Words
pub mod Placed
use Prim.Native.Nat.{bit_and, bit_or}
use plywise.Chess.Board.{Board, read, king_square}
use plywise.Chess.Hash.{compute_hash}
use plywise.Chess.Piece.{
  Color, white, black, Piece, piece_from_symbol, piece_symbol, is_empty, no_piece,
}
use plywise.Chess.Square.{codes, Text, no_square, parse_square, square_name}
use plywise.Errors.{Result, ok, err, parse_error, ◌>>=◌}
use plywise.Prelude.{
  ℕ, zero, suc, ◌+◌, ◌-◌, ◌*◌, ◌/◌, ◌%◌, Bool, true, false, not, ◌&&◌, ◌||◌, List, [], ◌∷◌, ◌++◌,
  Option, none, some, leb, ltb, ◌==◌, if◌then◌else◌, set, length,
}

-- `std::isspace` and `std::isdigit` in the "C" locale.
unfoldable pub is_space : ℕ → Bool
is_space c = c == 32 || (leb 9 c && leb c 13)

unfoldable pub is_digit : ℕ → Bool
is_digit c = leb b'0' c && leb c b'9'

-- A word that has been read, if it is one.
unfoldable pub finish_word : Text → List Text → List Text
finish_word [] words = words
finish_word (c ∷ cs) words = (c ∷ cs) ∷ words

-- `split`: the words between white space; `word` is the part read of the current one.
unfoldable pub split_onto : Text → Text → List Text
unfolding finish_word
split_onto word [] = finish_word word []
split_onto word (c ∷ cs) =
    let rest = split_onto [] cs in
    let more = split_onto (word ++ c ∷ []) cs in if is_space c then finish_word word rest else more

unfoldable pub split : Text → List Text
split = split_onto []

unfoldable pub digits_value : ℕ → Text → Option ℕ
digits_value n [] = some n
digits_value n (c ∷ cs) =
    let rest = digits_value (n * 10 + (c - b'0')) cs in if is_digit c then rest else none

-- `parse_uint`: digits alone, at least one, and 65535 at most.
unfoldable pub parse_uint : Text → Result ℕ
parse_uint [] = err parse_error
parse_uint (c ∷ cs) = elim (digits_value 0 (c ∷ cs)) [
  | none ↦ err parse_error
  | some n ↦ if ltb 65535 n then err parse_error else ok n
]

-- The variables of the loop over the placement field.
pub record Placement : Type 0 where
  pub squares : List Piece
  pub rank : ℕ
  pub file : ℕ

unfoldable pub place_symbol : Placement → ℕ → Result Placement
place_symbol p c =
    if c == b'/'
    then (if not (p.file == 8) || p.rank == 0
        then err parse_error
        else ok (record p { rank = p.rank - 1; file = 0 }))
    else if is_digit c
    then (if ltb c b'1' || ltb b'8' c || ltb 8 (p.file + (c - b'0'))
        then err parse_error
        else ok (record p { file = p.file + (c - b'0') }))
    else if is_empty (piece_from_symbol c) || leb 8 p.file
    then err parse_error
    else ok (record p {
      squares = set p.squares (p.rank * 8 + p.file) (piece_from_symbol c);
      file = p.file + 1;
    })

unfoldable pub place : Placement → Text → Result Placement
place p [] = ok p
place p (c ∷ cs) = do q ← place_symbol p c; place q cs

unfoldable pub empty_squares : ℕ → List Piece
empty_squares zero = []
empty_squares (suc n) = no_piece ∷ empty_squares n

unfoldable pub parse_placement : Text → Result (List Piece)
parse_placement t = do
  p ← place (record { squares = empty_squares 64; rank = 7; file = 0 }) t
  if not (p.rank == 0) || not (p.file == 8) then err parse_error else ok p.squares

unfoldable pub parse_side : Text → Result Color
parse_side (c ∷ []) =
    if c == b'w' then ok white else if c == b'b' then ok black else err parse_error
parse_side _ = err parse_error

unfoldable pub add_rights : ℕ → Text → Result ℕ
add_rights rights [] = ok rights
add_rights rights (c ∷ cs) =
    let set_bit = λ (bit : ℕ). add_rights (bit_or rights bit) cs in
    if c == b'K'
    then set_bit 1
    else if c == b'Q'
    then set_bit 2
    else if c == b'k'
    then set_bit 4
    else if c == b'q'
    then set_bit 8
    else err parse_error

unfoldable pub is_dash : Text → Bool
is_dash (c ∷ []) = c == b'-'
is_dash _ = false

unfoldable pub parse_rights : Text → Result ℕ
parse_rights t = if is_dash t then ok 0 else add_rights 0 t

unfoldable pub parse_target : Text → Result ℕ
parse_target t = if is_dash t then ok no_square else parse_square t

unfoldable pub has_kings : Board → Bool
has_kings b = not (king_square b white == no_square) && not (king_square b black == no_square)

-- The last two statements, on the board whose fields are set.
unfoldable pub with_hash : Board → Board
with_hash b = record b { hash = compute_hash b; repetition_history = compute_hash b ∷ [] }

unfoldable pub board_of_fields : List Piece → Color → ℕ → ℕ → ℕ → ℕ → Board
board_of_fields squares side rights target halfmove fullmove = record {
  squares = squares;
  side_to_move = side;
  castling_rights = rights;
  en_passant = target;
  halfmove_clock = halfmove;
  fullmove_number = fullmove;
  hash = 0;
  repetition_history = [];
}

-- The checks on the full-move number and the kings.
unfoldable pub finish_board : Board → Result Board
finish_board b =
    if b.fullmove_number == 0
    then err parse_error
    else if has_kings b
    then ok (with_hash b)
    else err parse_error

unfoldable pub parse_fields : List Text → Result Board
parse_fields (f0 ∷ f1 ∷ f2 ∷ f3 ∷ f4 ∷ f5 ∷ []) = do
  squares ← parse_placement f0
  side ← parse_side f1
  rights ← parse_rights f2
  target ← parse_target f3
  halfmove ← parse_uint f4
  fullmove ← parse_uint f5
  finish_board (board_of_fields squares side rights target halfmove fullmove)
parse_fields _ = err parse_error

unfoldable pub from_fen : Text → Result Board
from_fen fen = parse_fields (split fen)

-- `Board::initial`.
unfoldable pub initial : Result Board
initial = from_fen (codes "rnbqkbnr/pppppppp/8/8/8/8/PPPPPPPP/RNBQKBNR w KQkq - 0 1")

-- The decimal digits that `<<` prints; the fuel is more than enough.
unfoldable pub decimal_onto : ℕ → ℕ → Text → Text
decimal_onto zero n out = out
decimal_onto (suc fuel) n out =
    let rest = decimal_onto fuel (n / 10) ((b'0' + n % 10) ∷ out) in
    if ltb n 10 then (b'0' + n) ∷ out else rest

unfoldable pub decimal : ℕ → Text
decimal n = decimal_onto (suc n) n []

unfoldable pub show_empty : ℕ → Text
show_empty n = if n == 0 then [] else decimal n

-- The loop over the files, this many to go.
unfoldable pub show_files : ℕ → List Piece → ℕ → ℕ → ℕ → Text
show_files zero squares rank file empty = show_empty empty
show_files (suc n) squares rank file empty =
    let p = read squares (rank * 8 + file) in
    let skip = show_files n squares rank (file + 1) (empty + 1) in
    let next = show_files n squares rank (file + 1) 0 in
    if is_empty p then skip else show_empty empty ++ piece_symbol p ∷ next

-- The loop over the ranks, from this one down.
unfoldable pub show_ranks : ℕ → List Piece → Text
show_ranks zero squares = show_files 8 squares 0 0 0
show_ranks (suc rank) squares =
    show_files 8 squares (suc rank) 0 0 ++ b'/' ∷ show_ranks rank squares

unfoldable pub show_right : ℕ → ℕ → ℕ → Text
show_right rights bit letter = if bit_and rights bit == 0 then [] else letter ∷ []

unfoldable pub show_rights : ℕ → Text
show_rights rights =
    if rights == 0
    then b'-' ∷ []
    else show_right rights 1 b'K'
      ++ (show_right rights 2 b'Q' ++ (show_right rights 4 b'k' ++ show_right rights 8 b'q'))

unfoldable pub show_target : ℕ → Result Text
show_target target = if target == no_square then ok (b'-' ∷ []) else square_name target

unfoldable pub show_side : Color → Text
show_side white = b'w' ∷ []
show_side black = b'b' ∷ []

abbrev pub space : ℕ
space = 32

unfoldable pub to_fen : Board → Result Text
to_fen b = do
  target ← show_target b.en_passant
  ok (
      show_ranks 7 b.squares
      ++ (space
          ∷ (show_side b.side_to_move
              ++ (space
                  ∷ (show_rights b.castling_rights
                      ++ (space
                          ∷ (target
                              ++ (space
                                  ∷ (decimal b.halfmove_clock
                                      ++ (space ∷ decimal b.fullmove_number))))))))))
