-- ===== src/Chess/San.antt =====
-- Standard algebraic notation: src/chess/san.cpp. Text is a list of character codes; a function that
-- takes `Board&` returns the board that it leaves.
pub mod Named
pub mod Parsed
use plywise.Chess.Attack.{in_check}
use plywise.Chess.Board.{Board, Move, has, piece_at}
use plywise.Chess.Fen.{is_space, to_fen}
use plywise.Chess.Legal.{legal_moves, is_nil}
use plywise.Chess.Make.{make_move, unmake_move}
use plywise.Chess.MoveFlag
use plywise.Chess.Piece.{
  Piece, PieceType, none, pawn, knight, bishop, rook, queen, king, is_empty, type_eq, color_eq,
}
use plywise.Chess.Square.{Text, square_name}
use plywise.Errors.{Result, ok, err, illegal_move, ◌>>=◌}
use plywise.Prelude.{
  ℕ, ◌/◌, ◌%◌, Bool, true, false, not, ◌&&◌, ◌||◌, List, [], ◌∷◌, ◌++◌, ◌==◌, if◌then◌else◌, get_or,
}

unfoldable pub san_piece : PieceType → ℕ
san_piece knight = b'N'
san_piece bishop = b'B'
san_piece rook = b'R'
san_piece queen = b'Q'
san_piece king = b'K'
san_piece pawn = 0
san_piece none = 0

-- The first loop of `normalize`: white space is left out, and `0` is read as `O`.
unfoldable pub squeeze : Text → Text
squeeze [] = []
squeeze (c ∷ cs) =
    let rest = squeeze cs in if is_space c then rest else (if c == b'0' then b'O' else c) ∷ rest

unfoldable pub is_mark : ℕ → Bool
is_mark c = c == b'!' || c == b'?' || c == b'+' || c == b'#'

abbrev pub push_unless : Bool → ℕ → Text → Text
push_unless drop c [] = if drop then [] else c ∷ []
push_unless drop c (d ∷ ds) = c ∷ d ∷ ds

-- The second loop: marks are popped from the end.
unfoldable pub drop_marks : Text → Text
drop_marks [] = []
drop_marks (c ∷ cs) = push_unless (is_mark c) c (drop_marks cs)

-- `e.p.` stands at the front.
unfoldable pub starts_ep : Text → Bool
starts_ep (c ∷ d ∷ e ∷ f ∷ cs) = c == b'e' && d == b'.' && e == b'p' && f == b'.'
starts_ep _ = false

-- From the first `e.p.` on, all is erased.
unfoldable pub erase_ep : Text → Text
erase_ep [] = []
erase_ep (c ∷ cs) = let rest = erase_ep cs in if starts_ep (c ∷ cs) then [] else c ∷ rest

unfoldable pub normalize : Text → Text
normalize input = erase_ep (drop_marks (squeeze input))

-- The three variables of the loop over the candidates.
pub record Ambiguity : Type 0 where
  pub conflict : Bool
  pub same_file : Bool
  pub same_rank : Bool

abbrev pub no_ambiguity : Ambiguity
no_ambiguity = record { conflict = false; same_file = false; same_rank = false }

unfoldable pub note_rival : Move → Piece → Move → Piece → Ambiguity → Ambiguity
note_rival m moving candidate other a =
    if type_eq other.type moving.type && color_eq other.color moving.color
    then record {
      conflict = true;
      same_file = a.same_file || candidate.from % 8 == m.from % 8;
      same_rank = a.same_rank || candidate.from / 8 == m.from / 8;
    }
    else a

unfoldable pub note_candidate : Board → Move → Piece → Move → Ambiguity → Result Ambiguity
note_candidate b m moving candidate a =
    if candidate.from == m.from || not (candidate.to == m.to)
    then ok a
    else (do other ← piece_at b candidate.from; ok (note_rival m moving candidate other a))

unfoldable pub note_candidates : Board → Move → Piece → List Move → Ambiguity → Result Ambiguity
note_candidates b m moving [] a = ok a
note_candidates b m moving (candidate ∷ candidates) a = do
  noted ← note_candidate b m moving candidate a
  note_candidates b m moving candidates noted

-- What is added to tell the move from its candidates.
unfoldable pub coordinates : Ambiguity → Text → Text
coordinates a name =
    if not a.same_file
    then get_or name 0 0 ∷ []
    else if not a.same_rank
    then get_or name 1 0 ∷ []
    else name

unfoldable pub disambiguation : Ambiguity → Move → Result Text
disambiguation a m =
    if a.conflict then (do name ← square_name m.from; ok (coordinates a name)) else ok []

-- What stands before the capture sign, after the piece.
unfoldable pub origin : Board → Move → Piece → Result (Board × Text)
origin b m moving =
    if not (type_eq moving.type pawn)
    then (do
      (after, candidates) ← legal_moves b
      a ← note_candidates after m moving candidates no_ambiguity
      mark ← disambiguation a m
      ok (after, mark))
    else if has m MoveFlag.capture
    then (do name ← square_name m.from; ok (b, get_or name 0 0 ∷ []))
    else ok (b, [])

abbrev pub symbol_text : ℕ → Text
symbol_text symbol = if symbol == 0 then [] else symbol ∷ []

abbrev pub short_castle : Text
short_castle = b'O' ∷ b'-' ∷ b'O' ∷ []

abbrev pub long_castle : Text
long_castle = b'O' ∷ b'-' ∷ b'O' ∷ b'-' ∷ b'O' ∷ []

-- What is pushed for a move that does not castle, in order.
abbrev pub plain_text : Move → Piece → Text → Text → Text
plain_text m moving mark target =
    symbol_text (san_piece moving.type)
    ++ mark
    ++ (if has m MoveFlag.capture then b'x' ∷ [] else [])
    ++ target
    ++ (if has m MoveFlag.promotion then b'=' ∷ san_piece m.promotion ∷ [] else [])

-- The text up to the check sign.
unfoldable pub san_body : Board → Move → Piece → Result (Board × Text)
san_body b m moving =
    if has m MoveFlag.king_castle
    then ok (b, short_castle)
    else if has m MoveFlag.queen_castle
    then ok (b, long_castle)
    else (do
      (after, mark) ← origin b m moving
      target ← square_name m.to
      ok (after, plain_text m moving mark target))

abbrev pub sign_of : List Move → Text
sign_of replies = (if is_nil replies then b'#' else b'+') ∷ []

unfoldable pub check_sign : Board → Result (Board × Text)
check_sign made =
    if in_check made made.side_to_move
    then (do (after, replies) ← legal_moves made; ok (after, sign_of replies))
    else ok (made, [])

-- `to_san` once it has found the piece that moves.
unfoldable pub san_of_piece : Board → Move → Piece → Result (Board × Text)
san_of_piece b m moving = if is_empty moving then err illegal_move else (do
  (after, body) ← san_body b m moving
  (made, undo) ← make_move after m
  (checked, sign) ← check_sign made
  ok (unmake_move checked m undo, body ++ sign))

unfoldable pub to_san : Board → Move → Result (Board × Text)
to_san b m = do moving ← piece_at b m.from; san_of_piece b m moving

abbrev pub text_eq : Text → Text → Bool
text_eq [] [] = true
text_eq (c ∷ cs) (d ∷ ds) = c == d && text_eq cs ds
text_eq _ _ = false

-- The loop of `parse_san`. The error's message holds `to_fen()`, which may throw as well.
unfoldable pub parse_loop : Text → List Move → Board → Result (Board × Move)
parse_loop expected [] b = do fen ← to_fen b; err illegal_move
parse_loop expected (m ∷ ms) b = do
  (after, text) ← to_san b m
  let rest = parse_loop expected ms after
  if text_eq (normalize text) expected then ok (after, m) else rest

unfoldable pub parse_san : Board → Text → Result (Board × Move)
parse_san b san = do (after, moves) ← legal_moves b; parse_loop (normalize san) moves after
