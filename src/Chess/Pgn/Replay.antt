-- ===== src/Chess/Pgn/Replay.antt =====
-- The moves of a PGN, played one by one: the second loop of `parse_pgn`, src/chess/pgn.cpp.
use plywise.Chess.Board.{Board, Move}
use plywise.Chess.Fen.{to_fen}
use plywise.Chess.Make.{make_move}
use plywise.Chess.Pgn.Scan.{
  starts_with_dollar, move_number_token, without_number, token_empty, result_token,
}
use plywise.Chess.San.{parse_san, to_san}
use plywise.Chess.Square.{Text}
use plywise.Errors.{Result, ok, ◌>>=◌}
use plywise.Prelude.Int.{ℤ}
use plywise.Prelude.{◌||◌, List, [], ◌∷◌, Option, none, if◌then◌else◌}

pub record Ply : Type 0 where
  pub move : Move
  pub san : Text
  pub fen_before : Text
  pub fen_after : Text
  pub clock_ms : Option ℤ
  pub elapsed_ms : Option ℤ

-- The statements of the loop for a token that is a move.
unfoldable pub play : Board → Text → Result (Board × Ply)
play b token = do
  before ← to_fen b
  (parsed, move) ← parse_san b token
  (written, canonical) ← to_san parsed move
  (made, undo) ← make_move written move
  after ← to_fen made
  ok (
    made,
    record {
      move = move;
      san = canonical;
      fen_before = before;
      fen_after = after;
      clock_ms = none;
      elapsed_ms = none;
    },
  )

-- The loop over the tokens.
unfoldable pub play_all : Board → List Text → Result (List Ply)
play_all b [] = ok []
play_all b (token ∷ tokens) =
    let rest = play_all b tokens in
    let played = (do
      (made, ply) ← play b (without_number token)
      plies ← play_all made tokens
      ok (ply ∷ plies)) in
    if starts_with_dollar token || move_number_token token
    then rest
    else if token_empty (without_number token)
    then rest
    else if result_token (without_number token)
    then ok []
    else played
