-- ===== src/Chess/Pgn/Printed.antt =====
-- `canonical_pgn`: src/chess/pgn.cpp.
use plywise.Chess.Board.{Board}
use plywise.Chess.Fen.{from_fen, decimal}
use plywise.Chess.Pgn.Game.{Game, tag}
use plywise.Chess.Pgn.Replay.{Ply}
use plywise.Chess.Pgn.Scan.{token_empty}
use plywise.Chess.Piece.{Color, white, black, opposite}
use plywise.Chess.Square.{codes, Text}
use plywise.Errors.{Result, ok, err, corruption, ◌>>=◌}
use plywise.Prelude.{ℕ, ◌+◌, ◌%◌, Bool, true, false, List, [], ◌∷◌, ◌++◌, if◌then◌else◌}

abbrev pub canonical_tags : List Text
canonical_tags =
    codes "Site"
    ∷ codes "Date"
    ∷ codes "UTCDate"
    ∷ codes "UTCTime"
    ∷ codes "Round"
    ∷ codes "White"
    ∷ codes "Black"
    ∷ codes "WhiteElo"
    ∷ codes "BlackElo"
    ∷ codes "Result"
    ∷ codes "TimeControl"
    ∷ codes "ECO"
    ∷ codes "Termination"
    ∷ codes "SetUp"
    ∷ codes "FEN"
    ∷ []

unfoldable pub show_tag : Text → Text → Text
show_tag key value =
    if token_empty value
    then []
    else b'[' ∷ (key ++ (32 ∷ b'"' ∷ (value ++ (b'"' ∷ b']' ∷ 10 ∷ []))))

-- The tags of the game that the first argument lists, and what follows.
unfoldable pub show_tags : List Text → Game → Text → Text
show_tags [] game out = out
show_tags (key ∷ keys) game out = show_tag key (tag game key) ++ show_tags keys game out

unfoldable pub show_number : Color → ℕ → Bool → Text
show_number white fullmove_number is_first = decimal fullmove_number ++ b'.' ∷ 32 ∷ []
show_number black fullmove_number true = decimal fullmove_number ++ codes "... "
show_number black fullmove_number false = []

unfoldable pub next_number : Color → ℕ → ℕ
next_number white fullmove_number = fullmove_number
next_number black fullmove_number = (fullmove_number + 1) % 65536

-- The loop over the plies, and what is printed after it.
unfoldable pub show_plies : Color → ℕ → Bool → List Ply → Text → Text
show_plies side fullmove_number is_first [] out = out
show_plies side fullmove_number is_first (ply ∷ plies) out =
    show_number side fullmove_number is_first
    ++ (ply.san
        ++ 32 ∷ show_plies (opposite side) (next_number side fullmove_number) false plies out)

unfoldable pub show_result : Text → Text
show_result result = if token_empty result then b'*' ∷ [] else result

unfoldable pub show_moves : Game → Board → Text
show_moves game initial =
    show_plies initial.side_to_move initial.fullmove_number true game.plies
      (show_result (tag game (codes "Result")))

-- `front` of no plies is undefined; here it is an error.
unfoldable pub first_fen : List Ply → Result Text
first_fen [] = err corruption
first_fen (ply ∷ plies) = ok ply.fen_before

unfoldable pub canonical_pgn : Game → Result Text
canonical_pgn game = do
  fen ← first_fen game.plies
  initial ← from_fen fen
  ok (show_tags canonical_tags game (10 ∷ show_moves game initial))
