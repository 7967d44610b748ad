-- ===== src/Chess/Pgn/Game.antt =====
-- `parse_pgn`, `Game::tag` and `normalized_game_identity`: src/chess/pgn.cpp.
use Prim.Native.Nat.{bit_xor}
use plywise.Chess.Board.{Board}
use plywise.Chess.Fen.{from_fen, initial, split}
use plywise.Chess.Pgn.Clocks.{with_clocks, time_control}
use plywise.Chess.Pgn.Replay.{Ply, play_all}
use plywise.Chess.Pgn.Scan.{strip_non_mainline}
use plywise.Chess.Pgn.Tags.{find_tag, tag_loop}
use plywise.Chess.San.{text_eq}
use plywise.Chess.Uci.{uci}
use plywise.Chess.Square.{codes, Text}
use plywise.Errors.{Result, ok, err, parse_error, ◌>>=◌}
use plywise.Prelude.Int.{ℤ}
use plywise.Prelude.{
  ℕ, zero, suc, ◌+◌, ◌-◌, ◌*◌, ◌/◌, ◌%◌, ◌^◌, List, [], ◌∷◌, ◌++◌, Option, none, some, ltb,
  if◌then◌else◌, length,
}

pub record Game : Type 0 where
  pub tags : List (Text × Text)
  pub source_pgn : Text
  pub plies : List Ply
  pub identity : Text

-- `Game::tag` without a fallback.
unfoldable pub tag : Game → Text → Text
tag game key = elim (find_tag game.tags key) [ none ↦ [] | some value ↦ value ]

unfoldable pub start_board : Game → Result Board
start_board game =
    if text_eq (tag game (codes "SetUp")) (codes "1")
    then from_fen (tag game (codes "FEN"))
    else initial

unfoldable pub fnv1a_from : ℕ → Text → ℕ
fnv1a_from hash [] = hash
fnv1a_from hash (c ∷ cs) = fnv1a_from (bit_xor hash c * 1099511628211 % 2 ^ 64) cs

unfoldable pub fnv1a : Text → ℕ
fnv1a value = fnv1a_from 14695981039346656037 value

-- `std::hex` with a width of this many digits, filled with zeros; `out` follows.
unfoldable pub hex_digits : ℕ → ℕ → Text → Text
hex_digits zero n out = out
hex_digits (suc width) n out =
    let digit = n % 16 in
    hex_digits width (n / 16) ((if ltb digit 10 then b'0' + digit else b'a' + (digit - 10)) ∷ out)

unfoldable pub moves_text : List Ply → Result Text
moves_text [] = ok []
moves_text (ply ∷ plies) = do name ← uci ply.move; rest ← moves_text plies; ok (name ++ 32 ∷ rest)

-- The tags in front of the moves, each with a bar behind it.
unfoldable pub barred : Game → List Text → Text → Text
barred game [] out = out
barred game (key ∷ keys) out = tag game key ++ b'|' ∷ barred game keys out

abbrev pub identity_tags : List Text
identity_tags =
    codes "Site"
    ∷ codes "Date"
    ∷ codes "Round"
    ∷ codes "White"
    ∷ codes "Black"
    ∷ codes "Result"
    ∷ []

unfoldable pub normalized_game_identity : Game → Result Text
normalized_game_identity game = do
  moves ← moves_text game.plies
  ok (hex_digits 16 (fnv1a (barred game identity_tags moves)) [])

unfoldable pub some_plies : List Ply → Result (List Ply)
some_plies [] = err parse_error
some_plies (ply ∷ plies) = ok (ply ∷ plies)

unfoldable pub with_time : ℤ × ℤ → List Ply → List ℤ → List Ply
with_time (initial_ms, increment_ms) plies clocks =
    with_clocks increment_ms initial_ms initial_ms plies clocks

unfoldable pub identified : Game → Result Game
identified game = do
  identity ← normalized_game_identity game
  ok (record game { identity = identity })

-- What `parse_pgn` does once the tags have been read; `game` has no plies yet.
unfoldable pub parse_moves : (Text → List ℤ) → (Text → Option ℤ) → Game → Text → Result Game
parse_moves extract_clocks stoll game text = do
  board ← start_board game
  moves ← strip_non_mainline text
  plies ← play_all board (split moves)
  played ← some_plies plies
  identified (record game {
    plies =
        with_time (time_control stoll (tag game (codes "TimeControl"))) played
          (extract_clocks text);
  })

-- The regular expression for the clocks and the library's `stoll` are arguments.
unfoldable pub parse_pgn : (Text → List ℤ) → (Text → Option ℤ) → Text → Result Game
parse_pgn extract_clocks stoll pgn = do
  (tags, text) ← tag_loop (suc (length pgn)) [] pgn
  parse_moves extract_clocks stoll
      (record { tags = tags; source_pgn = pgn; plies = []; identity = [] }) text
