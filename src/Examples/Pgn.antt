-- ===== src/Examples/Pgn.antt =====
-- PGN: tests, and the theorems at concrete games.
use plywise.Chess.Board.{Board}
use plywise.Chess.Piece.{none, king, white}
use plywise.Chess.Moves.{mk_move}
use plywise.Examples.Positions.{w, b, blanks}
use plywise.Chess.Fen.{
  from_fen, decimal_onto, decimal, show_empty, show_files, show_ranks, show_right, show_rights,
  show_target, show_side, to_fen, split_onto, finish_word, split, is_space, is_digit,
}
use plywise.Chess.Make.{make_move, is_refused, undo_of, unmake_move, pop_back}
use plywise.Chess.Legal.{legal_loop, legal_moves}
use plywise.Chess.Pgn.Game.{
  Game, tag, start_board, parse_pgn, parse_moves, some_plies, with_time, identified,
  normalized_game_identity, moves_text, barred, fnv1a, fnv1a_from, hex_digits,
}
use plywise.Chess.Pgn.Clocks.{with_clocks, time_control}
use plywise.Chess.Pgn.Replay.{play, play_all}
use plywise.Chess.Pgn.Scan.{
  scan_step, scan, strip_non_mainline, result_token, all_dots, dots_after_digits, move_number_token,
  after_last_dot, starts_with_digit, starts_with_dollar, without_number,
}
use plywise.Chess.Pgn.Tags.{
  pass_space, in_front, cut_at, before_last_quote, tag_of, find_tag, emplace_tag, tag_loop,
}
use plywise.Chess.San.{
  san_piece, squeeze, is_mark, drop_marks, starts_ep, erase_ep, normalize, note_rival,
  note_candidate, note_candidates, coordinates, disambiguation, origin, san_body, check_sign,
  san_of_piece, to_san, parse_loop, parse_san,
}
use plywise.Chess.Fen.Accepts.{from_fen-IsParsed, IsParsed-IsWellFormed}
use plywise.Chess.Pgn.Lines.{IsLine}
use plywise.Chess.Pgn.Parsed.{parse_pgn-IsLine}
use plywise.Chess.Pgn.Printed.{canonical_pgn}
use plywise.Chess.Pgn.RoundTrip.{HasResult, IsSameGame, parse_pgn-canonical_pgn}
use plywise.Chess.Pgn.Sections.{
  Section, moves, brace_comment, line_comment, variation, IsSection, done, other, nested, written,
  kept, strip_non_mainline-written,
}
use plywise.Chess.Pgn.Tokens.{is_movetext}
use plywise.Chess.Shape.{IsWellFormed}
use plywise.Examples.Notation.{legal}
use plywise.Examples.Positions.{fen_reader}
use plywise.Chess.Uci.{uci, promotion_text}
use plywise.Chess.Make.{squares_before, return_rook}
use plywise.Chess.Board.{piece_at}
use plywise.Chess.Piece.{piece_symbol, to_lower}
use plywise.Chess.Square.{codes, Text, square_name}
use plywise.Errors.{Result, ok, err, parse_error}
use plywise.Prelude.Int.{ℤ}
use plywise.Prelude.{◌≡◌, ◌≢◌, refl, inl, All, List, [], ◌∷◌, ◌++◌, Option}

abbrev quoted : Text → Text
quoted value = b'"' ∷ (value ++ b'"' ∷ [])

-- Two kings, and a move of each.
abbrev two_kings : Text
two_kings =
    codes "[SetUp "
    ++ (quoted (codes "1")
        ++ (codes "]\n[FEN "
            ++ (quoted (codes "7k/8/8/8/8/8/8/K7 w - - 0 1")
                ++ codes "]\n\n1. Kb1 {to (the} Kg8?! *")))

abbrev no_clocks : Text → List ℤ
no_clocks text = []

abbrev no_number : Text → Option ℤ
no_number text = Option.none

-- The functions that a test of `parse_pgn` runs.
reader : Text → Result Game
unfolding legal fen_reader decimal_onto decimal show_empty show_files show_ranks show_right
    show_rights show_target show_side to_fen split_onto finish_word split is_space is_digit
    make_move is_refused undo_of unmake_move pop_back squares_before return_rook legal_loop
    legal_moves tag start_board parse_pgn parse_moves some_plies with_time identified
    normalized_game_identity moves_text barred fnv1a fnv1a_from hex_digits with_clocks time_control
    play play_all scan_step scan strip_non_mainline result_token all_dots dots_after_digits
    move_number_token after_last_dot starts_with_digit starts_with_dollar without_number pass_space
    in_front cut_at before_last_quote tag_of find_tag emplace_tag tag_loop san_piece squeeze is_mark
    drop_marks starts_ep erase_ep normalize note_rival note_candidate note_candidates coordinates
    disambiguation origin san_body check_sign san_of_piece to_san parse_loop parse_san square_name
    uci promotion_text piece_at piece_symbol to_lower
reader = parse_pgn no_clocks no_number

abbrev kings_fen : Text
kings_fen = codes "7k/8/8/8/8/8/8/K7 w - - 0 1"

abbrev later_fen : Text
later_fen = codes "7k/8/8/8/8/8/8/1K6 b - - 1 1"

abbrev kings : Board
kings = record {
  squares = w king ∷ (blanks 62 ++ b king ∷ []);
  side_to_move = white;
  castling_rights = 0;
  en_passant = 64;
  halfmove_clock = 0;
  fullmove_number = 1;
  hash = 13000945519186950813;
  repetition_history = 13000945519186950813 ∷ [];
}

abbrev kings_game : Game
kings_game = record {
  tags = (codes "FEN", kings_fen) ∷ (codes "SetUp", codes "1") ∷ [];
  source_pgn = two_kings;
  plies =
      record {
        move = mk_move 0 1 none 0;
        san = codes "Kb1";
        fen_before = kings_fen;
        fen_after = later_fen;
        clock_ms = Option.none;
        elapsed_ms = Option.none;
      }
      ∷ record {
        move = mk_move 63 62 none 0;
        san = codes "Kg8";
        fen_before = later_fen;
        fen_after = codes "6k1/8/8/8/8/8/8/1K6 w - - 2 2";
        clock_ms = Option.none;
        elapsed_ms = Option.none;
      }
      ∷ [];
  identity = codes "60e18e5c785fd6ab";
}

abbrev kings_board : Result Board
kings_board = from_fen kings_fen

pub comment_kept : strip_non_mainline (codes "e4 (d4 d5) e5;x") ≡ ok (codes "e4  e5")
unfolding strip_non_mainline scan scan_step
comment_kept = refl

-- A bracket in a comment inside a variation is counted.
pub bracket_counted : strip_non_mainline (codes "e4 (d4 {:)} d5) e5") ≡ err parse_error
unfolding strip_non_mainline scan scan_step
bracket_counted = refl

-- A value ends at the first closing bracket.
pub value_cut : tag_loop 9 [] (codes "[Event " ++ quoted (codes "A [rapid] B")) ≡ err parse_error
unfolding tag_loop pass_space cut_at in_front before_last_quote tag_of find_tag emplace_tag is_space
value_cut = refl

two_kings-parsed : parse_pgn no_clocks no_number two_kings ≡ ok kings_game
unfolding reader
two_kings-parsed = refl

kings_game-start : start_board kings_game ≡ ok kings
unfolding start_board tag find_tag fen_reader
kings_game-start = refl

kings-IsWellFormed : IsWellFormed kings
kings-IsWellFormed =
    IsParsed-IsWellFormed
      (from_fen-IsParsed (tag kings_game (codes "FEN"))
        (unfold start_board tag find_tag in kings_game-start))
      (inl refl)

kings_game-HasResult : HasResult kings_game
unfolding tag find_tag
kings_game-HasResult = inl refl

parse_pgn-IsLine_example :
    (kings_game.plies ≢ [])
    × IsLine kings kings_game.plies
    × (normalized_game_identity kings_game ≡ ok kings_game.identity)
parse_pgn-IsLine_example =
    parse_pgn-IsLine no_clocks no_number two_kings two_kings-parsed kings_game-start
      kings-IsWellFormed

parse_pgn-canonical_pgn_example :
    (text : Text) × (again : Game) × (canonical_pgn kings_game ≡ ok text)
    × (parse_pgn no_clocks no_number text ≡ ok again)
    × IsSameGame again kings_game
parse_pgn-canonical_pgn_example =
    parse_pgn-canonical_pgn no_clocks no_number two_kings two_kings-parsed kings_game-start
      kings-IsWellFormed kings_game-HasResult

abbrev some_sections : List Section
some_sections =
    moves (codes "e4 ")
    ∷ brace_comment (codes "(")
    ∷ variation (codes "d4(c4)")
    ∷ line_comment (codes "}")
    ∷ moves (codes "e5")
    ∷ []

some_sections-AreSections : All IsSection some_sections
unfolding is_movetext
some_sections-AreSections = (
  (refl, (refl, (refl, tt))),
  (
    (refl, tt),
    (
      other refl refl (other refl refl (nested (other refl refl (other refl refl done)) done)),
      ((refl, tt), ((refl, (refl, tt)), tt)),
    ),
  ),
)

strip_non_mainline-written_example :
    strip_non_mainline (written some_sections) ≡ ok (kept some_sections)
strip_non_mainline-written_example =
    strip_non_mainline-written some_sections some_sections-AreSections
