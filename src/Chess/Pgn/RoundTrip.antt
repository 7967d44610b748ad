-- ===== src/Chess/Pgn/RoundTrip.antt =====
-- What `canonical_pgn` writes is parsed as the same game.
use plywise.Chess.Board.{Board}
use plywise.Chess.Fen.{from_fen, to_fen, initial}
use plywise.Chess.Fen.RoundTrip.{from_fen-to_fen-from_fen}
use plywise.Chess.Pgn.Clocks.{time_control}
use plywise.Chess.Pgn.Game.{
  Game, parse_pgn, parse_moves, start_board, tag, some_plies, with_time, identified, moves_text,
  barred, normalized_game_identity,
}
use plywise.Chess.Pgn.Lines.{IsLine}
use plywise.Chess.Pgn.Parsed.{bare, with_time-bare, tag_loop-start, parse_pgn-IsLine, ok_same}
use plywise.Chess.Pgn.Printed.{
  canonical_tags, show_tags, show_plies, show_result, show_moves, first_fen, canonical_pgn,
}
use plywise.Chess.Pgn.Replay.{Ply}
use plywise.Chess.Pgn.Replayed.{IsEnd, result-IsEnd, Plays, show_plies-Plays}
use plywise.Chess.Pgn.Scan.{result_token, token_empty}
use plywise.Chess.Pgn.TagText.{IsKey, IsOpening, tag_loop-show_tags, are_keys_sound}
use plywise.Chess.Pgn.TagValues.{AllTags, tag_loop-AllTags, tag-NoBracket}
use plywise.Chess.Pgn.Tagged.{collect, is_listed, collect-tag}
use plywise.Chess.Pgn.Tokens.{strip_non_mainline-IsMovetext, show_number-IsOpening}
use plywise.Chess.Piece.{Color}
use plywise.Chess.San.{text_eq}
use plywise.Chess.Shape.{IsWellFormed}
use plywise.Chess.Square.{codes, Text}
use plywise.Errors.{ok}
use plywise.Prelude.Int.{ℤ}
use plywise.Prelude.{
  ℕ, suc, ◌≡◌, ◌≢◌, ◌⊎◌, inl, inr, refl, sym, ap, subst, ◌∙◌, true, List, [], ◌∷◌, Option, map,
  arith, All, Bool-cases, if-cases, length, then_taken, else_taken,
}

moves_text-bare : (plies : List Ply) → moves_text (map bare plies) ≡ moves_text plies
unfolding moves_text
moves_text-bare [] = refl
moves_text-bare (ply ∷ plies) = rw (moves_text-bare plies) refl

abbrev SameTags : Game → Game → Type 0
SameTags g h = All (λ key. tag g key ≡ tag h key) canonical_tags

-- The identity depends on some tags and on the moves.
identity-alike :
    (g h : Game)
    → ((key : Text) → is_listed canonical_tags key ≡ true → tag g key ≡ tag h key)
    → map bare g.plies ≡ map bare h.plies
    → normalized_game_identity g ≡ normalized_game_identity h
unfolding normalized_game_identity barred
identity-alike g h same plies =
    let moves : moves_text g.plies ≡ moves_text h.plies =
      sym (moves_text-bare g.plies) ∙ (ap moves_text plies ∙ moves_text-bare h.plies) in
    rw
      (
        same (codes "Site") refl,
        same (codes "Date") refl,
        same (codes "Round") refl,
        same (codes "White") refl,
        same (codes "Black") refl,
        same (codes "Result") refl,
        moves,
      )
      refl

start_board-alike :
    (g h : Game)
    → ((key : Text) → is_listed canonical_tags key ≡ true → tag g key ≡ tag h key)
    → start_board g ≡ start_board h
unfolding start_board
start_board-alike g h same = rw (same (codes "SetUp") refl, same (codes "FEN") refl) refl

start_board-from_fen :
    (game : Game) {b : Board} → start_board game ≡ ok b → (fen : Text) × (from_fen fen ≡ ok b)
unfolding start_board initial
start_board-from_fen game e = elim (Bool-cases (text_eq (tag game (codes "SetUp")) (codes "1"))) [
  | inl set_up ↦ (tag game (codes "FEN"), then_taken _ set_up e)
  | inr usual ↦ (_, else_taken _ usual e)
]

canonical-AreKeys : All IsKey canonical_tags
canonical-AreKeys = are_keys_sound canonical_tags refl

-- The result in the tags, if there is one, is one of the four of PGN.
abbrev pub HasResult : Game → Type 0
HasResult game =
    (tag game (codes "Result") ≡ []) ⊎ (result_token (tag game (codes "Result")) ≡ true)

shown-IsEnd : (game : Game) → HasResult game → IsEnd (show_result (tag game (codes "Result")))
unfolding show_result
shown-IsEnd game (inl nothing) =
    rw (nothing, show_result) (result-IsEnd (codes "*") (unfold result_token in refl))
shown-IsEnd game (inr result) =
    if-cases IsEnd (token_empty (tag game (codes "Result")))
      (λ e. result-IsEnd (codes "*") (unfold result_token in refl)) (λ e. result-IsEnd _ result)

-- The game that is read again: its tags are those that were written.
abbrev start_of : Game → Text → Game
start_of game text = record {
  tags = collect canonical_tags game [];
  source_pgn = text;
  plies = [];
  identity = [];
}

start_of-tag :
    (game : Game) (text key : Text)
    → is_listed canonical_tags key ≡ true
    → tag (start_of game text) key ≡ tag game key
start_of-tag game text key listed =
    collect-tag game (start_of game text) canonical_tags key refl listed

bare_again : (plies : List Ply) → map bare (map bare plies) ≡ map bare plies
bare_again [] = refl
bare_again (ply ∷ plies) = ap (◌∷◌ (bare ply)) (bare_again plies)

some_plies-bare :
    (plies : List Ply) → plies ≢ [] → some_plies (map bare plies) ≡ ok (map bare plies)
unfolding some_plies
some_plies-bare [] ne = absurd (ne refl)
some_plies-bare (ply ∷ plies) ne = refl

-- The same game: the moves, their notations and positions, the tags that are written, the identity.
pub record IsSameGame (again game : Game) : Type 0 where
  pub plies : map bare again.plies ≡ map bare game.plies
  pub identity : again.identity ≡ game.identity
  pub tags : (key : Text) → is_listed canonical_tags key ≡ true → tag again key ≡ tag game key

module _ (extract_clocks : Text → List ℤ) (stoll : Text → Option ℤ) where
  moves_again :
      (game : Game) (text rest : Text) {b : Board}
      → start_board game ≡ ok b
      → game.plies ≢ []
      → Plays b rest (map bare game.plies)
      → normalized_game_identity game ≡ ok game.identity
      → (again : Game) × (parse_moves extract_clocks stoll (start_of game text) rest ≡ ok again)
        × IsSameGame again game
  unfolding parse_moves identified tag
  moves_again game text rest {b} e ne (m, plays) named =
      let control = time_control stoll (tag (start_of game text) (codes "TimeControl")) in
      let timed = with_time control (map bare game.plies) (extract_clocks rest) in
      let alike : map bare timed ≡ map bare game.plies =
        with_time-bare control (map bare game.plies) (extract_clocks rest)
        ∙ bare_again game.plies in
      let same = start_of-tag game text in
      let unnamed : Game = record (start_of game text) { plies = timed } in
      (
        record unnamed { identity = game.identity },
        rw
            (
              start_board-alike (start_of game text) game same,
              e,
              strip_non_mainline-IsMovetext rest m,
              plays,
              some_plies-bare game.plies ne,
              identity-alike unnamed game same alike,
              named,
            )
            refl,
        record { plies = alike; identity = refl; tags = same },
      )

first_fen-IsLine :
    (plies : List Ply) (b : Board)
    → plies ≢ []
    → IsLine b plies
    → (fen : Text) × (first_fen plies ≡ ok fen) × (to_fen b ≡ ok fen)
unfolding first_fen
first_fen-IsLine [] b ne l = absurd (ne refl)
first_fen-IsLine (ply ∷ plies) b ne (p, l) = (ply.fen_before, refl, p.before)

show_plies-IsOpening :
    (side : Color) (n : ℕ) (plies : List Ply) (out : Text)
    → plies ≢ []
    → IsOpening (show_plies side n true plies out)
unfolding show_plies
show_plies-IsOpening side n [] out ne = absurd (ne refl)
show_plies-IsOpening side n (ply ∷ plies) out ne = show_number-IsOpening side n _

-- The whole text that is written for a line from this board.
abbrev text_of : Game → Board → Text
text_of game b = show_tags canonical_tags game (10 ∷ show_moves game b)

canonical_pgn-text_of :
    (game : Game) {b : Board}
    → start_board game ≡ ok b
    → game.plies ≢ []
    → IsLine b game.plies
    → canonical_pgn game ≡ ok (text_of game b)
unfolding canonical_pgn
canonical_pgn-text_of game {b} e ne line =
    let (source, read) = start_board-from_fen game e in
    let (written, shown, back) = from_fen-to_fen-from_fen source read in
    let (fen, first, before) = first_fen-IsLine game.plies b ne line in
    let same : written ≡ fen = ok_same (sym shown ∙ before) in rw (first, sym same, back) refl

-- The canonical PGN of a game that was parsed, whose start is well-formed and whose result tag is empty or
-- one of the four results, is written without an error and parsed as the same game: the same moves,
-- notations and positions, the same tags of those that are written, and the same identity.
pub parse_pgn-canonical_pgn :
    (extract_clocks : Text → List ℤ) (stoll : Text → Option ℤ) (pgn : Text) {game : Game}
    {b : Board}
    → parse_pgn extract_clocks stoll pgn ≡ ok game
    → start_board game ≡ ok b
    → IsWellFormed b
    → HasResult game
    → (text : Text) × (again : Game) × (canonical_pgn game ≡ ok text)
      × (parse_pgn extract_clocks stoll text ≡ ok again)
      × IsSameGame again game
unfolding parse_pgn show_moves
parse_pgn-canonical_pgn extract_clocks stoll pgn {game} {b} h e w result =
    let (ne, line, named) = parse_pgn-IsLine extract_clocks stoll pgn h e w in
    let (start, text, found, r) = tag_loop-start extract_clocks stoll pgn h in
    let clean = tag_loop-AllTags (suc (length pgn)) [] pgn tt found in
    let values = λ (key : Text). tag-NoBracket game key (subst AllTags (sym r.tags) clean) in
    let out = show_result (tag game (codes "Result")) in
    let plays =
      show_plies-Plays game.plies b b.side_to_move b.fullmove_number true w line
        (shown-IsEnd game result) in
    let tags_read =
      tag_loop-show_tags canonical_tags game (length (text_of game b)) [] (show_moves game b)
        canonical-AreKeys values
        (show_plies-IsOpening b.side_to_move b.fullmove_number game.plies out ne) (omega arith) in
    let (again, parsed, same) =
      moves_again extract_clocks stoll game (text_of game b) (show_moves game b) e ne plays named in
    (text_of game b, again, canonical_pgn-text_of game e ne line, rw (tags_read, parsed) refl, same)
