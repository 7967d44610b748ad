-- ===== src/Chess/Pgn/Parsed.antt =====
-- What `parse_pgn` returns.
use plywise.Chess.Board.{Board}
use plywise.Chess.Legal.Filter.{after_move}
use plywise.Chess.Fen.{split}
use plywise.Chess.Pgn.Clocks.{with_clocks, time_control}
use plywise.Chess.Pgn.Game.{
  Game, parse_pgn, parse_moves, start_board, tag, some_plies, with_time, identified,
  normalized_game_identity, barred,
}
use plywise.Chess.Pgn.Lines.{IsLine, play_all-IsLine}
use plywise.Chess.Pgn.Replay.{Ply, play_all}
use plywise.Chess.Pgn.Scan.{strip_non_mainline}
use plywise.Chess.Pgn.Tags.{tag_loop}
use plywise.Chess.Shape.{IsWellFormed}
use plywise.Chess.Square.{codes, Text}
use plywise.Errors.{ok, >>=-split}
use plywise.Prelude.Int.{ℤ}
use plywise.Prelude.{
  suc, ◌≡◌, ◌≢◌, refl, sym, ap, subst, ◌∙◌, List, [], ◌∷◌, map, Option, none, length,
}

-- A ply without what the clocks say.
abbrev pub bare : Ply → Ply
bare ply = record ply { clock_ms = none; elapsed_ms = none }

pub with_clocks-bare :
    (increment previous other : ℤ) (plies : List Ply) (clocks : List ℤ)
    → map bare (with_clocks increment previous other plies clocks) ≡ map bare plies
unfolding with_clocks
with_clocks-bare increment previous other [] clocks = refl
with_clocks-bare increment previous other (ply ∷ plies) [] = refl
with_clocks-bare increment previous other (ply ∷ plies) (clock ∷ clocks) =
    ap (◌∷◌ (bare ply)) (with_clocks-bare increment other clock plies clocks)

pub with_time-bare :
    (control : ℤ × ℤ) (plies : List Ply) (clocks : List ℤ)
    → map bare (with_time control plies clocks) ≡ map bare plies
unfolding with_time
with_time-bare (initial, increment) plies clocks =
    with_clocks-bare increment initial initial plies clocks

pub IsLine-bare : (b : Board) (plies : List Ply) → IsLine b plies → IsLine b (map bare plies)
IsLine-bare b [] l = tt
IsLine-bare b (ply ∷ plies) (p, l) = (
  record {
    legal = p.legal;
    before = p.before;
    written = p.written;
    read_back = p.read_back;
    after = p.after;
  },
  IsLine-bare (after_move b ply.move) plies l,
)

pub bare-IsLine : (b : Board) (plies : List Ply) → IsLine b (map bare plies) → IsLine b plies
bare-IsLine b [] l = tt
bare-IsLine b (ply ∷ plies) (p, l) = (
  record {
    legal = p.legal;
    before = p.before;
    written = p.written;
    read_back = p.read_back;
    after = p.after;
  },
  bare-IsLine (after_move b ply.move) plies l,
)

pub ok_same {ℓ} : {A : Type ℓ} {x y : A} → ok x ≡ ok y → x ≡ y
ok_same e = cc

map-ne_nil : (plies others : List Ply) → map bare plies ≡ map bare others → others ≢ [] → plies ≢ []
map-ne_nil plies [] e h k = h refl
map-ne_nil [] (other ∷ others) e h k = cc
map-ne_nil (ply ∷ plies) (other ∷ others) e h k = cc

module _ (extract_clocks : Text → List ℤ) (stoll : Text → Option ℤ) where
  -- What is known of a game at the end of `parse_moves`.
  pub record IsRead (start : Game) (text : Text) (game : Game) : Type 0 where
    pub board : Board
    pub stripped : Text
    pub found : List Ply
    pub started : start_board start ≡ ok board
    pub kept : strip_non_mainline text ≡ ok stripped
    pub played : play_all board (split stripped) ≡ ok found
    pub some_found : found ≢ []
    pub tags : game.tags ≡ start.tags
    pub plies : map bare game.plies ≡ map bare found
    pub named : normalized_game_identity game ≡ ok game.identity

  some_plies-ok :
      (found : List Ply) {kept : List Ply}
      → some_plies found ≡ ok kept
      → (found ≡ kept) × (found ≢ [])
  unfolding some_plies
  some_plies-ok [] h = cc
  some_plies-ok (ply ∷ plies) h = (cc, λ e. cc)

  identified-ok :
      (game : Game) {named : Game}
      → identified game ≡ ok named
      → (named.tags ≡ game.tags)
        × (named.plies ≡ game.plies)
        × (normalized_game_identity named ≡ ok named.identity)
  unfolding identified normalized_game_identity barred tag
  identified-ok game {named} h = >>=-split (normalized_game_identity game) h (λ identity e k.
      let same : record game { identity = identity } ≡ named = cc in
      subst
        (λ g.
          (g.tags ≡ game.tags)
          × (g.plies ≡ game.plies)
          × (normalized_game_identity g ≡ ok g.identity))
        same (refl, refl, e))

  pub parse_moves-IsRead :
      {start : Game} {text : Text} {game : Game}
      → parse_moves extract_clocks stoll start text ≡ ok game
      → IsRead start text game
  unfolding parse_moves
  parse_moves-IsRead {start} {text} {game} h = >>=-split (start_board start) h (λ board e0 h0.
      >>=-split (strip_non_mainline text) h0 (λ stripped e1 h1.
        >>=-split (play_all board (split stripped)) h1 (λ found e2 h2.
          >>=-split (some_plies found) h2 (λ kept e3 h3.
            let (same, some_found) = some_plies-ok found e3 in
            let (tags, plies, named) = identified-ok _ h3 in
            record {
              board = board;
              stripped = stripped;
              found = found;
              started = e0;
              kept = e1;
              played = e2;
              some_found = some_found;
              tags = tags;
              plies =
                  ap (map bare) plies
                  ∙ (with_time-bare (time_control stoll (tag start (codes "TimeControl"))) kept
                        (extract_clocks text)
                      ∙ ap (map bare) (sym same));
              named = named;
            }))))

  pub tag_loop-start :
      (pgn : Text) {game : Game}
      → parse_pgn extract_clocks stoll pgn ≡ ok game
      → (start : Game) × (text : Text) × (tag_loop (suc (length pgn)) [] pgn
          ≡ ok (start.tags, text))
        × IsRead start text game
  unfolding parse_pgn
  tag_loop-start pgn {game} h = >>=-split (tag_loop (suc (length pgn)) [] pgn) h (λ found e k. (
    record { tags = found.0; source_pgn = pgn; plies = []; identity = [] },
    found.1,
    e,
    parse_moves-IsRead k,
  ))

pub start_board-tags : (g h : Game) → g.tags ≡ h.tags → start_board g ≡ start_board h
unfolding start_board tag
start_board-tags g h e = rw e refl

-- A game that `parse_pgn` returns from a well-formed start has plies, and they are a line of legal moves
-- from there: each with the positions before and after it and its notation, which `parse_san` reads as that
-- move. The game's identity is its normalized one.
pub parse_pgn-IsLine :
    (extract_clocks : Text → List ℤ) (stoll : Text → Option ℤ) (pgn : Text) {game : Game}
    {b : Board}
    → parse_pgn extract_clocks stoll pgn ≡ ok game
    → start_board game ≡ ok b
    → IsWellFormed b
    → (game.plies ≢ []) × IsLine b game.plies × (normalized_game_identity game ≡ ok game.identity)
parse_pgn-IsLine extract_clocks stoll pgn {game} {b} h e w =
    let (start, text, found, r) = tag_loop-start extract_clocks stoll pgn h in
    let from_start = sym (start_board-tags game start r.tags) ∙ e in
    let same : r.board ≡ b = ok_same (sym r.started ∙ from_start) in
    let line =
      play_all-IsLine (split r.stripped) b w
        (ap (λ c. play_all c (split r.stripped)) (sym same) ∙ r.played) in
    (
      map-ne_nil game.plies r.found r.plies r.some_found,
      bare-IsLine b game.plies (subst (IsLine b) (sym r.plies) (IsLine-bare b r.found line)),
      r.named,
    )
