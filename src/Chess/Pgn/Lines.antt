-- ===== src/Chess/Pgn/Lines.antt =====
-- What the plies are that the second loop of `parse_pgn` returns.
use plywise.Chess.Board.{Board, Move, Undo}
use plywise.Chess.Fen.{to_fen}
use plywise.Chess.Legal.Filter.{after_move}
use plywise.Chess.Legal.Perft.{legal_list, legal_list-Fits}
use plywise.Chess.Make.{make_move, undo_of}
use plywise.Chess.Make.Keeps.{moved-IsWellFormed}
use plywise.Chess.Make.Restore.{make_move-ok}
use plywise.Chess.Moves.Steps.{Fits}
use plywise.Chess.Pgn.Replay.{Ply, play, play_all}
use plywise.Chess.Pgn.Scan.{
  starts_with_dollar, move_number_token, without_number, token_empty, result_token,
}
use plywise.Chess.San.{normalize, parse_san, to_san}
use plywise.Chess.San.Parsed.{NamedBy, FirstNamed, nothing, here, later, parse_san-FirstNamed}
use plywise.Chess.Shape.{IsWellFormed}
use plywise.Chess.Square.{Text}
use plywise.Errors.{Result, ok, >>=-split}
use plywise.Prelude.{
  ◌≡◌, refl, sym, ap, subst, ◌∙◌, List, [], ◌∷◌, Among, at_front, further, All-Among, inl, inr,
  Bool-cases, ◌||◌, then_taken, else_taken,
}

-- The ply is a legal move with its notation, which names it alone, between the two positions.
pub record IsPlayed (b : Board) (ply : Ply) : Type 0 where
  pub legal : Among ply.move (legal_list b)
  pub before : to_fen b ≡ ok ply.fen_before
  pub written : to_san b ply.move ≡ ok (b, ply.san)
  pub read_back : parse_san b ply.san ≡ ok (b, ply.move)
  pub after : to_fen (after_move b ply.move) ≡ ok ply.fen_after

abbrev pub IsLine : Board → List Ply → Type 0
IsLine b [] = Unit
IsLine b (ply ∷ plies) = IsPlayed b ply × IsLine (after_move b ply.move) plies

first_found :
    {b : Board} {expected : Text} {ms : List Move} {found : Result (Board × Move)} {after : Board}
    {move : Move}
    → FirstNamed b expected ms found
    → found ≡ ok (after, move)
    → (after ≡ b) × Among move ms × NamedBy b expected move
first_found nothing e = cc
first_found {b} {expected} {move} (here {m} by) e =
    let same : m ≡ move = cc in (cc, at_front same, subst (NamedBy b expected) same by)
first_found (later not_by rest) e =
    let (same, inside, by) = first_found rest e in (same, further inside, by)

-- What the text names is found by any text that is normalized alike.
parse_san_alike :
    (b : Board) (s t : Text) → normalize s ≡ normalize t → parse_san b s ≡ parse_san b t
unfolding parse_san
parse_san_alike b s t e = rw e refl

module _ (b : Board) (w : IsWellFormed b) where
  pub after_move-made :
      {m : Move}
      → Among m (legal_list b)
      → (make_move b m ≡ ok (after_move b m, undo_of b m)) × IsWellFormed (after_move b m)
  after_move-made {m} h =
      let fits = All-Among (Fits b) (legal_list-Fits b w) h in
      (make_move-ok b m fits.0, moved-IsWellFormed b m w fits.0 fits.1)

  play_found :
      (token : Text) {made : Board} {ply : Ply}
      → play b token ≡ ok (made, ply)
      → (parsed written : Board) × (undo : Undo) × (to_fen b ≡ ok ply.fen_before)
        × (parse_san b token ≡ ok (parsed, ply.move))
        × (to_san parsed ply.move ≡ ok (written, ply.san))
        × (make_move written ply.move ≡ ok (made, undo))
        × (to_fen made ≡ ok ply.fen_after)
  unfolding play
  play_found token {made} {ply} h = >>=-split (to_fen b) h (λ before e0 h0.
      >>=-split (parse_san b token) h0 (λ found e1 h1.
        >>=-split (to_san found.0 found.1) h1 (λ text e2 h2.
          >>=-split (make_move text.0 found.1) h2 (λ moved e3 h3.
            >>=-split (to_fen moved.0) h3 (λ after e4 h4.
              let move_same : found.1 ≡ ply.move = cc in
              (found.0, text.0, moved.1, cc, cc, cc, cc, cc))))))

  play-IsPlayed :
      (token : Text) {made : Board} {ply : Ply}
      → play b token ≡ ok (made, ply)
      → (made ≡ after_move b ply.move) × IsPlayed b ply × IsWellFormed (after_move b ply.move)
  play-IsPlayed token {made} {ply} h =
      let (parsed, written, undo, before, found, text, moves, after) = play_found token h in
      let (same, legal, named) = first_found (parse_san-FirstNamed b w token) found in
      let (makes, w') = after_move-made legal in
      let made_same : made ≡ after_move b ply.move = cc in
      let text_same : ply.san ≡ named.0 = cc in
      (
        made_same,
        record {
          legal = legal;
          before = before;
          written = cc;
          read_back = parse_san_alike b ply.san token (ap normalize text_same ∙ named.2) ∙ cc;
          after = cc;
        },
        w',
      )

-- The second loop of `parse_pgn` returns a line of legal moves from the board it starts with.
pub play_all-IsLine :
    (tokens : List Text) (b : Board) {plies : List Ply}
    → IsWellFormed b
    → play_all b tokens ≡ ok plies
    → IsLine b plies
unfolding play_all
play_all-IsLine [] b {plies} w h = let none_left : [] ≡ plies = cc in subst (IsLine b) none_left tt
play_all-IsLine (token ∷ tokens) b {plies} w h =
    elim (Bool-cases (starts_with_dollar token || move_number_token token)) [
      | inl skipped ↦ play_all-IsLine tokens b w (then_taken _ skipped h)
      | inr read ↦ elim (Bool-cases (token_empty (without_number token))) [
        | inl erased ↦ play_all-IsLine tokens b w (then_taken _ erased (else_taken _ read h))
        | inr left ↦ elim (Bool-cases (result_token (without_number token))) [
          | inl over ↦ let none_left : [] ≡ plies = cc in subst (IsLine b) none_left tt
          | inr move ↦
              >>=-split (play b (without_number token))
                (else_taken _ move (else_taken _ left (else_taken _ read h)))
                (λ first e k. >>=-split (play_all first.0 tokens) k (λ others e' k'.
                  let (made_same, played, w') = play-IsPlayed b w (without_number token) e in
                  let line : IsLine first.0 others =
                    play_all-IsLine tokens first.0 (subst IsWellFormed (sym made_same) w') e' in
                  let all_same : first.1 ∷ others ≡ plies = cc in
                  subst (IsLine b) all_same (played, subst (λ c. IsLine c others) made_same line)))
        ]
      ]
    ]
