-- ===== src/Chess/Pgn/Replayed.antt =====
-- The moves that `canonical_pgn` writes are played again as the same plies.
use plywise.Chess.Board.{Board}
use plywise.Chess.Fen.{is_space, is_digit, finish_word, split}
use plywise.Chess.Fen.Words.{IsWord, split_onto-space, split_onto_end}
use plywise.Chess.Legal.Filter.{after_move}
use plywise.Chess.Pgn.Lines.{IsLine, after_move-made}
use plywise.Chess.Pgn.Notation.{IsNotation, to_san-IsNotation}
use plywise.Chess.Pgn.Parsed.{bare}
use plywise.Chess.Pgn.Printed.{show_number, next_number, show_plies}
use plywise.Chess.Pgn.Replay.{Ply, play_all}
use plywise.Chess.Pgn.Scan.{
  result_token, move_number_token, dots_after_digits, all_dots, after_last_dot, without_number,
  starts_with_dollar,
}
use plywise.Chess.Pgn.Tokens.{
  is_movetext, IsMovetext, plain-IsMovetext, plain-IsWord, play_all-notation, play_all-number,
  IsNumber, show_number-IsNumber,
}
use plywise.Chess.Piece.{Color, opposite}
use plywise.Chess.San.{text_eq}
use plywise.Chess.San.Parsed.{text_eq-true}
use plywise.Chess.Shape.{IsWellFormed}
use plywise.Chess.Square.{codes, Text}
use plywise.Errors.{ok}
use plywise.Prelude.{
  ℕ, ◌≡◌, ◌≢◌, ◌⊎◌, inl, inr, refl, sym, ap, subst, ◌∙◌, Bool, true, false, ◌||◌, List, [], ◌∷◌,
  ◌++◌, All-append, map,
}
use mathlib.Core.List.{append_assoc}

-- What ends the moves of a game.
pub record IsEnd (text : Text) : Type 0 where
  pub movetext : IsMovetext text
  pub is_word : IsWord text
  pub some_code : text ≢ []
  pub ends : (b : Board) → play_all b (text ∷ []) ≡ ok []

star-IsEnd : IsEnd (codes "*")
unfolding is_movetext is_space play_all result_token move_number_token dots_after_digits
    after_last_dot without_number starts_with_dollar is_digit all_dots
star-IsEnd = record {
  movetext = (refl, tt);
  is_word = (refl, tt);
  some_code = λ e. cc;
  ends = λ b. refl;
}

white_wins-IsEnd : IsEnd (codes "1-0")
unfolding is_movetext is_space play_all result_token move_number_token dots_after_digits
    after_last_dot without_number starts_with_dollar is_digit all_dots
white_wins-IsEnd = record {
  movetext = (refl, (refl, (refl, tt)));
  is_word = (refl, (refl, (refl, tt)));
  some_code = λ e. cc;
  ends = λ b. refl;
}

black_wins-IsEnd : IsEnd (codes "0-1")
unfolding is_movetext is_space play_all result_token move_number_token dots_after_digits
    after_last_dot without_number starts_with_dollar is_digit all_dots
black_wins-IsEnd = record {
  movetext = (refl, (refl, (refl, tt)));
  is_word = (refl, (refl, (refl, tt)));
  some_code = λ e. cc;
  ends = λ b. refl;
}

draw-IsEnd : IsEnd (codes "1/2-1/2")
unfolding is_movetext is_space play_all result_token move_number_token dots_after_digits
    after_last_dot without_number starts_with_dollar is_digit all_dots
draw-IsEnd = record {
  movetext = (refl, (refl, (refl, (refl, (refl, (refl, (refl, tt)))))));
  is_word = (refl, (refl, (refl, (refl, (refl, (refl, (refl, tt)))))));
  some_code = λ e. cc;
  ends = λ b. refl;
}

either : {P : Type 0} (s t : Bool) → (s || t) ≡ true → ((s ≡ true) → P) → ((t ≡ true) → P) → P
either true t h f g = f refl
either false t h f g = g h

-- A result ends the moves.
pub result-IsEnd : (text : Text) → result_token text ≡ true → IsEnd text
unfolding result_token
result-IsEnd text h =
    let is = λ (constant : Text) (known : IsEnd constant) (e : text_eq text constant ≡ true).
      subst IsEnd (sym (text_eq-true text constant e)) known in
    either _ _ h
      (λ h'.
        either _ _ h'
          (λ h''.
            either _ _ h'' (is (codes "1-0") white_wins-IsEnd) (is (codes "0-1") black_wins-IsEnd))
          (is (codes "1/2-1/2") draw-IsEnd))
      (is (codes "*") star-IsEnd)

word_first : (word : Text) (words : List Text) → word ≢ [] → finish_word word words ≡ word ∷ words
unfolding finish_word
word_first [] words ne = absurd (ne refl)
word_first (c ∷ cs) words ne = refl

split-word :
    (word rest : Text) → IsWord word → word ≢ [] → split (word ++ 32 ∷ rest) ≡ word ∷ split rest
unfolding split
split-word word rest w ne = split_onto-space word [] rest w ∙ word_first word (split rest) ne

split_last : (word : Text) → IsWord word → word ≢ [] → split word ≡ word ∷ []
unfolding split
split_last word w ne = split_onto_end word [] w ∙ word_first word [] ne

notation-ne_nil : (text : Text) → IsNotation text → text ≢ []
notation-ne_nil [] (p, l) e = l
notation-ne_nil (c ∷ cs) n e = cc

-- Text that is read without its comments as it stands, and played as these plies.
abbrev pub Plays : Board → Text → List Ply → Type 0
Plays b text plies = IsMovetext text × (play_all b (split text) ≡ ok plies)

numbered-Plays :
    (b : Board) (number text : Text) {plies : List Ply}
    → (number ≡ []) ⊎ IsNumber number
    → Plays b text plies
    → Plays b (number ++ text) plies
numbered-Plays b number text {plies} (inl nothing) h =
    subst (λ n. Plays b (n ++ text) plies) (sym nothing) h
numbered-Plays b number text {plies} (inr n) (m, e) =
    let spaced : n.number ++ 32 ∷ text ≡ number ++ text =
      sym (append_assoc n.number (32 ∷ []) text) ∙ ap (λ t. t ++ text) (sym n.spaced) in
    subst (λ t. Plays b t plies) spaced
      (
        All-append _ n.number (32 ∷ text) n.movetext (unfold is_movetext in refl, m),
        ap (play_all b) (split-word n.number text n.is_word n.some_digit)
            ∙ (play_all-number b n.number (split text) n.is_number ∙ e),
      )

-- A line of legal moves, printed from whatever side and number on, is played as the same plies.
pub show_plies-Plays :
    (plies : List Ply) (b : Board) (side : Color) (n : ℕ) (is_first : Bool) {out : Text}
    → IsWellFormed b
    → IsLine b plies
    → IsEnd out
    → Plays b (show_plies side n is_first plies out) (map bare plies)
unfolding show_plies
show_plies-Plays [] b side n is_first {out} w l end =
    (end.movetext, ap (play_all b) (split_last out end.is_word end.some_code) ∙ end.ends b)
show_plies-Plays (ply ∷ plies) b side n is_first {out} w (p, l) end =
    let (m, e) =
      show_plies-Plays plies (after_move b ply.move) (opposite side) (next_number side n) false
        (after_move-made b w p.legal).1 l end in
    let notation = to_san-IsNotation b ply.move p.written in
    numbered-Plays b (show_number side n is_first) _ (show_number-IsNumber side n is_first) (
      All-append _ ply.san _ (plain-IsMovetext ply.san notation.0) (unfold is_movetext in refl, m),
      ap (play_all b) (
            split-word ply.san _ (plain-IsWord ply.san notation.0)
              (notation-ne_nil ply.san notation))
          ∙ play_all-notation b w ply p _ notation e,
    )
