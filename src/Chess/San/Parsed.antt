-- ===== src/Chess/San/Parsed.antt =====
-- What `parse_san` finds on a well-formed position.
use plywise.Chess.Board.{Board, Move}
use plywise.Chess.Fen.{to_fen, show_target}
use plywise.Chess.Legal.Filter.{legal_moves-safe_moves}
use plywise.Chess.Legal.Perft.{legal_list, legal_list-Fits}
use plywise.Chess.Moves.Steps.{Fits}
use plywise.Chess.San.{normalize, to_san, parse_loop, parse_san, text_eq}
use plywise.Chess.San.Named.{to_san-Writes, named}
use plywise.Chess.Shape.{IsWellFormed}
use plywise.Chess.Square.{Text, no_square}
use plywise.Errors.{Result, ok, err, illegal_move}
use plywise.Prelude.{
  ℕ, ◌<◌, ◌≡◌, ◌≢◌, ◌⊎◌, inl, inr, refl, true, false, List, [], ◌∷◌, arith, All, Bool-cases,
}

-- The move's own notation is the text expected, once both are normalized.
abbrev pub NamedBy : Board → Text → Move → Type 0
NamedBy b expected m = (text : Text) × (to_san b m ≡ ok (b, text)) × (normalize text ≡ expected)

-- The first move of a list that is named by the text; an error if none is.
pub data FirstNamed (b : Board) (expected : Text) : List Move → Result (Board × Move) → Type 0 where
  nothing : FirstNamed b expected [] (err illegal_move)
  here :
      {m : Move} {ms : List Move}
      → NamedBy b expected m
      → FirstNamed b expected (m ∷ ms) (ok (b, m))
  later :
      {m : Move} {ms : List Move} {found : Result (Board × Move)}
      → ¬ NamedBy b expected m
      → FirstNamed b expected ms found
      → FirstNamed b expected (m ∷ ms) found

pub text_eq-true : (s t : Text) → text_eq s t ≡ true → s ≡ t
text_eq-true [] [] h = refl
text_eq-true [] (d ∷ ds) h = cc
text_eq-true (c ∷ cs) [] h = cc
text_eq-true (c ∷ cs) (d ∷ ds) h = ground (arith, text_eq-true cs ds)

text_eq_refl : (s : Text) → text_eq s s ≡ true
text_eq_refl [] = refl
text_eq_refl (c ∷ cs) = ground (arith, text_eq_refl cs)

text_eq-false : (s t : Text) → text_eq s t ≡ false → s ≢ t
text_eq-false s t h e = ground (arith, text_eq_refl s)

target_shown :
    (square : ℕ)
    → (square ≡ no_square) ⊎ (square < 64)
    → (text : Text) × (show_target square ≡ ok text)
unfolding show_target
target_shown square (inl h) = (b'-' ∷ [], ground arith)
target_shown square (inr h) = let (name, e) = named square h in (name, ground arith)

not_named :
    (b : Board) (expected : Text) (m : Move) (text : Text)
    → to_san b m ≡ ok (b, text)
    → normalize text ≢ expected
    → ¬ NamedBy b expected m
not_named b expected m text e differs (other, o, n) = differs (ground arith)

module _ (b : Board) (w : IsWellFormed b) where
  target_on : (b.en_passant ≡ no_square) ⊎ (b.en_passant < 64)
  target_on = elim w.target [ inl h ↦ inl h | inr t ↦ inr t.target_on ]

  -- The message of the error can be written.
  refused : parse_loop [] [] b ≡ err illegal_move
  unfolding to_fen parse_loop
  refused = let (text, shown) = target_shown b.en_passant target_on in rw shown refl

  loop-FirstNamed :
      (expected : Text) (ms : List Move)
      → All (Fits b) ms
      → FirstNamed b expected ms (parse_loop expected ms b)
  unfolding parse_loop
  loop-FirstNamed expected [] h = rw refused nothing
  loop-FirstNamed expected (m ∷ ms) (f, h) =
      let (text, e) = to_san-Writes b w m f in
      elim (Bool-cases (text_eq (normalize text) expected)) [
        | inl same ↦ rw (e, same) (here (text, e, text_eq-true (normalize text) expected same))
        | inr differs ↦
            rw (e, differs)
              (later
                (not_named b expected m text e (text_eq-false (normalize text) expected differs))
                (loop-FirstNamed expected ms h))
      ]

  -- On a well-formed position `parse_san` returns the first legal move whose own notation is the text
  -- once both are normalized, with the board as it was, and an illegal-move error if there is none.
  pub parse_san-FirstNamed :
      (san : Text) → FirstNamed b (normalize san) (legal_list b) (parse_san b san)
  unfolding parse_san
  parse_san-FirstNamed san =
      rw (legal_moves-safe_moves b w)
        (loop-FirstNamed (normalize san) (legal_list b) (legal_list-Fits b w))
