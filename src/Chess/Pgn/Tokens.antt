-- ===== src/Chess/Pgn/Tokens.antt =====
-- How the second loop of `parse_pgn` takes the tokens that `canonical_pgn` writes.
use plywise.Chess.Board.{Board}
use plywise.Chess.Fen.{is_space, is_digit, decimal_onto, decimal}
use plywise.Chess.Fen.Words.{IsWord, decimal-ne_nil}
use plywise.Chess.Legal.Filter.{after_move}
use plywise.Chess.Pgn.Lines.{IsPlayed, after_move-made}
use plywise.Chess.Pgn.Marks.{is_plain, is_letter, IsPlain}
use plywise.Chess.Pgn.Notation.{IsNotation}
use plywise.Chess.Pgn.Parsed.{bare}
use plywise.Chess.Pgn.Printed.{show_number}
use plywise.Chess.Pgn.Replay.{Ply, play, play_all}
use plywise.Chess.Pgn.Scan.{
  mainline, scan, scan_step, strip_non_mainline, result_token, move_number_token, dots_after_digits,
  all_dots, after_last_dot, without_number, starts_with_dollar, token_empty,
}
use plywise.Chess.Pgn.TagText.{IsOpening}
use plywise.Chess.Piece.{Color, white, black}
use plywise.Chess.Shape.{IsWellFormed}
use plywise.Chess.Square.{Text}
use plywise.Errors.{ok}
use mathlib.Core.List.{append_assoc}
use plywise.Prelude.{
  ℕ, zero, suc, ◌≡◌, ◌≢◌, ◌<◌, ◌⊎◌, inl, inr, refl, subst, ◌+◌, ◌/◌, ◌%◌, Bool, true, false, not,
  ◌&&◌, ◌||◌, List, [], ◌∷◌, ◌++◌, ◌==◌, ltb, arith, All, All-append, Bool-cases, none,
}

-- No sign that the scanner takes for more than a character.
unfoldable pub is_movetext : ℕ → Bool
is_movetext c = not (c == b';') && not (c == b'{') && not (c == b'(') && not (c == b')')

abbrev pub IsMovetext : Text → Type 0
IsMovetext = All (λ c. is_movetext c ≡ true)

pub step-IsMovetext : (c : ℕ) → is_movetext c ≡ true → scan_step mainline c ≡ ok (mainline, c ∷ [])
unfolding scan_step is_movetext
step-IsMovetext c h = ground arith

scan-IsMovetext : (text : Text) → IsMovetext text → scan mainline text ≡ ok text
unfolding scan
scan-IsMovetext [] h = refl
scan-IsMovetext (c ∷ cs) (h, t) = rw (step-IsMovetext c h, scan-IsMovetext cs t) refl

-- Text without comments and variations is kept as it is.
pub strip_non_mainline-IsMovetext :
    (text : Text) → IsMovetext text → strip_non_mainline text ≡ ok text
unfolding strip_non_mainline
strip_non_mainline-IsMovetext text h = scan-IsMovetext text h

pub plain-IsMovetext : (text : Text) → IsPlain text → IsMovetext text
unfolding is_movetext is_plain
plain-IsMovetext [] h = tt
plain-IsMovetext (c ∷ cs) (h, t) = (ground arith, plain-IsMovetext cs t)

pub plain-IsWord : (text : Text) → IsPlain text → IsWord text
unfolding is_plain
plain-IsWord [] h = tt
plain-IsWord (c ∷ cs) (h, t) = (ground arith, plain-IsWord cs t)

-- The tokens of a move.
plain-no_dot : (text : Text) → IsPlain text → after_last_dot text ≡ none
unfolding after_last_dot is_plain
plain-no_dot [] h = refl
plain-no_dot (c ∷ cs) (h, t) = rw (plain-no_dot cs t) (ground arith)

-- A notation is none of the tokens that are passed over or that end the game.
abbrev IsMoveToken : Text → Type 0
IsMoveToken token =
    ((starts_with_dollar token || move_number_token token) ≡ false)
    × (without_number token ≡ token)
    × (token_empty token ≡ false)
    × (result_token token ≡ false)

notation-IsMoveToken : (text : Text) → IsNotation text → IsMoveToken text
unfolding starts_with_dollar move_number_token is_digit without_number result_token is_letter
notation-IsMoveToken [] (p, l) = elim l [ ]
notation-IsMoveToken (c ∷ cs) (p, l) =
    (ground arith, rw (without_number, plain-no_dot (c ∷ cs) p) refl, refl, ground arith)

module _ (b : Board) (w : IsWellFormed b) (ply : Ply) (p : IsPlayed b ply) where
  play-san : play b ply.san ≡ ok (after_move b ply.move, bare ply)
  unfolding play
  play-san = rw (p.before, p.read_back, p.written, (after_move-made b w p.legal).0, p.after) refl

  -- The notation of a ply is played as that ply.
  pub play_all-notation :
      (tokens : List Text) {plies : List Ply}
      → IsNotation ply.san
      → play_all (after_move b ply.move) tokens ≡ ok plies
      → play_all b (ply.san ∷ tokens) ≡ ok (bare ply ∷ plies)
  unfolding play_all
  play_all-notation tokens n e =
      let (moves, whole, some', goes) = notation-IsMoveToken ply.san n in
      rw (moves, whole, some', goes, play-san, e) refl

-- A number is passed over.
pub play_all-number :
    (b : Board) (number : Text) (tokens : List Text)
    → move_number_token number ≡ true
    → play_all b (number ∷ tokens) ≡ play_all b tokens
unfolding play_all
play_all-number b number tokens e = elim (Bool-cases (starts_with_dollar number)) [
  | inl d ↦ rw d refl
  | inr d ↦ rw (d, e) refl
]

abbrev AreDigits : Text → Type 0
AreDigits = All (λ c. is_digit c ≡ true)

decimal_onto-AreDigits :
    (fuel n : ℕ) (out : Text) → n < fuel → AreDigits out → AreDigits (decimal_onto fuel n out)
unfolding decimal_onto is_digit
decimal_onto-AreDigits zero n out h k = k
decimal_onto-AreDigits (suc fuel) n out h k = elim (Bool-cases (ltb n 10)) [
  | inl small ↦ rw small (ground arith, k)
  | inr large ↦ rw large (
      decimal_onto-AreDigits fuel (n / 10) ((b'0' + n % 10) ∷ out) (ground arith) (ground arith, k))
]

digits-dots :
    (digits dots : Text)
    → AreDigits digits
    → all_dots (b'.' ∷ dots) ≡ true
    → dots_after_digits (digits ++ b'.' ∷ dots) ≡ true
unfolding dots_after_digits is_digit
digits-dots [] dots h e = e
digits-dots (c ∷ cs) dots (h, t) e = ground (arith, digits-dots cs dots t e)

number-dots :
    (digits dots : Text)
    → AreDigits digits
    → digits ≢ []
    → all_dots (b'.' ∷ dots) ≡ true
    → move_number_token (digits ++ b'.' ∷ dots) ≡ true
unfolding move_number_token
number-dots [] dots h ne e = absurd (ne refl)
number-dots (c ∷ cs) dots (h, t) ne e = rw (h, digits-dots cs dots t e) refl

digits-IsMovetext : (digits : Text) → AreDigits digits → IsMovetext digits
unfolding is_movetext is_digit
digits-IsMovetext [] h = tt
digits-IsMovetext (c ∷ cs) (h, t) = (ground arith, digits-IsMovetext cs t)

digits-IsWord : (digits : Text) → AreDigits digits → IsWord digits
unfolding is_space is_digit
digits-IsWord [] h = tt
digits-IsWord (c ∷ cs) (h, t) = (ground arith, digits-IsWord cs t)

-- A token with a space behind it, or nothing.
pub record IsNumber (text : Text) : Type 0 where
  pub number : Text
  pub spaced : text ≡ number ++ 32 ∷ []
  pub is_word : IsWord number
  pub movetext : IsMovetext number
  pub is_number : move_number_token number ≡ true
  pub some_digit : number ≢ []

append_ne_nil : (xs : Text) (y : ℕ) (ys : Text) → xs ++ y ∷ ys ≢ []
append_ne_nil [] y ys e = cc
append_ne_nil (x ∷ xs) y ys e = cc

dotted-IsNumber :
    (n : ℕ) (dots : Text)
    → all_dots (b'.' ∷ dots) ≡ true
    → IsWord (b'.' ∷ dots)
    → IsMovetext (b'.' ∷ dots)
    → IsNumber (decimal n ++ (b'.' ∷ dots) ++ 32 ∷ [])
unfolding decimal
dotted-IsNumber n dots e w m =
    let digits = decimal_onto-AreDigits (suc n) n [] (omega arith) tt in
    record {
      number = decimal n ++ b'.' ∷ dots;
      spaced = refl;
      is_word = All-append _ (decimal n) (b'.' ∷ dots) (digits-IsWord (decimal n) digits) w;
      movetext = All-append _ (decimal n) (b'.' ∷ dots) (digits-IsMovetext (decimal n) digits) m;
      is_number = number-dots (decimal n) dots digits (decimal-ne_nil n) e;
      some_digit = append_ne_nil (decimal n) b'.' dots;
    }

-- What `canonical_pgn` writes in front of a notation.
pub show_number-IsNumber :
    (side : Color) (n : ℕ) (is_first : Bool)
    → (show_number side n is_first ≡ []) ⊎ IsNumber (show_number side n is_first)
unfolding show_number all_dots is_space is_movetext
show_number-IsNumber white n is_first = inr (
    subst IsNumber (append_assoc (decimal n) (b'.' ∷ []) (32 ∷ []))
      (dotted-IsNumber n [] refl (refl, tt) (refl, tt)))
show_number-IsNumber black n true = inr (
    subst IsNumber (append_assoc (decimal n) (b'.' ∷ b'.' ∷ b'.' ∷ []) (32 ∷ [])) (
      dotted-IsNumber n (b'.' ∷ b'.' ∷ []) refl (refl, (refl, (refl, tt)))
        (refl, (refl, (refl, tt)))))
show_number-IsNumber black n false = inl refl

digits-IsOpening :
    (digits rest : Text) → AreDigits digits → digits ≢ [] → IsOpening (digits ++ rest)
unfolding is_digit is_space
digits-IsOpening [] rest h ne = absurd (ne refl)
digits-IsOpening (c ∷ cs) rest (h, t) ne = (ground arith, ground arith)

append-IsOpening : (text rest : Text) → IsOpening text → IsOpening (text ++ rest)
append-IsOpening [] rest h = elim h [ ]
append-IsOpening (c ∷ cs) rest h = h

-- The first notation has a number in front.
pub show_number-IsOpening :
    (side : Color) (n : ℕ) (rest : Text) → IsOpening (show_number side n true ++ rest)
unfolding show_number decimal
show_number-IsOpening white n rest = append-IsOpening _ rest (
    digits-IsOpening (decimal n) _ (decimal_onto-AreDigits (suc n) n [] (omega arith) tt)
      (decimal-ne_nil n))
show_number-IsOpening black n rest = append-IsOpening _ rest (
    digits-IsOpening (decimal n) _ (decimal_onto-AreDigits (suc n) n [] (omega arith) tt)
      (decimal-ne_nil n))
