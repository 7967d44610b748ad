-- ===== src/Chess/Pgn/Scan.antt =====
-- What is left of a PGN's moves without comments and variations, and the tokens among them: the first
-- functions of src/chess/pgn.cpp.
use plywise.Chess.Fen.{is_digit}
use plywise.Chess.San.{text_eq}
use plywise.Chess.Square.{codes, Text}
use plywise.Errors.{Result, ok, err, parse_error, ◌>>=◌}
use plywise.Prelude.{
  ℕ, ◌+◌, ◌-◌, Bool, true, false, not, ◌&&◌, ◌||◌, [], ◌∷◌, ◌++◌, Option, none, some, ◌==◌,
  if◌then◌else◌,
}

-- The variables of `strip_non_mainline`.
pub record Scan : Type 0 where
  pub variation_depth : ℕ
  pub brace_comment : Bool
  pub line_comment : Bool

abbrev pub mainline : Scan
mainline = record { variation_depth = 0; brace_comment = false; line_comment = false }

-- One round of its loop: what is pushed is returned with the variables.
unfoldable pub scan_step : Scan → ℕ → Result (Scan × Text)
scan_step s c =
    if s.line_comment
    then ok (if c == 10 then (record s { line_comment = false }, 32 ∷ []) else (s, []))
    else if s.brace_comment
    then ok (if c == b'}' then record s { brace_comment = false } else s, [])
    else if c == b';' && s.variation_depth == 0
    then ok (record s { line_comment = true }, [])
    else if c == b'{' && s.variation_depth == 0
    then ok (record s { brace_comment = true }, [])
    else if c == b'('
    then ok (record s { variation_depth = s.variation_depth + 1 }, [])
    else if c == b')'
    then (if s.variation_depth == 0
        then err parse_error
        else ok (record s { variation_depth = s.variation_depth - 1 }, []))
    else ok (s, if s.variation_depth == 0 then c ∷ [] else [])

unfoldable pub scan : Scan → Text → Result Text
scan s [] = if s.brace_comment || not (s.variation_depth == 0) then err parse_error else ok []
scan s (c ∷ cs) = do (next, pushed) ← scan_step s c; output ← scan next cs; ok (pushed ++ output)

unfoldable pub strip_non_mainline : Text → Result Text
strip_non_mainline input = scan mainline input

unfoldable pub result_token : Text → Bool
result_token token =
    text_eq token (codes "1-0")
    || text_eq token (codes "0-1")
    || text_eq token (codes "1/2-1/2")
    || text_eq token (codes "*")

unfoldable pub all_dots : Text → Bool
all_dots [] = true
all_dots (c ∷ cs) = c == b'.' && all_dots cs

-- The digits have been passed, at least one; what is left is dots, at least one.
unfoldable pub dots_after_digits : Text → Bool
dots_after_digits [] = false
dots_after_digits (c ∷ cs) = if is_digit c then dots_after_digits cs else all_dots (c ∷ cs)

unfoldable pub move_number_token : Text → Bool
move_number_token [] = false
move_number_token (c ∷ cs) = is_digit c && dots_after_digits cs

-- What stands behind the last dot, if there is one.
unfoldable pub after_last_dot : Text → Option Text
after_last_dot [] = none
after_last_dot (c ∷ cs) = elim (after_last_dot cs) [
  | some rest ↦ some rest
  | none ↦ if c == b'.' then some cs else none
]

unfoldable pub starts_with_digit : Text → Bool
starts_with_digit [] = false
starts_with_digit (c ∷ cs) = is_digit c

unfoldable pub starts_with_dollar : Text → Bool
starts_with_dollar [] = false
starts_with_dollar (c ∷ cs) = c == b'$'

-- What is left of a token once the number in front of its move is erased.
unfoldable pub without_number : Text → Text
without_number token = elim (after_last_dot token) [
  | none ↦ token
  | some [] ↦ token
  | some (c ∷ cs) ↦ if starts_with_digit token then c ∷ cs else token
]

abbrev pub token_empty : Text → Bool
token_empty [] = true
token_empty (c ∷ cs) = false
