-- ===== src/Json/Parser/Begins.antt =====
-- What the parser sees at the front of a value that was written.
use plywise.Json.{Text}
use plywise.Json.Lexer.{is_blank, skip_space, is_digit}
use plywise.Json.Parser.{token_of, starts_number, separator, separator_of, no_separator}
use plywise.Json.Parser.Numbers.{begins_number}
use plywise.Prelude.{
  ℕ, ◌≡◌, ap, ◌∙◌, arith, Bool, true, false, not, ◌&&◌, ◌||◌, [], ◌∷◌, ◌++◌, ltb, ◌==◌,
}

-- The first byte is above the white space and is no closing bracket.
unfoldable pub begins_value : Text → Bool
begins_value [] = false
begins_value (c ∷ cs) = ltb 32 c && not (c == b']' || c == b'}' || c == b',')

pub begins_number-begins_value : (t : Text) → begins_number t ≡ true → begins_value t ≡ true
unfolding begins_number begins_value is_digit
begins_number-begins_value [] h = ground (arith, h)
begins_number-begins_value (c ∷ cs) h = ground (arith, h)

pub skip_space-begins : (t rest : Text) → begins_value t ≡ true → skip_space (t ++ rest) ≡ t ++ rest
unfolding skip_space begins_value is_blank
skip_space-begins [] rest h = ground (arith, h)
skip_space-begins (c ∷ cs) rest h = ground (arith, h)

pub separator_of-begins :
    (close : ℕ) (t rest : Text)
    → begins_value t ≡ true
    → (close == b']' || close == b'}') ≡ true
    → separator_of close (t ++ rest) ≡ no_separator
unfolding separator_of begins_value
separator_of-begins close [] rest h c = ground (arith, h)
separator_of-begins close (d ∷ ds) rest h c = ground (arith, h, c)

pub token_of-begins_number :
    (t rest : Text) → begins_number t ≡ true → token_of (t ++ rest) ≡ starts_number
unfolding begins_number token_of is_digit
token_of-begins_number [] rest h = ground (arith, h)
token_of-begins_number (c ∷ cs) rest h = ground (arith, h)

pub begins_value-append : (t more : Text) → begins_value t ≡ true → begins_value (t ++ more) ≡ true
unfolding begins_value
begins_value-append [] more h = ground (arith, h)
begins_value-append (c ∷ cs) more h = h

-- No bracket closes where a value begins.
pub separator-begins :
    (close : ℕ) (t rest : Text)
    → begins_value t ≡ true
    → (close == b']' || close == b'}') ≡ true
    → separator close (t ++ rest) ≡ no_separator
separator-begins close t rest h c =
    ap (separator_of close) (skip_space-begins t rest h) ∙ separator_of-begins close t rest h c
