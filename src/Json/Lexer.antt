-- ===== src/Json/Lexer.antt =====
-- The parts of the parser that read no value inside another: white space, literals, strings, numbers.
use plywise.Json.{Text}
use plywise.Prelude.{
  ℕ, zero, suc, ◌+◌, ◌-◌, ◌*◌, ◌/◌, ◌%◌, Bool, ◌&&◌, ◌||◌, [], ◌∷◌, ◌++◌, Option, none, some, ltb,
  leb, ◌==◌, if◌then◌else◌,
}

-- What a part of the parser does at a text: it leaves a value and what follows it, or throws a parse
-- error. The fuel is the model's; Total shows that it never runs out.
pub data Outcome (A : Type 0) : Type 0 where
  done : A → Text → Outcome A
  failed : Outcome A
  out_of_fuel : Outcome A

infixl 5 ◌>>=◌
abbrev pub ◌>>=◌ : {A : Type 0} {B : Type 0} → Outcome A → (A × Text → Outcome B) → Outcome B
done a rest >>= next = next (a, rest)
failed >>= next = failed
out_of_fuel >>= next = out_of_fuel

unfoldable pub is_blank : ℕ → Bool
is_blank c = c == b' ' || c == 10 || c == 13 || c == 9

unfoldable pub skip_space : Text → Text
skip_space [] = []
skip_space (c ∷ cs) = let rest = skip_space cs in if is_blank c then rest else c ∷ cs

-- `literal`, once its word is known.
unfoldable pub literal : {A : Type 0} → A → Text → Text → Outcome A
literal value [] cs = done value cs
literal value (w ∷ ws) [] = failed
literal value (w ∷ ws) (c ∷ cs) = let rest = literal value ws cs in if c == w then rest else failed

-- `append_utf8`, as the bytes that it adds.
unfoldable pub utf8 : ℕ → Text
utf8 codepoint =
    if leb codepoint 0x7f
    then codepoint ∷ []
    else if leb codepoint 0x7ff
    then (192 + codepoint / 64) ∷ (128 + codepoint % 64) ∷ []
    else (224 + codepoint / 4096) ∷ (128 + codepoint / 64 % 64) ∷ (128 + codepoint % 64) ∷ []

unfoldable pub hex_value : ℕ → Option ℕ
hex_value c =
    if leb b'0' c && leb c b'9'
    then some (c - b'0')
    else if leb b'a' c && leb c b'f'
    then some (c - b'a' + 10)
    else if leb b'A' c && leb c b'F'
    then some (c - b'A' + 10)
    else none

unfoldable pub escape_value : ℕ → Option ℕ
escape_value c =
    if c == b'"' || c == b'\\' || c == b'/'
    then some c
    else if c == b'b'
    then some 8
    else if c == b'f'
    then some 12
    else if c == b'n'
    then some 10
    else if c == b'r'
    then some 13
    else if c == b't'
    then some 9
    else none

-- Where the loop of `parse_string` stands: between characters, after a backslash, or in a Unicode escape
-- with this many digits to come.
pub data Mode : Type 0 where
  plain escaped : Mode
  unicode : ℕ → ℕ → Mode

-- What one byte does there.
pub data StringStep : Type 0 where
  closes bad : StringStep
  goes : Mode → Text → StringStep

unfoldable pub digit_step : ℕ → ℕ → Text → Option ℕ → StringStep
digit_step todo code result none = bad
digit_step zero code result (some d) = bad
digit_step (suc zero) code result (some d) = goes plain (result ++ utf8 (code * 16 + d))
digit_step (suc (suc todo)) code result (some d) = goes (unicode (suc todo) (code * 16 + d)) result

unfoldable pub escape_step : Text → Option ℕ → StringStep
escape_step result none = bad
escape_step result (some c) = goes plain (result ++ c ∷ [])

unfoldable pub string_step : Mode → Text → ℕ → StringStep
string_step plain result c =
    if c == b'"'
    then closes
    else if ltb c 32
    then bad
    else if c == b'\\'
    then goes escaped result
    else goes plain (result ++ c ∷ [])
string_step escaped result c =
    if c == b'u' then goes (unicode 4 0) result else escape_step result (escape_value c)
string_step (unicode todo code) result c = digit_step todo code result (hex_value c)

abbrev pub after_step : StringStep → Text → Text → (Mode → Text → Outcome Text) → Outcome Text
after_step closes cs result next = done result cs
after_step bad cs result next = failed
after_step (goes mode result') cs result next = next mode result'

-- The loop of `parse_string`, after the opening quote.
unfoldable pub string_loop : Text → Mode → Text → Outcome Text
string_loop [] mode result = failed
string_loop (c ∷ cs) mode result = after_step (string_step mode result c) cs result (string_loop cs)

unfoldable pub is_digit : ℕ → Bool
is_digit c = leb b'0' c && leb c b'9'

-- The digits at the front, and what follows them.
unfoldable pub digits : Text → Text × Text
digits [] = ([], [])
digits (c ∷ cs) = let rest = digits cs in if is_digit c then (c ∷ rest.0, rest.1) else ([], c ∷ cs)

-- At least one digit.
unfoldable pub some_digits : Text → Option (Text × Text)
some_digits [] = none
some_digits (c ∷ cs) = if is_digit c then some (digits (c ∷ cs)) else none

unfoldable pub integer_part : Text → Option (Text × Text)
integer_part [] = none
integer_part (c ∷ cs) = if c == b'0' then some (c ∷ [], cs) else some_digits (c ∷ cs)

abbrev pub prepend : Text → Option (Text × Text) → Option (Text × Text)
prepend front none = none
prepend front (some (t, rest)) = some (front ++ t, rest)

unfoldable pub fraction_part : Text → Option (Text × Text)
fraction_part [] = some ([], [])
fraction_part (c ∷ cs) = if c == b'.' then prepend (c ∷ []) (some_digits cs) else some ([], c ∷ cs)

unfoldable pub exponent_digits : Text → Option (Text × Text)
exponent_digits [] = none
exponent_digits (c ∷ cs) =
    if c == b'+' || c == b'-' then prepend (c ∷ []) (some_digits cs) else some_digits (c ∷ cs)

unfoldable pub exponent_part : Text → Option (Text × Text)
exponent_part [] = some ([], [])
exponent_part (c ∷ cs) =
    if c == b'e' || c == b'E' then prepend (c ∷ []) (exponent_digits cs) else some ([], c ∷ cs)

abbrev pub then_part : Option (Text × Text) → (Text → Option (Text × Text)) → Option (Text × Text)
then_part none next = none
then_part (some (t, rest)) next = prepend t (next rest)

unfoldable pub unsigned_text : Text → Option (Text × Text)
unsigned_text cs = then_part (then_part (integer_part cs) fraction_part) exponent_part

-- The text of a number, and what follows it.
unfoldable pub number_text : Text → Option (Text × Text)
number_text [] = none
number_text (c ∷ cs) =
    if c == b'-' then prepend (c ∷ []) (unsigned_text cs) else unsigned_text (c ∷ cs)
