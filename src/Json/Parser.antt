-- ===== src/Json/Parser.antt =====
-- The recursive part of the parser.
pub mod Strings
pub mod Numbers
pub mod Order
pub mod Begins
pub mod Printable
pub mod Entries
pub mod RoundTrip
pub mod Leaves
pub mod Checked
pub mod Total
use plywise.Errors.{Result, ok, err, parse_error, corruption}
use plywise.Json.{
  Text, Value, Items, Fields, null, bool, number, string, array, object, no_items, item, no_fields,
  field, text_lt, text_eq,
}
use plywise.Json.Lexer.{
  Outcome, done, failed, out_of_fuel, ◌>>=◌, skip_space, literal, string_loop, plain, is_digit,
  number_text,
}
use plywise.Prelude.{
  ℕ, zero, suc, ◌+◌, ◌*◌, Bool, true, false, ◌||◌, List, [], ◌∷◌, length, Option, none, some, ltb,
  ◌==◌, if◌then◌else◌,
}

abbrev pub max_depth : ℕ
max_depth = 64

-- What `parse_value` sees at the front, white space skipped.
pub data Token : Type 0 where
  starts_null starts_true starts_false starts_number nothing_known : Token
  starts_string starts_array starts_object : Text → Token

-- The `switch` on the first byte.
unfoldable pub token_of : Text → Token
token_of [] = nothing_known
token_of (c ∷ cs) =
    if c == b'n'
    then starts_null
    else if c == b't'
    then starts_true
    else if c == b'f'
    then starts_false
    else if c == b'"'
    then starts_string cs
    else if c == b'['
    then starts_array cs
    else if c == b'{'
    then starts_object cs
    else if c == b'-' || is_digit c
    then starts_number
    else nothing_known

-- The depth is tested before the `switch`.
unfoldable pub token_at : ℕ → Text → Token
token_at depth t = if ltb max_depth depth then nothing_known else token_of t

-- `consume(close)`, else `consume(',')`.
pub data Separator : Type 0 where
  closed comma : Text → Separator
  no_separator : Separator

unfoldable pub separator_of : ℕ → Text → Separator
separator_of close [] = no_separator
separator_of close (c ∷ cs) =
    if c == close then closed cs else if c == b',' then comma cs else no_separator

abbrev pub separator : ℕ → Text → Separator
separator close ts = separator_of close (skip_space ts)

-- `consume(c)`, where the parser fails otherwise.
unfoldable pub expect_at : ℕ → Text → Outcome (Unit {0})
expect_at expected [] = failed
expect_at expected (c ∷ cs) = if c == expected then done tt cs else failed

abbrev pub expect : ℕ → Text → Outcome (Unit {0})
expect expected ts = expect_at expected (skip_space ts)

abbrev pub keep_field : {D : Type 0} → Text → Value D → Option (Fields D) → Option (Fields D)
keep_field j w none = none
keep_field j w (some fields) = some (field j w fields)

-- `emplace` into the map: in the order of the keys, and nothing where the key is there.
unfoldable pub emplace : {D : Type 0} → Text → Value D → Fields D → Option (Fields D)
emplace k v no_fields = some (field k v no_fields)
emplace k v (field j w fields) =
    let later = keep_field j w (emplace k v fields) in
    if text_eq k j then none else if text_lt k j then some (field k v (field j w fields)) else later

unfoldable pub emplaced : {D : Type 0} → Option (Fields D) → Text → Outcome (Fields D)
emplaced none rest = failed
emplaced (some fields) rest = done fields rest

unfoldable pub number_value : {D : Type 0} → Option D → Text → Outcome (Value D)
number_value none rest = failed
number_value (some d) rest = done (number d) rest

-- `parse_number`; `read` is what the stream makes of the text, if it is a finite number.
unfoldable pub parse_number :
    {D : Type 0} → (Text → Option D) → Option (Text × Text) → Outcome (Value D)
parse_number read none = failed
parse_number read (some (t, rest)) = number_value (read t) rest

abbrev pub parse_string : Text → Outcome Text
parse_string cs = string_loop cs plain []

abbrev pub null_word : Text
null_word = b'n' ∷ b'u' ∷ b'l' ∷ b'l' ∷ []

abbrev pub true_word : Text
true_word = b't' ∷ b'r' ∷ b'u' ∷ b'e' ∷ []

abbrev pub false_word : Text
false_word = b'f' ∷ b'a' ∷ b'l' ∷ b's' ∷ b'e' ∷ []

-- The loops of `parse_array` and `parse_object` from an item or field on; a map so far is passed along.
unfoldable mutual
  pub parse_value : {D : Type 0} → (Text → Option D) → ℕ → ℕ → Text → Outcome (Value D)
  parse_value read zero depth ts = out_of_fuel
  parse_value read (suc f) depth ts = elim (token_at depth (skip_space ts)) [
    | nothing_known ↦ failed
    | starts_null ↦ literal null null_word (skip_space ts)
    | starts_true ↦ literal (bool true) true_word (skip_space ts)
    | starts_false ↦ literal (bool false) false_word (skip_space ts)
    | starts_number ↦ parse_number read (number_text (skip_space ts))
    | starts_string cs ↦ parse_string cs >>= λ (s, rest). done (string s) rest
    | starts_array cs ↦ elim (separator b']' cs) [
      | closed rest ↦ done (array no_items) rest
      | other ↦ parse_items read f depth cs >>= λ (xs, rest). done (array xs) rest
    ]
    | starts_object cs ↦ elim (separator b'}' cs) [
      | closed rest ↦ done (object no_fields) rest
      | other ↦
          parse_fields read f depth no_fields cs >>= λ (fields, rest). done (object fields) rest
    ]
  ]

  pub parse_items : {D : Type 0} → (Text → Option D) → ℕ → ℕ → Text → Outcome (Items D)
  parse_items read zero depth ts = out_of_fuel
  parse_items read (suc f) depth ts = parse_value read f (depth + 1) ts >>= λ (v, after).
      elim (separator b']' after) [
        | closed rest ↦ done (item v no_items) rest
        | comma more ↦ parse_items read f depth more >>= λ (xs, rest). done (item v xs) rest
        | no_separator ↦ failed
      ]

  pub parse_fields : {D : Type 0} → (Text → Option D) → ℕ → ℕ → Fields D → Text → Outcome (Fields D)
  parse_fields read zero depth entries ts = out_of_fuel
  parse_fields read (suc f) depth entries ts = expect b'"' ts >>= λ (u, quoted).
      parse_string quoted >>= λ (k, after_key). expect b':' after_key >>= λ (w, valued).
      parse_value read f (depth + 1) valued >>= λ (v, after_value).
      emplaced (emplace k v entries) after_value >>= λ (more, after). elim (separator b'}' after) [
        | closed rest ↦ done more rest
        | comma next ↦ parse_fields read f depth more next
        | no_separator ↦ failed
      ]

-- Only white space may follow the value.
unfoldable pub finish : {D : Type 0} → Outcome (Value D) → Result (Value D)
finish (done v rest) = elim (skip_space rest) [ [] ↦ ok v | c ∷ cs ↦ err parse_error ]
finish failed = err parse_error
finish out_of_fuel = err corruption

unfoldable pub parse : {D : Type 0} → (Text → Option D) → Text → Result (Value D)
parse read input = finish (parse_value read (2 * length input + 1) 0 input)
