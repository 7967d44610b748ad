-- ===== src/Examples/Json.antt =====
-- JSON: the theorems at concrete documents. A number is one of two, with its text.
use plywise.Json.{
  Text, Value, null, number, string, array, object, no_items, item, no_fields, field, text_lt,
  text_eq,
}
use plywise.Json.Lexer.{
  is_digit, digits, some_digits, integer_part, fraction_part, exponent_digits, exponent_part,
  unsigned_text, number_text,
}
use plywise.Json.Parser.{parse}
use plywise.Json.Parser.Printable.{IsPrintable, ItemsArePrintable, FieldsArePrintable, IsExact}
use plywise.Json.Parser.RoundTrip.{parse-dump}
use plywise.Json.Parser.Total.{Parsed, parse-IsPrintable}
use plywise.Json.Printer.{dump}
use plywise.Errors.{ok}
use plywise.Prelude.{
  ◌≡◌, refl, Bool, true, false, [], ◌∷◌, Option, none, some, if◌then◌else◌, arith,
}

-- Zero, and -1.5e+3.
abbrev show : Bool → Text
show false = b'0' ∷ []
show true = b'-' ∷ b'1' ∷ b'.' ∷ b'5' ∷ b'e' ∷ b'+' ∷ b'3' ∷ []

unfoldable read : Text → Option Bool
read t =
    if text_eq t (show false) then some false else if text_eq t (show true) then some true else none

show-IsExact : (d : Bool) → IsExact read show d
unfolding read text_eq is_digit digits some_digits integer_part fraction_part exponent_digits
    exponent_part unsigned_text number_text
show-IsExact false = record { scanned = refl; read_back = refl }
show-IsExact true = record { scanned = refl; read_back = refl }

-- {"a":[null,-1.5e+3,"\n\u0001"],"b":{}}
abbrev document : Value Bool
document = object (
    field (b'a' ∷ [])
      (array (item null (item (number true) (item (string (10 ∷ 1 ∷ [])) no_items))))
      (field (b'b' ∷ []) (object no_fields) no_fields))

document-IsPrintable : IsPrintable (IsExact read show) 0 document
unfolding IsPrintable ItemsArePrintable FieldsArePrintable text_lt
document-IsPrintable = (
  omega arith,
  (((refl, tt), (tt, tt))),
  (
    (omega arith, (omega arith, ((omega arith, show-IsExact true), (omega arith, tt)))),
    ((omega arith, tt, tt), tt),
  ),
)

parse-dump_example : parse read (dump show document) ≡ ok document
parse-dump_example = parse-dump read show document document-IsPrintable

abbrev IsRead : Bool → Type 0
IsRead d = (t : Text) × (read t ≡ some d)

-- At a document with an object that is out of order.
parse-IsPrintable_example : Parsed (IsPrintable IsRead 0) (
    parse read (
      b'{' ∷ b'"' ∷ b'b' ∷ b'"' ∷ b':' ∷ b'0' ∷ b',' ∷ b'"' ∷ b'a' ∷ b'"' ∷ b':' ∷ b'0' ∷ b'}'
      ∷ []))
parse-IsPrintable_example =
    parse-IsPrintable read IsRead (λ t d e. (t, e))
      (b'{' ∷ b'"' ∷ b'b' ∷ b'"' ∷ b':' ∷ b'0' ∷ b',' ∷ b'"' ∷ b'a' ∷ b'"' ∷ b':' ∷ b'0' ∷ b'}'
        ∷ [])
