-- ===== src/Json/Printer.antt =====
-- `dump`. `show` is how the stream prints a double.
use plywise.Json.{
  Text, Value, Items, Fields, null, bool, number, string, array, object, no_items, item, no_fields,
  field,
}
use plywise.Json.Parser.{null_word, true_word, false_word}
use plywise.Prelude.{
  ℕ, ◌+◌, ◌-◌, ◌/◌, ◌%◌, Bool, true, false, [], ◌∷◌, ◌++◌, ltb, ◌==◌, if◌then◌else◌,
}

unfoldable pub hex_digit : ℕ → ℕ
hex_digit d = if ltb d 10 then b'0' + d else b'a' + (d - 10)

-- What `dump_string` writes for a byte.
unfoldable pub escape : ℕ → Text
escape c =
    if c == b'"'
    then b'\\' ∷ b'"' ∷ []
    else if c == b'\\'
    then b'\\' ∷ b'\\' ∷ []
    else if c == 8
    then b'\\' ∷ b'b' ∷ []
    else if c == 12
    then b'\\' ∷ b'f' ∷ []
    else if c == 10
    then b'\\' ∷ b'n' ∷ []
    else if c == 13
    then b'\\' ∷ b'r' ∷ []
    else if c == 9
    then b'\\' ∷ b't' ∷ []
    else if ltb c 32
    then b'\\' ∷ b'u' ∷ b'0' ∷ b'0' ∷ hex_digit (c / 16) ∷ hex_digit (c % 16) ∷ []
    else c ∷ []

unfoldable pub escape_all : Text → Text
escape_all [] = []
escape_all (c ∷ cs) = escape c ++ escape_all cs

unfoldable pub dump_string : Text → Text
dump_string s = b'"' ∷ (escape_all s ++ b'"' ∷ [])

-- The separator before an item that is not the first.
abbrev pub comma_unless : Bool → Text
comma_unless first = if first then [] else b',' ∷ []

unfoldable mutual
  pub dump : {D : Type 0} → (D → Text) → Value D → Text
  dump show null = null_word
  dump show (bool true) = true_word
  dump show (bool false) = false_word
  dump show (number d) = show d
  dump show (string s) = dump_string s
  dump show (array xs) = b'[' ∷ dump_items show xs true
  dump show (object fields) = b'{' ∷ dump_fields show fields true

  -- Up to the closing bracket.
  pub dump_items : {D : Type 0} → (D → Text) → Items D → Bool → Text
  dump_items show no_items first = b']' ∷ []
  dump_items show (item v xs) first =
      comma_unless first ++ (dump show v ++ dump_items show xs false)

  pub dump_fields : {D : Type 0} → (D → Text) → Fields D → Bool → Text
  dump_fields show no_fields first = b'}' ∷ []
  dump_fields show (field k v fields) first =
      comma_unless first ++ (dump_string k ++ b':' ∷ (dump show v ++ dump_fields show fields false))
