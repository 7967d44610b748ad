-- ===== src/Json/Parser/Printable.antt =====
-- Which values `dump` writes so that they can be read back, and what reading one back means.
use plywise.Json.{
  Text, Value, Items, Fields, null, bool, number, string, array, object, no_items, item, no_fields,
  field,
}
use plywise.Json.Lexer.{done, number_text}
use plywise.Json.Parser.{max_depth, parse_value, parse_items, parse_fields}
use plywise.Json.Parser.Begins.{begins_value, begins_number-begins_value}
use plywise.Json.Parser.Numbers.{stops, number_text-begins}
use plywise.Json.Parser.Order.{IsOrdered, join}
use plywise.Json.Printer.{dump, dump_items, dump_fields, dump_string}
use plywise.Prelude.{ℕ, ◌+◌, ◌*◌, ◌≡◌, ◌≤◌, ◌<◌, refl, true, false, [], ◌++◌, Option, some, length}

module _ {D : Type 0} (N : D → Type 0) where
  -- The value stands at this depth or deeper within the limit, its numbers are as `N` says, and its
  -- objects are in the order of their keys.
  unfoldable mutual
    pub IsPrintable : ℕ → Value D → Type 0
    IsPrintable depth null = depth ≤ max_depth
    IsPrintable depth (bool b) = depth ≤ max_depth
    IsPrintable depth (number d) = (depth ≤ max_depth) × N d
    IsPrintable depth (string s) = depth ≤ max_depth
    IsPrintable depth (array xs) = (depth ≤ max_depth) × ItemsArePrintable (depth + 1) xs
    IsPrintable depth (object fields) =
        (depth ≤ max_depth) × IsOrdered fields × FieldsArePrintable (depth + 1) fields

    pub ItemsArePrintable : ℕ → Items D → Type 0
    ItemsArePrintable depth no_items = Unit
    ItemsArePrintable depth (item v xs) = IsPrintable depth v × ItemsArePrintable depth xs

    pub FieldsArePrintable : ℕ → Fields D → Type 0
    FieldsArePrintable depth no_fields = Unit
    FieldsArePrintable depth (field k v fields) =
        IsPrintable depth v × FieldsArePrintable depth fields

module _ {D : Type 0} (read : Text → Option D) (show : D → Text) where
  -- The number's text is a JSON number, from which the number is read.
  pub record IsExact (d : D) : Type 0 where
    pub scanned : number_text (show d) ≡ some (show d, [])
    pub read_back : read (show d) ≡ some d

module _ {D : Type 0} (read : Text → Option D) (show : D → Text) where
  pub begins-dump :
      (depth : ℕ) (v : Value D)
      → IsPrintable (IsExact read show) depth v
      → begins_value (dump show v) ≡ true
  unfolding IsPrintable dump begins_value dump_string
  begins-dump depth null h = refl
  begins-dump depth (bool true) h = refl
  begins-dump depth (bool false) h = refl
  begins-dump depth (number d) h =
      begins_number-begins_value (show d) (number_text-begins (show d) (show d, []) (h.1.scanned))
  begins-dump depth (string s) h = refl
  begins-dump depth (array xs) h = refl
  begins-dump depth (object entries) h = refl

  -- What the parser does at the text of a value, at this fuel.
  pub record Reads (f : ℕ) : Type 0 where
    pub on_value :
        (depth : ℕ) (v : Value D) (rest : Text)
        → IsPrintable (IsExact read show) depth v
        → stops rest ≡ true
        → 2 * length (dump show v) < f
        → parse_value read f depth (dump show v ++ rest) ≡ done v rest
    pub on_items :
        (depth : ℕ) (v : Value D) (xs : Items D) (rest : Text)
        → ItemsArePrintable (IsExact read show) (depth + 1) (item v xs)
        → 2 * length (dump_items show (item v xs) true) < f
        → parse_items read f depth (dump_items show (item v xs) true ++ rest)
          ≡ done (item v xs) rest
    pub on_fields :
        (depth : ℕ) (k : Text) (v : Value D) (fields entries : Fields D) (rest : Text)
        → FieldsArePrintable (IsExact read show) (depth + 1) (field k v fields)
        → IsOrdered (join entries (field k v fields))
        → 2 * length (dump_fields show (field k v fields) true) < f
        → parse_fields read f depth entries (dump_fields show (field k v fields) true ++ rest)
          ≡ done (join entries (field k v fields)) rest
