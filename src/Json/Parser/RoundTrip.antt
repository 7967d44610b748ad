-- ===== src/Json/Parser/RoundTrip.antt =====
-- What `dump` has written, `parse` reads back.
use mathlib.Core.List.{append-nil}
use plywise.Errors.{ok}
use plywise.Json.{
  Text, Value, Items, Fields, null, bool, number, string, array, object, no_items, item, no_fields,
  field,
}
use plywise.Json.Lexer.{done, skip_space, is_blank, literal}
use plywise.Json.Parser.{
  max_depth, token_at, token_of, parse_value, parse, finish, parse_number, number_value,
  separator_of,
}
use plywise.Json.Parser.Begins.{
  begins_number-begins_value, skip_space-begins, begins_value-append, separator-begins,
  token_of-begins_number,
}
use plywise.Json.Parser.Numbers.{stops, number_text-IsLocal, number_text-begins}
use plywise.Json.Parser.Strings.{loop-escape_all}
use plywise.Json.Printer.{dump, dump_items, dump_fields, dump_string, escape_all}
use plywise.Prelude.{
  ℕ, zero, suc, ◌+◌, ◌*◌, ◌≡◌, ◌≤◌, ◌<◌, refl, sym, ap, ◌∙◌, arith, true, false, [], ◌∷◌, ◌++◌,
  Option, length,
}
use plywise.Json.Parser.Printable.{
  IsExact, IsPrintable, ItemsArePrintable, FieldsArePrintable, begins-dump, Reads,
}
use plywise.Json.Parser.Entries.{items-after, fields-after}

module _ {D : Type 0} (read : Text → Option D) (show : D → Text) where
  token_at-within : (depth : ℕ) (t : Text) → depth ≤ max_depth → token_at depth t ≡ token_of t
  unfolding token_at
  token_at-within depth t h = ground (arith, h)

  value-number :
      (f depth : ℕ) (d : D) (rest : Text)
      → depth ≤ max_depth
      → IsExact read show d
      → stops rest ≡ true
      → parse_value read (suc f) depth (show d ++ rest) ≡ done (number d) rest
  unfolding parse_value parse_number number_value
  value-number f depth d rest h exact s =
      let begins = number_text-begins (show d) (show d, []) exact.scanned in
      rw
        (
          parse_value,
          skip_space-begins (show d) rest (begins_number-begins_value (show d) begins),
          token_at-within depth (show d ++ rest) h,
          token_of-begins_number (show d) rest begins,
          skip_space-begins (show d) rest (begins_number-begins_value (show d) begins),
          number_text-IsLocal rest s (show d),
          exact.scanned,
          exact.read_back,
        )
        refl

  value-string :
      (f depth : ℕ) (s rest : Text)
      → depth ≤ max_depth
      → parse_value read (suc f) depth (dump_string s ++ rest) ≡ done (string s) rest
  unfolding parse_value dump_string skip_space token_of is_blank
  value-string f depth s rest h =
      rw
        (
          parse_value,
          token_at-within depth (b'"' ∷ ((escape_all s ++ b'"' ∷ []) ++ rest)) h,
          loop-escape_all s rest [],
        )
        refl

  value-array :
      (f depth : ℕ) (xs : Items D) (rest : Text)
      → Reads read show f
      → IsPrintable (IsExact read show) depth (array xs)
      → 2 * length (dump show (array xs)) < suc f
      → parse_value read (suc f) depth (dump show (array xs) ++ rest) ≡ done (array xs) rest
  unfolding parse_value dump dump_items skip_space token_of is_blank separator_of IsPrintable
      ItemsArePrintable
  value-array f depth no_items rest reads h enough =
      rw (parse_value, token_at-within depth (b'[' ∷ b']' ∷ rest) h.0) refl
  value-array f depth (item v xs) rest reads h enough =
      let front = dump show v ++ dump_items show xs false in
      let begins =
        begins_value-append (dump show v) (dump_items show xs false)
          (begins-dump read show (depth + 1) v h.1.0) in
      rw
        (
          parse_value,
          token_at-within depth (b'[' ∷ (front ++ rest)) h.0,
          separator-begins b']' front rest begins refl,
          reads.on_items depth v xs rest h.1 (omega (arith, enough)),
        )
        refl

  value-object :
      (f depth : ℕ) (fields : Fields D) (rest : Text)
      → Reads read show f
      → IsPrintable (IsExact read show) depth (object fields)
      → 2 * length (dump show (object fields)) < suc f
      → parse_value read (suc f) depth (dump show (object fields) ++ rest)
        ≡ done (object fields) rest
  unfolding parse_value dump dump_fields dump_string skip_space token_of is_blank separator_of
      IsPrintable FieldsArePrintable
  value-object f depth no_fields rest reads h enough =
      rw (parse_value, token_at-within depth (b'{' ∷ b'}' ∷ rest) h.0) refl
  value-object f depth (field k v more) rest reads h enough =
      rw
        (
          parse_value,
          token_at-within depth (b'{' ∷ (dump_fields show (field k v more) true ++ rest)) h.0,
          reads.on_fields depth k v more no_fields rest h.2 h.1 (omega (arith, enough)),
        )
        refl

  value-Reads :
      (f : ℕ)
      → Reads read show f
      → (depth : ℕ) (v : Value D) (rest : Text) → IsPrintable (IsExact read show) depth v
      → stops rest ≡ true
      → 2 * length (dump show v) < suc f
      → parse_value read (suc f) depth (dump show v ++ rest) ≡ done v rest
  unfolding parse_value dump IsPrintable literal token_of skip_space is_blank
  value-Reads f reads depth null rest h s enough =
      rw (parse_value, token_at-within depth (dump show null ++ rest) h) refl
  value-Reads f reads depth (bool true) rest h s enough =
      rw (parse_value, token_at-within depth (dump show (bool true) ++ rest) h) refl
  value-Reads f reads depth (bool false) rest h s enough =
      rw (parse_value, token_at-within depth (dump show (bool false) ++ rest) h) refl
  value-Reads f reads depth (number d) rest h s enough = value-number f depth d rest h.0 h.1 s
  value-Reads f reads depth (string t) rest h s enough = value-string f depth t rest h
  value-Reads f reads depth (array xs) rest h s enough = value-array f depth xs rest reads h enough
  value-Reads f reads depth (object fs) rest h s enough =
      value-object f depth fs rest reads h enough

  all-Reads : (f : ℕ) → Reads read show f
  all-Reads zero = record {
    on_value = λ depth v rest h s enough. absurd (omega (arith, enough));
    on_items = λ depth v xs rest h enough. absurd (omega (arith, enough));
    on_fields = λ depth k v fields entries rest h ordered enough. absurd (omega (arith, enough));
  }
  all-Reads (suc f) = record {
    on_value = value-Reads f (all-Reads f);
    on_items = λ depth v xs rest. items-after read show f depth v xs rest (all-Reads f);
    on_fields = λ depth k v fields entries rest.
        fields-after read show f depth k v fields entries rest (all-Reads f);
  }

  -- `parse` gives back every value that `dump` wrote: nested within the limit, the numbers with exact texts,
  -- each object in the order of its keys.
  pub parse-dump :
      (v : Value D) → IsPrintable (IsExact read show) 0 v → parse read (dump show v) ≡ ok v
  unfolding parse finish skip_space stops
  parse-dump v h = ap finish (
      ap (parse_value read (2 * length (dump show v) + 1) 0) (sym (append-nil (dump show v)))
      ∙ (all-Reads (2 * length (dump show v) + 1)).on_value 0 v [] h refl (omega arith))
