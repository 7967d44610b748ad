-- ===== src/Json/Parser/Entries.antt =====
-- The items of an array and the fields of an object, read back with more fuel.
use mathlib.Core.List.{append_assoc}
use plywise.Json.{Text, Value, Items, Fields, no_items, item, no_fields, field}
use plywise.Json.Lexer.{done, skip_space, is_blank, is_digit}
use plywise.Json.Parser.{parse_items, parse_fields, separator_of, expect_at, emplaced}
use plywise.Json.Parser.Numbers.{stops}
use plywise.Json.Parser.Order.{IsOrdered, join, join_assoc, emplace-last}
use plywise.Json.Parser.Strings.{loop-escape_all}
use plywise.Json.Printer.{dump, dump_items, dump_fields, dump_string, escape_all}
use plywise.Prelude.{
  ℕ, suc, ◌+◌, ◌*◌, ◌≡◌, ◌<◌, refl, sym, ap, subst, ◌∙◌, arith, true, false, [], ◌∷◌, ◌++◌, Option,
  length, length-append,
}
use plywise.Json.Parser.Printable.{IsExact, ItemsArePrintable, FieldsArePrintable, Reads}

module _ {D : Type 0} (read : Text → Option D) (show : D → Text) where
  stops-items : (xs : Items D) (rest : Text) → stops (dump_items show xs false ++ rest) ≡ true
  unfolding stops dump_items is_digit
  stops-items no_items rest = refl
  stops-items (item v xs) rest = refl

  stops-fields :
      (fields : Fields D) (rest : Text) → stops (dump_fields show fields false ++ rest) ≡ true
  unfolding stops dump_fields is_digit
  stops-fields no_fields rest = refl
  stops-fields (field k v more) rest = refl

  pub items-after :
      (f depth : ℕ) (v : Value D) (xs : Items D) (rest : Text)
      → Reads read show f
      → ItemsArePrintable (IsExact read show) (depth + 1) (item v xs)
      → 2 * length (dump_items show (item v xs) true) < suc f
      → parse_items read (suc f) depth (dump_items show (item v xs) true ++ rest)
        ≡ done (item v xs) rest
  unfolding parse_items dump_items skip_space is_blank separator_of ItemsArePrintable stops is_digit
  items-after f depth v no_items rest reads h enough =
      rw
        (
          parse_items,
          append_assoc (dump show v) (b']' ∷ []) rest,
          reads.on_value (depth + 1) v (b']' ∷ rest) h.0 refl
              (omega (arith, enough, length-append (dump show v) (b']' ∷ []))),
        )
        refl
  items-after f depth v (item w ys) rest reads h enough =
      rw
        (
          parse_items,
          append_assoc (dump show v) (dump_items show (item w ys) false) rest,
          reads.on_value (depth + 1) v (dump_items show (item w ys) false ++ rest) h.0 refl (
              omega
                (arith, enough, length-append (dump show v) (dump_items show (item w ys) false))),
          reads.on_items depth w ys rest h.1 (
              omega
                (arith, enough, length-append (dump show v) (dump_items show (item w ys) false))),
        )
        refl

  length-field :
      (k : Text) (v : Value D) (fields : Fields D)
      → length (dump_fields show (field k v fields) true)
        ≡ length (dump_string k)
          + (1 + (length (dump show v) + length (dump_fields show fields false)))
  unfolding dump_fields
  length-field k v fields = omega (
    arith,
    length-append (dump_string k) (b':' ∷ (dump show v ++ dump_fields show fields false)),
    length-append (dump show v) (dump_fields show fields false),
  )

  field-append :
      (k : Text) (v : Value D) (fields : Fields D) (rest : Text)
      → dump_fields show (field k v fields) true ++ rest
        ≡ b'"'
          ∷ ((escape_all k ++ b'"' ∷ [])
              ++ (b':' ∷ (dump show v ++ (dump_fields show fields false ++ rest))))
  unfolding dump_fields dump_string
  field-append k v fields rest =
      ap (λ t. b'"' ∷ t)
        (append_assoc (escape_all k ++ b'"' ∷ [])
            (b':' ∷ (dump show v ++ dump_fields show fields false)) rest
          ∙ ap (λ t. (escape_all k ++ b'"' ∷ []) ++ b':' ∷ t)
              (append_assoc (dump show v) (dump_fields show fields false) rest))

  pub fields-after :
      (f depth : ℕ) (k : Text) (v : Value D) (fields entries : Fields D) (rest : Text)
      → Reads read show f
      → FieldsArePrintable (IsExact read show) (depth + 1) (field k v fields)
      → IsOrdered (join entries (field k v fields))
      → 2 * length (dump_fields show (field k v fields) true) < suc f
      → parse_fields read (suc f) depth entries (dump_fields show (field k v fields) true ++ rest)
        ≡ done (join entries (field k v fields)) rest
  unfolding parse_fields skip_space is_blank expect_at emplaced FieldsArePrintable dump_fields
      separator_of stops is_digit
  fields-after f depth k v no_fields entries rest reads h ordered enough =
      rw
        (
          field-append k v no_fields rest,
          parse_fields,
          loop-escape_all k (b':' ∷ (dump show v ++ b'}' ∷ rest)) [],
          reads.on_value (depth + 1) v (b'}' ∷ rest) h.0 refl
              (omega (arith, enough, length-field k v no_fields)),
          emplace-last k v entries no_fields ordered,
        )
        refl
  fields-after f depth k v (field j w more) entries rest reads h ordered enough =
      rw
        (
          field-append k v (field j w more) rest,
          parse_fields,
          loop-escape_all k
              (b':' ∷ (dump show v ++ (dump_fields show (field j w more) false ++ rest))) [],
          reads.on_value (depth + 1) v (dump_fields show (field j w more) false ++ rest) h.0 refl
              (omega (arith, enough, length-field k v (field j w more))),
          emplace-last k v entries (field j w more) ordered,
          reads.on_fields depth j w more (join entries (field k v no_fields)) rest h.1
              (subst IsOrdered (sym (join_assoc entries (field k v no_fields) (field j w more)))
                ordered)
              (omega (arith, enough, length-field k v (field j w more))),
        )
        (ap (λ t. done t rest) (join_assoc entries (field k v no_fields) (field j w more)))
