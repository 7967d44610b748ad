-- ===== src/Json/Parser/Total.antt =====
-- The parser stops at every text, and what it gives is within the limit and in order.
use plywise.Errors.{Result, ok, err, parse_error}
use plywise.Json.{Text, Value, Fields, no_items, item}
use plywise.Json.Lexer.{Outcome, done, failed, out_of_fuel, ◌>>=◌, skip_space, plain}
use plywise.Json.Parser.{
  token_at, parse_value, parse_items, parse_fields, parse, finish, Separator, closed, comma,
  no_separator, separator, expect, emplace, emplaced, parse_string,
}
use plywise.Json.Parser.Leaves.{
  Leaves, Leaves-weaken, Leaves->>=, string_loop-Leaves, SeparatorShrinks, separator-Shrinks,
  expect-Leaves,
}
use plywise.Json.Parser.Order.{IsOrdered, both, emplace-IsOrdered}
use plywise.Json.Parser.Printable.{IsPrintable, ItemsArePrintable, FieldsArePrintable}
use plywise.Prelude.{ℕ, zero, suc, ◌+◌, ◌*◌, ◌≡◌, ◌<◌, refl, arith, [], ◌∷◌, Option, some, length}
use plywise.Json.Parser.Checked.{
  IsMap, Stops, emplaced-Leaves, emplace-FieldsArePrintable, value-token, token_at-Seen,
}

-- A result of `parse`: a parse error, or a value of which `P` holds.
abbrev pub Parsed : {D : Type 0} → (Value D → Type 0) → Result (Value D) → Type 0
Parsed P (ok v) = P v
Parsed P (err e) = e ≡ parse_error

module _ {D : Type 0} (read : Text → Option D) (N : D → Type 0)
    (readable : (t : Text) (d : D) → read t ≡ some d → N d) where
  items-separator :
      (f depth n : ℕ) (v : Value D) (sep : Separator)
      → Stops read N readable f
      → IsPrintable N (depth + 1) v
      → 2 * n < f
      → SeparatorShrinks n sep
      → Leaves n (ItemsArePrintable N (depth + 1)) (elim sep [
        | closed rest ↦ done (item v no_items) rest
        | comma more ↦ parse_items read f depth more >>= λ (xs, rest). done (item v xs) rest
        | no_separator ↦ failed
      ])
  unfolding ItemsArePrintable
  items-separator f depth n v (closed rest) stops p enough lt = ((p, tt), lt)
  items-separator f depth n v (comma more) stops p enough lt =
      Leaves->>= (length more) n (ItemsArePrintable N (depth + 1)) (ItemsArePrintable N (depth + 1))
        (parse_items read f depth more) (λ (xs, rest). done (item v xs) rest)
        (stops.on_items depth more (omega (arith, enough, lt)))
        (λ xs rest ps le. ((p, ps), omega (arith, lt, le)))
  items-separator f depth n v no_separator stops p enough lt = tt

  items-after :
      (f depth : ℕ) (ts : Text)
      → Stops read N readable f
      → 2 * length ts + 1 < suc f
      → Leaves (length ts) (ItemsArePrintable N (depth + 1)) (parse_items read (suc f) depth ts)
  unfolding parse_items
  items-after f depth ts stops enough =
      Leaves->>= (length ts) (length ts) (IsPrintable N (depth + 1))
        (ItemsArePrintable N (depth + 1)) (parse_value read f (depth + 1) ts) _
        (stops.on_value (depth + 1) ts (omega (arith, enough)))
        (λ v after p lt.
          Leaves-weaken (length after) (length ts) (ItemsArePrintable N (depth + 1)) _
            (omega (arith, lt))
            (items-separator f depth (length after) v (separator b']' after) stops p
              (omega (arith, enough, lt)) (separator-Shrinks b']' after)))

  fields-separator :
      (f depth n : ℕ) (more : Fields D) (sep : Separator)
      → Stops read N readable f
      → IsMap read N readable (depth + 1) more
      → 2 * n < f
      → SeparatorShrinks n sep
      → Leaves n (IsMap read N readable (depth + 1)) (elim sep [
        | closed rest ↦ done more rest
        | comma next ↦ parse_fields read f depth more next
        | no_separator ↦ failed
      ])
  fields-separator f depth n more (closed rest) stops p enough lt = (p, lt)
  fields-separator f depth n more (comma next) stops p enough lt =
      Leaves-weaken (length next) n (IsMap read N readable (depth + 1))
        (parse_fields read f depth more next) (omega (arith, lt))
        (stops.on_fields depth more next p (omega (arith, enough, lt)))
  fields-separator f depth n more no_separator stops p enough lt = tt

  fields-after :
      (f depth : ℕ) (entries : Fields D) (ts : Text)
      → Stops read N readable f
      → IsMap read N readable (depth + 1) entries
      → 2 * length ts + 1 < suc f
      → Leaves
          (length ts)
          (IsMap read N readable (depth + 1))
          (parse_fields read (suc f) depth entries ts)
  unfolding parse_fields
  fields-after f depth entries ts stops m enough =
      Leaves->>= (length ts) (length ts) (λ u. Unit) Q (expect b'"' ts) _ (expect-Leaves b'"' ts)
        λ u quoted p0 lt0.
          Leaves->>= (length quoted) (length ts) (λ u. Unit) Q (parse_string quoted) _
            (string_loop-Leaves quoted plain [])
            λ k after_key p1 lt1.
              Leaves->>= (length after_key) (length ts) (λ u. Unit) Q (expect b':' after_key) _
                (expect-Leaves b':' after_key)
                λ w valued p2 lt2.
                  Leaves->>= (length valued) (length ts) (IsPrintable N (depth + 1)) Q
                    (parse_value read f (depth + 1) valued) _
                    (stops.on_value (depth + 1) valued (omega (arith, enough, lt0, lt1, lt2)))
                    λ v after_value p lt3.
                      Leaves->>= (length valued) (length ts) (IsMap read N readable (depth + 1)) Q
                        (emplaced (emplace k v entries) after_value) _
                        (emplaced-Leaves read N readable (depth + 1) (length valued)
                          (emplace k v entries) after_value lt3
                          (both IsOrdered (FieldsArePrintable N (depth + 1)) (emplace k v entries)
                            (emplace-IsOrdered k v entries m.0)
                            (emplace-FieldsArePrintable read N readable (depth + 1) k v entries p
                              m.1)))
                        λ more after p' lt4.
                          Leaves-weaken (length after) (length ts) Q _
                            (omega (arith, lt0, lt1, lt2, lt4))
                            (fields-separator f depth (length after) more (separator b'}' after)
                              stops p' (omega (arith, enough, lt0, lt1, lt2, lt4))
                              (separator-Shrinks b'}' after))
    where
      Q : Fields D → Type 0
      Q = IsMap read N readable (depth + 1)

  all-Stops : (f : ℕ) → Stops read N readable f
  all-Stops zero = record {
    on_value = λ depth ts enough. absurd (omega (arith, enough));
    on_items = λ depth ts enough. absurd (omega (arith, enough));
    on_fields = λ depth entries ts m enough. absurd (omega (arith, enough));
  }
  all-Stops (suc f) = record {
    on_value = λ depth ts enough.
        value-token read N readable f depth ts (token_at depth (skip_space ts)) (all-Stops f) enough
          refl (token_at-Seen read N readable depth (skip_space ts));
    on_items = λ depth ts. items-after f depth ts (all-Stops f);
    on_fields = λ depth entries ts. fields-after f depth entries ts (all-Stops f);
  }

  finish-Parsed :
      (n : ℕ) (P : Value D → Type 0) (o : Outcome (Value D)) → Leaves n P o → Parsed P (finish o)
  unfolding finish
  finish-Parsed n P (done v rest) h = at_end (skip_space rest)
    where
      at_end : (left : Text) → Parsed P (elim left [ [] ↦ ok v | c ∷ cs ↦ err parse_error ])
      at_end [] = h.0
      at_end (c ∷ cs) = refl
  finish-Parsed n P failed h = refl
  finish-Parsed n P out_of_fuel h = absurd h

  -- `parse` ends at every input, with a parse error or with a value nested within the limit, whose objects
  -- are in the order of their keys with no key twice, and whose numbers are read from a text.
  pub parse-IsPrintable : (input : Text) → Parsed (IsPrintable N 0) (parse read input)
  unfolding parse
  parse-IsPrintable input =
      finish-Parsed (length input) (IsPrintable N 0)
        (parse_value read (2 * length input + 1) 0 input)
        ((all-Stops (2 * length input + 1)).on_value 0 input (omega arith))
