-- ===== src/Json/Parser/Checked.antt =====
-- What `parse_value` leaves and gives, where the parts that it calls, with less fuel, stop.
use plywise.Json.{
  Text, Value, Fields, null, bool, string, array, object, no_items, no_fields, field, text_eq,
  text_lt,
}
use plywise.Json.Lexer.{Outcome, done, ◌>>=◌, is_digit, skip_space, literal, number_text, plain}
use plywise.Json.Parser.{
  max_depth, null_word, true_word, false_word, Token, starts_null, starts_true, starts_false,
  starts_number, nothing_known, starts_string, starts_array, starts_object, token_at, token_of,
  parse_value, parse_items, parse_fields, parse_number, number_value, Separator, closed, comma,
  no_separator, separator, emplace, emplaced, parse_string,
}
use plywise.Json.Parser.Leaves.{
  Leaves, Leaves-weaken, Leaves->>=, length-skip_space, literal-Leaves, string_loop-Leaves, Shrinks,
  number_text-Shrinks, SeparatorShrinks, separator-Shrinks,
}
use plywise.Json.Parser.Order.{IsOrdered, OptionAll, keep_field-OptionAll}
use plywise.Json.Parser.Printable.{IsPrintable, ItemsArePrintable, FieldsArePrintable}
use plywise.Prelude.{
  ℕ, suc, ◌+◌, ◌*◌, ◌≡◌, ◌≤◌, ◌<◌, refl, arith, true, false, [], ◌∷◌, Option, none, some, length,
  if-cases, ltb, ◌==◌, ◌||◌,
}

module _ {D : Type 0} (read : Text → Option D) (N : D → Type 0)
    (readable : (t : Text) (d : D) → read t ≡ some d → N d) where
  pub emplace-FieldsArePrintable :
      (depth : ℕ) (k : Text) (v : Value D) (fields : Fields D)
      → IsPrintable N depth v
      → FieldsArePrintable N depth fields
      → OptionAll (FieldsArePrintable N depth) (emplace k v fields)
  unfolding emplace FieldsArePrintable
  emplace-FieldsArePrintable depth k v no_fields p h = (p, tt)
  emplace-FieldsArePrintable depth k v (field j w more) p h =
      if-cases (OptionAll (FieldsArePrintable N depth)) (text_eq k j) (λ e. tt)
        (λ e.
          if-cases (OptionAll (FieldsArePrintable N depth)) (text_lt k j) (λ e'. (p, h))
            (λ e'.
              keep_field-OptionAll (FieldsArePrintable N depth) (FieldsArePrintable N depth) j w
                (emplace k v more) (λ some_more a. (h.0, a))
                (emplace-FieldsArePrintable depth k v more p h.1)))

  abbrev pub IsMap : ℕ → Fields D → Type 0
  IsMap depth fields = IsOrdered fields × FieldsArePrintable N depth fields

  pub emplaced-Leaves :
      (depth n : ℕ) (o : Option (Fields D)) (rest : Text)
      → length rest < n
      → OptionAll (IsMap depth) o
      → Leaves n (IsMap depth) (emplaced o rest)
  unfolding emplaced
  emplaced-Leaves depth n none rest lt h = tt
  emplaced-Leaves depth n (some more) rest lt h = (h, lt)

  number_value-Leaves :
      (depth n : ℕ) (t rest : Text) (o : Option D)
      → read t ≡ o
      → depth ≤ max_depth
      → length rest < n
      → Leaves n (IsPrintable N depth) (number_value o rest)
  unfolding number_value IsPrintable
  number_value-Leaves depth n t rest none e h lt = tt
  number_value-Leaves depth n t rest (some d) e h lt = ((h, readable t d e), lt)

  parse_number-Leaves :
      (depth n : ℕ) (o : Option (Text × Text))
      → depth ≤ max_depth
      → Shrinks n o
      → Leaves n (IsPrintable N depth) (parse_number read o)
  unfolding parse_number
  parse_number-Leaves depth n none h lt = tt
  parse_number-Leaves depth n (some (t, rest)) h lt =
      number_value-Leaves depth n t rest (read t) refl h lt

  -- What the parser does with this fuel.
  pub record Stops (f : ℕ) : Type 0 where
    pub on_value :
        (depth : ℕ) (ts : Text)
        → 2 * length ts < f
        → Leaves (length ts) (IsPrintable N depth) (parse_value read f depth ts)
    pub on_items :
        (depth : ℕ) (ts : Text)
        → 2 * length ts + 1 < f
        → Leaves (length ts) (ItemsArePrintable N (depth + 1)) (parse_items read f depth ts)
    pub on_fields :
        (depth : ℕ) (entries : Fields D) (ts : Text)
        → IsMap (depth + 1) entries
        → 2 * length ts + 1 < f
        → Leaves (length ts) (IsMap (depth + 1)) (parse_fields read f depth entries ts)

  -- What the token says of the text and of the depth.
  abbrev pub Seen : ℕ → Text → Token → Type 0
  Seen depth ts nothing_known = Unit
  Seen depth ts starts_null = depth ≤ max_depth
  Seen depth ts starts_true = depth ≤ max_depth
  Seen depth ts starts_false = depth ≤ max_depth
  Seen depth ts starts_number = depth ≤ max_depth
  Seen depth ts (starts_string cs) = (depth ≤ max_depth) × (length cs < length ts)
  Seen depth ts (starts_array cs) = (depth ≤ max_depth) × (length cs < length ts)
  Seen depth ts (starts_object cs) = (depth ≤ max_depth) × (length cs < length ts)

  token_of-Seen : (depth : ℕ) (ts : Text) → depth ≤ max_depth → Seen depth ts (token_of ts)
  unfolding token_of
  token_of-Seen depth [] h = tt
  token_of-Seen depth (c ∷ cs) h =
      if-cases (Seen depth (c ∷ cs)) (c == b'n') (λ e. h)
        (λ e.
          if-cases (Seen depth (c ∷ cs)) (c == b't') (λ e. h)
            (λ e.
              if-cases (Seen depth (c ∷ cs)) (c == b'f') (λ e. h)
                (λ e.
                  if-cases (Seen depth (c ∷ cs)) (c == b'"') (λ e. (h, omega arith))
                    (λ e.
                      if-cases (Seen depth (c ∷ cs)) (c == b'[') (λ e. (h, omega arith))
                        (λ e.
                          if-cases (Seen depth (c ∷ cs)) (c == b'{') (λ e. (h, omega arith))
                            (λ e.
                              if-cases (Seen depth (c ∷ cs)) (c == b'-' || is_digit c) (λ e. h)
                                (λ e. tt)))))))

  pub token_at-Seen : (depth : ℕ) (ts : Text) → Seen depth ts (token_at depth ts)
  unfolding token_at
  token_at-Seen depth ts =
      if-cases (Seen depth ts) (ltb max_depth depth) (λ e. tt)
        (λ e. token_of-Seen depth ts (ground (arith, e)))

  items-Leaves :
      (f depth n : ℕ) (cs : Text)
      → Stops f
      → depth ≤ max_depth
      → 2 * length cs + 1 < f
      → length cs < n
      → Leaves n
          (IsPrintable N depth)
          (parse_items read f depth cs >>= λ (xs, rest). done (array xs) rest)
  unfolding IsPrintable
  items-Leaves f depth n cs stops h enough lt =
      Leaves->>= (length cs) n (ItemsArePrintable N (depth + 1)) (IsPrintable N depth)
        (parse_items read f depth cs) (λ (xs, rest). done (array xs) rest)
        (stops.on_items depth cs enough) (λ xs rest p le. ((h, p), omega (arith, lt, le)))

  fields-Leaves :
      (f depth n : ℕ) (cs : Text)
      → Stops f
      → depth ≤ max_depth
      → 2 * length cs + 1 < f
      → length cs < n
      → Leaves n
          (IsPrintable N depth)
          (parse_fields read f depth no_fields cs >>= λ (fields, rest). done (object fields) rest)
  unfolding IsPrintable FieldsArePrintable
  fields-Leaves f depth n cs stops h enough lt =
      Leaves->>= (length cs) n (IsMap (depth + 1)) (IsPrintable N depth)
        (parse_fields read f depth no_fields cs) (λ (fields, rest). done (object fields) rest)
        (stops.on_fields depth no_fields cs (tt, tt) enough)
        (λ fields rest p le. ((h, p.0, p.1), omega (arith, lt, le)))

  value-starts_array :
      (f depth n : ℕ) (cs : Text) (sep : Separator)
      → Stops f
      → depth ≤ max_depth
      → 2 * length cs + 1 < f
      → length cs < n
      → SeparatorShrinks (length cs) sep
      → Leaves n (IsPrintable N depth) (elim sep [
        | closed rest ↦ done (array no_items) rest
        | other ↦ parse_items read f depth cs >>= λ (xs, rest). done (array xs) rest
      ])
  unfolding IsPrintable ItemsArePrintable
  value-starts_array f depth n cs (closed rest) stops h enough lt le =
      ((h, tt), omega (arith, lt, le))
  value-starts_array f depth n cs (comma rest) stops h enough lt le =
      items-Leaves f depth n cs stops h enough lt
  value-starts_array f depth n cs no_separator stops h enough lt le =
      items-Leaves f depth n cs stops h enough lt

  value-starts_object :
      (f depth n : ℕ) (cs : Text) (sep : Separator)
      → Stops f
      → depth ≤ max_depth
      → 2 * length cs + 1 < f
      → length cs < n
      → SeparatorShrinks (length cs) sep
      → Leaves n (IsPrintable N depth) (elim sep [
        | closed rest ↦ done (object no_fields) rest
        | other ↦
            parse_fields read f depth no_fields cs >>= λ (fields, rest). done (object fields) rest
      ])
  unfolding IsPrintable FieldsArePrintable
  value-starts_object f depth n cs (closed rest) stops h enough lt le =
      ((h, tt, tt), omega (arith, lt, le))
  value-starts_object f depth n cs (comma rest) stops h enough lt le =
      fields-Leaves f depth n cs stops h enough lt
  value-starts_object f depth n cs no_separator stops h enough lt le =
      fields-Leaves f depth n cs stops h enough lt

  within :
      {A : Type 0} (P : A → Type 0) (ts : Text) (o : Outcome A)
      → Leaves (length (skip_space ts)) P o
      → Leaves (length ts) P o
  within P ts o h = Leaves-weaken (length (skip_space ts)) (length ts) P o (length-skip_space ts) h

  pub value-token :
      (f depth : ℕ) (ts : Text) (tok : Token)
      → Stops f
      → 2 * length ts < suc f
      → token_at depth (skip_space ts) ≡ tok
      → Seen depth (skip_space ts) tok
      → Leaves (length ts) (IsPrintable N depth) (parse_value read (suc f) depth ts)
  unfolding IsPrintable parse_value
  value-token f depth ts nothing_known stops enough e h = rw (parse_value, e) tt
  value-token f depth ts starts_null stops enough e h =
      rw (parse_value, e)
        (within (IsPrintable N depth) ts (literal null null_word (skip_space ts)) (
          literal-Leaves (IsPrintable N depth) null b'n' (b'u' ∷ b'l' ∷ b'l' ∷ []) (skip_space ts)
            h))
  value-token f depth ts starts_true stops enough e h =
      rw (parse_value, e)
        (within (IsPrintable N depth) ts (literal (bool true) true_word (skip_space ts)) (
          literal-Leaves (IsPrintable N depth) (bool true) b't' (b'r' ∷ b'u' ∷ b'e' ∷ [])
            (skip_space ts) h))
  value-token f depth ts starts_false stops enough e h =
      rw (parse_value, e)
        (within (IsPrintable N depth) ts (literal (bool false) false_word (skip_space ts)) (
          literal-Leaves (IsPrintable N depth) (bool false) b'f' (b'a' ∷ b'l' ∷ b's' ∷ b'e' ∷ [])
            (skip_space ts) h))
  value-token f depth ts starts_number stops enough e h =
      rw (parse_value, e)
        (within (IsPrintable N depth) ts (parse_number read (number_text (skip_space ts))) (
          parse_number-Leaves depth (length (skip_space ts)) (number_text (skip_space ts)) h
            (number_text-Shrinks (skip_space ts))))
  value-token f depth ts (starts_string cs) stops enough e h =
      rw (parse_value, e)
        (Leaves->>= (length cs) (length ts) (λ s. Unit) (IsPrintable N depth) (parse_string cs)
          (λ (s, rest). done (string s) rest) (string_loop-Leaves cs plain [])
          (λ s rest u lt. (h.0, omega (arith, h.1, lt, length-skip_space ts))))
  value-token f depth ts (starts_array cs) stops enough e h =
      rw (parse_value, e)
        (value-starts_array f depth (length ts) cs (separator b']' cs) stops h.0
          (omega (arith, h.1, enough, length-skip_space ts))
          (omega (arith, h.1, length-skip_space ts)) (separator-Shrinks b']' cs))
  value-token f depth ts (starts_object cs) stops enough e h =
      rw (parse_value, e)
        (value-starts_object f depth (length ts) cs (separator b'}' cs) stops h.0
          (omega (arith, h.1, enough, length-skip_space ts))
          (omega (arith, h.1, length-skip_space ts)) (separator-Shrinks b'}' cs))
