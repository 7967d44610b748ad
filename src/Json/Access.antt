-- ===== src/Json/Access.antt =====
-- What a client takes out of a value; the wrong kind of value is a parse error.
use plywise.Errors.{Result, ok, err, parse_error}
use plywise.Json.{
  Text, Value, Items, Fields, bool, number, string, array, object, no_fields, field, text_eq,
  text_lt,
}
use plywise.Json.Parser.{emplace}
use plywise.Json.Parser.Order.{OptionAll, keep_field-OptionAll}
use plywise.Prelude.Int.{ℤ, pos, negsuc}
use plywise.Prelude.{
  ℕ, ltb, ◌≡◌, refl, ◌⊎◌, arith, Bool, true, false, [], ◌∷◌, Option, none, some, if-cases,
  Bool-cases, inl, inr, if◌then◌else◌,
}

text_eq_apart : (k i j : Text) → text_eq k i ≡ false → text_eq j i ≡ true → text_eq j k ≡ false
unfolding text_eq
text_eq_apart [] [] j n e = ground (arith, n)
text_eq_apart [] (d ∷ ds) [] n e = ground (arith, e)
text_eq_apart [] (d ∷ ds) (b ∷ bs) n e = refl
text_eq_apart (c ∷ cs) [] [] n e = refl
text_eq_apart (c ∷ cs) [] (b ∷ bs) n e = ground (arith, e)
text_eq_apart (c ∷ cs) (d ∷ ds) [] n e = refl
text_eq_apart (c ∷ cs) (d ∷ ds) (b ∷ bs) n e = ground (arith, text_eq_apart cs ds bs)

-- The tests of `as_int` and `as_size` after the conversion.
unfoldable pub in_range : Option ℤ → Result ℤ
in_range none = err parse_error
in_range (some (pos n)) = if ltb 2147483647 n then err parse_error else ok (pos n)
in_range (some (negsuc n)) = if ltb 2147483647 n then err parse_error else ok (negsuc n)

unfoldable pub not_negative : (ℕ → ℕ) → Option ℤ → Result ℕ
not_negative cast (some (pos n)) =
    if ltb 18446744073709551616 n then err parse_error else ok (cast n)
not_negative cast _ = err parse_error

module _ {D : Type 0} where
  unfoldable pub as_bool : Value D → Result Bool
  as_bool (bool b) = ok b
  as_bool _ = err parse_error

  unfoldable pub as_number : Value D → Result D
  as_number (number d) = ok d
  as_number _ = err parse_error

  -- `integer` gives the integer that a double is, if it is one.
  abbrev checked_int : (D → Option ℤ) → Result D → Result ℤ
  checked_int integer (err thrown) = err thrown
  checked_int integer (ok d) = in_range (integer d)

  unfoldable pub as_int : (D → Option ℤ) → Value D → Result ℤ
  as_int integer v = checked_int integer (as_number v)

  -- The greatest `size_t` is 2^64 as a double; `cast` is the conversion, which is undefined there.
  abbrev checked_size : (D → Option ℤ) → (ℕ → ℕ) → Result D → Result ℕ
  checked_size integer cast (err thrown) = err thrown
  checked_size integer cast (ok d) = not_negative cast (integer d)

  unfoldable pub as_size : (D → Option ℤ) → (ℕ → ℕ) → Value D → Result ℕ
  as_size integer cast v = checked_size integer cast (as_number v)

  unfoldable pub as_string : Value D → Result Text
  as_string (string s) = ok s
  as_string _ = err parse_error

  unfoldable pub as_array : Value D → Result (Items D)
  as_array (array xs) = ok xs
  as_array _ = err parse_error

  unfoldable pub as_object : Value D → Result (Fields D)
  as_object (object fields) = ok fields
  as_object _ = err parse_error

  unfoldable pub find : Text → Fields D → Option (Value D)
  find key no_fields = none
  find key (field k v rest) = let later = find key rest in if text_eq key k then some v else later

  abbrev present : Option (Value D) → Result (Value D)
  present none = err parse_error
  present (some v) = ok v

  abbrev fallen_back : Value D → Option (Value D) → Value D
  fallen_back fallback none = fallback
  fallen_back fallback (some v) = v

  unfoldable pub at : Text → Value D → Result (Value D)
  at key (object fields) = present (find key fields)
  at key _ = err parse_error

  unfoldable pub get : Text → Value D → Value D → Result (Value D)
  get key fallback (object fields) = ok (fallen_back fallback (find key fields))
  get key fallback _ = err parse_error

  -- Once `emplace` has put a field in, its key is found with its value, and every other key as before.
  pub find-emplace :
      (k j : Text) (v : Value D) (fields : Fields D)
      → OptionAll
          (λ more. find j more ≡ (if text_eq j k then some v else find j fields))
          (emplace k v fields)
  unfolding emplace find
  find-emplace k j v no_fields = refl
  find-emplace k j v (field i w rest) =
      if-cases (OptionAll P) (text_eq k i) (λ e. tt)
        (λ differ.
          if-cases (OptionAll P) (text_lt k i) (λ e. refl)
            (λ e.
              keep_field-OptionAll
                (λ more. find j more ≡ (if text_eq j k then some v else find j rest)) P i w
                (emplace k v rest) (λ more h. later more h differ (Bool-cases (text_eq j i)))
                (find-emplace k j v rest)))
    where
      P : Fields D → Type 0
      P more = find j more ≡ (if text_eq j k then some v else find j (field i w rest))

      later :
          (more : Fields D)
          → find j more ≡ (if text_eq j k then some v else find j rest)
          → text_eq k i ≡ false
          → (text_eq j i ≡ true) ⊎ (text_eq j i ≡ false)
          → P (field i w more)
      later more h differ (inl e) = rw (e, text_eq_apart k i j differ e) refl
      later more h differ (inr e) = rw (e, h) refl
