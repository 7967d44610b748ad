-- ===== src/Json/Parser/Order.antt =====
-- Fields in the order of a map: each key below all that follow. A field whose key is above all is
-- put at the end by `emplace`.
use plywise.Json.{Text, Value, Fields, no_fields, field, text_lt, text_eq}
use plywise.Json.Parser.{emplace, keep_field}
use plywise.Prelude.{◌≡◌, refl, ap, arith, true, false, [], ◌∷◌, Option, none, some, if-cases}

text_lt_asymmetric :
    (j k : Text) → text_lt j k ≡ true → (text_eq k j ≡ false) × (text_lt k j ≡ false)
unfolding text_lt text_eq
text_lt_asymmetric [] [] h = ground (arith, h)
text_lt_asymmetric [] (d ∷ ds) h = (refl, refl)
text_lt_asymmetric (c ∷ cs) [] h = ground (arith, h)
text_lt_asymmetric (c ∷ cs) (d ∷ ds) h = ground (arith, text_lt_asymmetric cs ds)

pub text_lt_trans : (i j k : Text) → text_lt i j ≡ true → text_lt j k ≡ true → text_lt i k ≡ true
unfolding text_lt
text_lt_trans [] [] [] h g = ground (arith, h)
text_lt_trans [] (d ∷ ds) [] h g = ground (arith, g)
text_lt_trans [] j (e ∷ es) h g = refl
text_lt_trans (c ∷ cs) [] k h g = ground (arith, h)
text_lt_trans (c ∷ cs) (d ∷ ds) [] h g = ground (arith, g)
text_lt_trans (c ∷ cs) (d ∷ ds) (e ∷ es) h g = ground (arith, text_lt_trans cs ds es)

text_lt_total : (j k : Text) → text_eq k j ≡ false → text_lt k j ≡ false → text_lt j k ≡ true
unfolding text_lt text_eq
text_lt_total [] [] e h = ground (arith, e)
text_lt_total [] (d ∷ ds) e h = refl
text_lt_total (c ∷ cs) [] e h = ground (arith, h)
text_lt_total (c ∷ cs) (d ∷ ds) e h = ground (arith, text_lt_total cs ds)

module _ {D : Type 0} where
  -- Every key of the fields is above this one.
  abbrev pub KeysAbove : Text → Fields D → Type 0
  KeysAbove j no_fields = Unit
  KeysAbove j (field k v fields) = (text_lt j k ≡ true) × KeysAbove j fields

  abbrev pub IsOrdered : Fields D → Type 0
  IsOrdered no_fields = Unit
  IsOrdered (field k v fields) = KeysAbove k fields × IsOrdered fields

  abbrev pub join : Fields D → Fields D → Fields D
  join no_fields more = more
  join (field k v fields) more = field k v (join fields more)

  pub join-no_fields : (fields : Fields D) → join fields no_fields ≡ fields
  join-no_fields no_fields = refl
  join-no_fields (field k v fields) = ap (field k v) (join-no_fields fields)

  pub join_assoc :
      (front middle back : Fields D) → join (join front middle) back ≡ join front (join middle back)
  join_assoc no_fields middle back = refl
  join_assoc (field k v fields) middle back = ap (field k v) (join_assoc fields middle back)

  KeysAbove-next :
      (j k : Text) (v : Value D) (front later : Fields D)
      → KeysAbove j (join front (field k v later))
      → text_lt j k ≡ true
  KeysAbove-next j k v no_fields later h = h.0
  KeysAbove-next j k v (field i w front) later h = KeysAbove-next j k v front later h.1

  pub emplace-last :
      (k : Text) (v : Value D) (front later : Fields D)
      → IsOrdered (join front (field k v later))
      → emplace k v front ≡ some (join front (field k v no_fields))
  unfolding emplace
  emplace-last k v no_fields later h = refl
  emplace-last k v (field j w front) later h =
      let above = text_lt_asymmetric j k (KeysAbove-next j k v front later h.0) in
      rw (above.0, above.1) (ap (keep_field j w) (emplace-last k v front later h.1))

  -- What holds of the map, if it is there.
  abbrev pub OptionAll : (Fields D → Type 0) → Option (Fields D) → Type 0
  OptionAll P none = Unit
  OptionAll P (some fields) = P fields

  pub keep_field-OptionAll :
      (P Q : Fields D → Type 0) (j : Text) (w : Value D) (o : Option (Fields D))
      → ((fields : Fields D) → P fields → Q (field j w fields))
      → OptionAll P o
      → OptionAll Q (keep_field j w o)
  keep_field-OptionAll P Q j w none h p = tt
  keep_field-OptionAll P Q j w (some fields) h p = h fields p

  pub both :
      (P Q : Fields D → Type 0) (o : Option (Fields D))
      → OptionAll P o
      → OptionAll Q o
      → OptionAll (λ fields. P fields × Q fields) o
  both P Q none p q = tt
  both P Q (some more) p q = (p, q)

  KeysAbove-trans :
      (i j : Text) (fields : Fields D)
      → text_lt i j ≡ true
      → KeysAbove j fields
      → KeysAbove i fields
  KeysAbove-trans i j no_fields lt h = tt
  KeysAbove-trans i j (field k v fields) lt h =
      (text_lt_trans i j k lt h.0, KeysAbove-trans i j fields lt h.1)

  emplace-KeysAbove :
      (i k : Text) (v : Value D) (fields : Fields D)
      → text_lt i k ≡ true
      → KeysAbove i fields
      → OptionAll (KeysAbove i) (emplace k v fields)
  unfolding emplace
  emplace-KeysAbove i k v no_fields lt h = (lt, tt)
  emplace-KeysAbove i k v (field j w fields) lt h =
      if-cases (OptionAll (KeysAbove i)) (text_eq k j) (λ e. tt)
        (λ e.
          if-cases (OptionAll (KeysAbove i)) (text_lt k j) (λ e'. (lt, h))
            (λ e'.
              keep_field-OptionAll (KeysAbove i) (KeysAbove i) j w (emplace k v fields)
                (λ more a. (h.0, a)) (emplace-KeysAbove i k v fields lt h.1)))

  -- `emplace` keeps the order of the keys.
  pub emplace-IsOrdered :
      (k : Text) (v : Value D) (fields : Fields D)
      → IsOrdered fields
      → OptionAll IsOrdered (emplace k v fields)
  unfolding emplace
  emplace-IsOrdered k v no_fields h = (tt, tt)
  emplace-IsOrdered k v (field j w fields) h =
      if-cases (OptionAll IsOrdered) (text_eq k j) (λ e. tt)
        (λ e.
          if-cases (OptionAll IsOrdered) (text_lt k j)
            (λ lt. ((lt, KeysAbove-trans k j fields lt h.0), h))
            (λ ge.
              keep_field-OptionAll (λ more. KeysAbove j more × IsOrdered more) IsOrdered j w
                (emplace k v fields) (λ more a. a)
                (both (KeysAbove j) IsOrdered (emplace k v fields)
                  (emplace-KeysAbove j k v fields (text_lt_total j k e ge) h.0)
                  (emplace-IsOrdered k v fields h.1))))
