-- ===== src/Json/Parser/Numbers.antt =====
-- The text of a number is scanned alike whatever stands after it, where no byte there continues it.
use plywise.Json.{Text}
use plywise.Json.Lexer.{
  is_digit, digits, some_digits, integer_part, prepend, fraction_part, exponent_digits,
  exponent_part, then_part, unsigned_text, number_text,
}
use plywise.Prelude.{
  ℕ, ◌≡◌, refl, ap, ◌∙◌, arith, Bool, true, false, not, ◌||◌, [], ◌∷◌, ◌++◌, Option, none, some,
  Bool-cases, else_taken, inl, inr, ◌==◌,
}

-- The first byte, if any, does not go on with a number.
unfoldable pub stops : Text → Bool
stops [] = true
stops (c ∷ cs) = not (is_digit c || c == b'.' || c == b'e' || c == b'E' || c == b'+' || c == b'-')

abbrev pub extend : Text → Option (Text × Text) → Option (Text × Text)
extend rest none = none
extend rest (some (t, more)) = some (t, more ++ rest)

prepend-extend :
    (front rest : Text) (o : Option (Text × Text))
    → prepend front (extend rest o) ≡ extend rest (prepend front o)
prepend-extend front rest none = refl
prepend-extend front rest (some (t, more)) = refl

abbrev pub IsLocal : (Text → Option (Text × Text)) → Text → Type 0
IsLocal scan rest = (t : Text) → scan (t ++ rest) ≡ extend rest (scan t)

then_part-extend :
    (scan : Text → Option (Text × Text)) (rest : Text)
    → IsLocal scan rest
    → (o : Option (Text × Text)) → then_part (extend rest o) scan ≡ extend rest (then_part o scan)
then_part-extend scan rest h none = refl
then_part-extend scan rest h (some (t, more)) =
    ap (prepend t) (h more) ∙ prepend-extend t rest (scan more)

digits-stops : (rest : Text) → stops rest ≡ true → digits rest ≡ ([], rest)
unfolding digits stops
digits-stops [] h = refl
digits-stops (c ∷ cs) h = grind arith

digits-append :
    (t rest : Text) → stops rest ≡ true → digits (t ++ rest) ≡ ((digits t).0, (digits t).1 ++ rest)
unfolding digits
digits-append [] rest h = digits-stops rest h
digits-append (c ∷ cs) rest h = elim (Bool-cases (is_digit c)) [
  | inl e ↦ rw (e, digits-append cs rest h) refl
  | inr e ↦ rw e refl
]

some_digits-IsLocal : (rest : Text) → stops rest ≡ true → IsLocal some_digits rest
unfolding some_digits stops
some_digits-IsLocal [] h [] = refl
some_digits-IsLocal (r ∷ rs) h [] = grind arith
some_digits-IsLocal rest h (c ∷ cs) = elim (Bool-cases (is_digit c)) [
  | inl e ↦ rw e (ap some (digits-append (c ∷ cs) rest h))
  | inr e ↦ rw e refl
]

integer_part-IsLocal : (rest : Text) → stops rest ≡ true → IsLocal integer_part rest
unfolding integer_part some_digits stops is_digit
integer_part-IsLocal [] h [] = refl
integer_part-IsLocal (r ∷ rs) h [] = grind arith
integer_part-IsLocal rest h (c ∷ cs) = elim (Bool-cases (c == 48)) [
  | inl e ↦ rw e refl
  | inr e ↦ rw e (some_digits-IsLocal rest h (c ∷ cs))
]

fraction_part-IsLocal : (rest : Text) → stops rest ≡ true → IsLocal fraction_part rest
unfolding fraction_part stops
fraction_part-IsLocal [] h [] = refl
fraction_part-IsLocal (r ∷ rs) h [] = grind arith
fraction_part-IsLocal rest h (c ∷ cs) = elim (Bool-cases (c == 46)) [
  | inl e ↦ rw e (
      ap (prepend (c ∷ [])) (some_digits-IsLocal rest h cs)
      ∙ prepend-extend (c ∷ []) rest (some_digits cs))
  | inr e ↦ rw e refl
]

exponent_digits-IsLocal : (rest : Text) → stops rest ≡ true → IsLocal exponent_digits rest
unfolding exponent_digits some_digits stops
exponent_digits-IsLocal [] h [] = refl
exponent_digits-IsLocal (r ∷ rs) h [] = grind arith
exponent_digits-IsLocal rest h (c ∷ cs) = elim (Bool-cases (c == 43 || c == 45)) [
  | inl e ↦ rw e (
      ap (prepend (c ∷ [])) (some_digits-IsLocal rest h cs)
      ∙ prepend-extend (c ∷ []) rest (some_digits cs))
  | inr e ↦ rw e (some_digits-IsLocal rest h (c ∷ cs))
]

exponent_part-IsLocal : (rest : Text) → stops rest ≡ true → IsLocal exponent_part rest
unfolding exponent_part stops
exponent_part-IsLocal [] h [] = refl
exponent_part-IsLocal (r ∷ rs) h [] = grind arith
exponent_part-IsLocal rest h (c ∷ cs) = elim (Bool-cases (c == 101 || c == 69)) [
  | inl e ↦ rw e (
      ap (prepend (c ∷ [])) (exponent_digits-IsLocal rest h cs)
      ∙ prepend-extend (c ∷ []) rest (exponent_digits cs))
  | inr e ↦ rw e refl
]

unsigned_text-IsLocal : (rest : Text) → stops rest ≡ true → IsLocal unsigned_text rest
unfolding unsigned_text
unsigned_text-IsLocal rest h t =
    rw (integer_part-IsLocal rest h t) rw
      (then_part-extend fraction_part rest (fraction_part-IsLocal rest h) (integer_part t))
      (then_part-extend exponent_part rest (exponent_part-IsLocal rest h)
        (then_part (integer_part t) fraction_part))

unsigned_text-stops : (r : ℕ) (rs : Text) → stops (r ∷ rs) ≡ true → unsigned_text (r ∷ rs) ≡ none
unfolding unsigned_text integer_part some_digits stops is_digit
unsigned_text-stops r rs h = grind arith

pub number_text-IsLocal : (rest : Text) → stops rest ≡ true → IsLocal number_text rest
unfolding number_text stops
number_text-IsLocal [] h [] = refl
number_text-IsLocal (r ∷ rs) h [] = grind (arith, unsigned_text-stops r rs h)
number_text-IsLocal rest h (c ∷ cs) = elim (Bool-cases (c == 45)) [
  | inl e ↦ rw e (
      ap (prepend (c ∷ [])) (unsigned_text-IsLocal rest h cs)
      ∙ prepend-extend (c ∷ []) rest (unsigned_text cs))
  | inr e ↦ rw e (unsigned_text-IsLocal rest h (c ∷ cs))
]

-- A byte that a number can begin with.
unfoldable pub begins_number : Text → Bool
begins_number [] = false
begins_number (c ∷ cs) = c == b'-' || is_digit c

integer_part-begins :
    (t : Text) (r : Text × Text) → integer_part t ≡ some r → begins_number t ≡ true
unfolding integer_part some_digits begins_number is_digit
integer_part-begins [] r h = ground (arith, h)
integer_part-begins (c ∷ cs) r h = grind (arith, h)

unsigned_text-begins :
    (t : Text) (r : Text × Text) (o : Option (Text × Text))
    → integer_part t ≡ o
    → unsigned_text t ≡ some r
    → begins_number t ≡ true
unfolding unsigned_text
unsigned_text-begins t r none e h = absurd (ground (arith, e, h))
unsigned_text-begins t r (some a) e h = integer_part-begins t a e

pub number_text-begins :
    (t : Text) (r : Text × Text) → number_text t ≡ some r → begins_number t ≡ true
unfolding number_text begins_number
number_text-begins [] r h = ground (arith, h)
number_text-begins (c ∷ cs) r h = elim (Bool-cases (c == 45)) [
  | inl e ↦ rw e refl
  | inr e ↦
      unsigned_text-begins (c ∷ cs) r (integer_part (c ∷ cs)) refl
        (else_taken (prepend (c ∷ []) (unsigned_text cs)) e h)
]
