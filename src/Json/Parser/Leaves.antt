-- ===== src/Json/Parser/Leaves.antt =====
-- How much of the text the parts of the parser leave.
use plywise.Json.{Text}
use plywise.Json.Lexer.{
  Outcome, done, failed, out_of_fuel, ◌>>=◌, skip_space, literal, Mode, StringStep, closes, bad,
  goes, string_step, after_step, string_loop, is_digit, digits, some_digits, integer_part, prepend,
  fraction_part, exponent_digits, exponent_part, then_part, unsigned_text, number_text,
}
use plywise.Json.Parser.{
  Separator, closed, comma, no_separator, separator_of, separator, expect_at, expect,
}
use plywise.Prelude.{
  ℕ, suc, ◌≤◌, ◌<◌, arith, ◌||◌, [], ◌∷◌, length, Option, none, some, Bool-cases, inl, inr,
  if-cases, ◌==◌,
}

-- The parser stops: it throws, or it has a value of which `P` holds and leaves fewer bytes than this.
abbrev pub Leaves : {A : Type 0} → ℕ → (A → Type 0) → Outcome A → Type 0
Leaves n P (done a rest) = P a × (length rest < n)
Leaves n P failed = Unit
Leaves n P out_of_fuel = ⊥

pub Leaves-weaken :
    {A : Type 0} (n m : ℕ) (P : A → Type 0) (o : Outcome A) → n ≤ m → Leaves n P o → Leaves m P o
Leaves-weaken n m P (done a rest) le h = (h.0, omega (arith, le, h.1))
Leaves-weaken n m P failed le h = tt
Leaves-weaken n m P out_of_fuel le h = h

pub Leaves->>= :
    {A B : Type 0} (n m : ℕ) (P : A → Type 0) (Q : B → Type 0) (o : Outcome A)
    (next : A × Text → Outcome B)
    → Leaves n P o
    → ((a : A) (rest : Text) → P a → length rest < n → Leaves m Q (next (a, rest)))
    → Leaves m Q (o >>= next)
Leaves->>= n m P Q (done a rest) next h k = k a rest h.0 h.1
Leaves->>= n m P Q failed next h k = tt
Leaves->>= n m P Q out_of_fuel next h k = h

pub length-skip_space : (ts : Text) → length (skip_space ts) ≤ length ts
unfolding skip_space
length-skip_space [] = omega arith
length-skip_space (c ∷ cs) = ground (arith, length-skip_space cs)

literal-left :
    {A : Type 0} (P : A → Type 0) (a : A) (ws cs : Text)
    → P a
    → Leaves (suc (length cs)) P (literal a ws cs)
unfolding literal
literal-left P a [] cs p = (p, omega arith)
literal-left P a (w ∷ ws) [] p = tt
literal-left P a (w ∷ ws) (c ∷ cs) p =
    if-cases (Leaves (suc (suc (length cs))) P) (c == w)
      (λ e.
        Leaves-weaken (suc (length cs)) (suc (suc (length cs))) P (literal a ws cs) (omega arith)
          (literal-left P a ws cs p))
      (λ e. tt)

pub literal-Leaves :
    {A : Type 0} (P : A → Type 0) (a : A) (w : ℕ) (ws cs : Text)
    → P a
    → Leaves (length cs) P (literal a (w ∷ ws) cs)
unfolding literal
literal-Leaves P a w ws [] p = tt
literal-Leaves P a w ws (c ∷ cs) p =
    if-cases (Leaves (suc (length cs)) P) (c == w) (λ e. literal-left P a ws cs p) (λ e. tt)

after_step-Leaves :
    (s : StringStep) (cs result : Text) (next : Mode → Text → Outcome Text)
    → ((mode : Mode) (result : Text) → Leaves (length cs) (λ t. Unit) (next mode result))
    → Leaves (suc (length cs)) (λ t. Unit) (after_step s cs result next)
after_step-Leaves closes cs result next h = (tt, omega arith)
after_step-Leaves bad cs result next h = tt
after_step-Leaves (goes mode result') cs result next h =
    Leaves-weaken (length cs) (suc (length cs)) (λ t. Unit) (next mode result') (omega arith)
      (h mode result')

pub string_loop-Leaves :
    (cs : Text) (mode : Mode) (result : Text)
    → Leaves (length cs) (λ t. Unit) (string_loop cs mode result)
unfolding string_loop
string_loop-Leaves [] mode result = tt
string_loop-Leaves (c ∷ cs) mode result =
    after_step-Leaves (string_step mode result c) cs result (string_loop cs) (string_loop-Leaves cs)

-- A part of a number leaves fewer bytes than this.
abbrev pub Shrinks : ℕ → Option (Text × Text) → Type 0
Shrinks n none = Unit
Shrinks n (some (t, rest)) = length rest < n

prepend-Shrinks :
    (n m : ℕ) (front : Text) (o : Option (Text × Text))
    → n ≤ m
    → Shrinks n o
    → Shrinks m (prepend front o)
prepend-Shrinks n m front none le h = tt
prepend-Shrinks n m front (some (t, rest)) le h = omega (arith, le, h)

then_part-Shrinks :
    (n : ℕ) (o : Option (Text × Text)) (scan : Text → Option (Text × Text))
    → Shrinks n o
    → ((t : Text) → Shrinks (suc (length t)) (scan t))
    → Shrinks n (then_part o scan)
then_part-Shrinks n none scan h k = tt
then_part-Shrinks n (some (t, rest)) scan h k =
    prepend-Shrinks (suc (length rest)) n t (scan rest) (omega (arith, h)) (k rest)

length-digits : (cs : Text) → length (digits cs).1 ≤ length cs
unfolding digits
length-digits [] = omega arith
length-digits (c ∷ cs) = ground (arith, length-digits cs)

some_digits-Shrinks : (cs : Text) → Shrinks (length cs) (some_digits cs)
unfolding some_digits digits
some_digits-Shrinks [] = tt
some_digits-Shrinks (c ∷ cs) = elim (Bool-cases (is_digit c)) [
  | inl e ↦ rw e (omega (arith, length-digits cs))
  | inr e ↦ rw e tt
]

integer_part-Shrinks : (cs : Text) → Shrinks (length cs) (integer_part cs)
unfolding integer_part
integer_part-Shrinks [] = tt
integer_part-Shrinks (c ∷ cs) =
    if-cases (Shrinks (suc (length cs))) (c == 48) (λ e. omega arith)
      (λ e. some_digits-Shrinks (c ∷ cs))

fraction_part-Shrinks : (cs : Text) → Shrinks (suc (length cs)) (fraction_part cs)
unfolding fraction_part
fraction_part-Shrinks [] = omega arith
fraction_part-Shrinks (c ∷ cs) =
    if-cases (Shrinks (suc (suc (length cs)))) (c == 46)
      (λ e.
        prepend-Shrinks (length cs) (suc (suc (length cs))) (c ∷ []) (some_digits cs) (omega arith)
          (some_digits-Shrinks cs))
      (λ e. omega arith)

exponent_digits-Shrinks : (cs : Text) → Shrinks (length cs) (exponent_digits cs)
unfolding exponent_digits
exponent_digits-Shrinks [] = tt
exponent_digits-Shrinks (c ∷ cs) =
    if-cases (Shrinks (suc (length cs))) (c == 43 || c == 45)
      (λ e.
        prepend-Shrinks (length cs) (suc (length cs)) (c ∷ []) (some_digits cs) (omega arith)
          (some_digits-Shrinks cs))
      (λ e. some_digits-Shrinks (c ∷ cs))

exponent_part-Shrinks : (cs : Text) → Shrinks (suc (length cs)) (exponent_part cs)
unfolding exponent_part
exponent_part-Shrinks [] = omega arith
exponent_part-Shrinks (c ∷ cs) =
    if-cases (Shrinks (suc (suc (length cs)))) (c == 101 || c == 69)
      (λ e.
        prepend-Shrinks (length cs) (suc (suc (length cs))) (c ∷ []) (exponent_digits cs)
          (omega arith) (exponent_digits-Shrinks cs))
      (λ e. omega arith)

unsigned_text-Shrinks : (cs : Text) → Shrinks (length cs) (unsigned_text cs)
unfolding unsigned_text
unsigned_text-Shrinks cs =
    then_part-Shrinks (length cs) (then_part (integer_part cs) fraction_part) exponent_part
      (then_part-Shrinks (length cs) (integer_part cs) fraction_part (integer_part-Shrinks cs)
        fraction_part-Shrinks)
      exponent_part-Shrinks

pub number_text-Shrinks : (cs : Text) → Shrinks (length cs) (number_text cs)
unfolding number_text
number_text-Shrinks [] = tt
number_text-Shrinks (c ∷ cs) =
    if-cases (Shrinks (suc (length cs))) (c == 45)
      (λ e.
        prepend-Shrinks (length cs) (suc (length cs)) (c ∷ []) (unsigned_text cs) (omega arith)
          (unsigned_text-Shrinks cs))
      (λ e. unsigned_text-Shrinks (c ∷ cs))

-- The text after the bracket or the comma is shorter.
abbrev pub SeparatorShrinks : ℕ → Separator → Type 0
SeparatorShrinks n (closed rest) = length rest < n
SeparatorShrinks n (comma rest) = length rest < n
SeparatorShrinks n no_separator = Unit

pub separator-Shrinks : (close : ℕ) (ts : Text) → SeparatorShrinks (length ts) (separator close ts)
unfolding separator_of
separator-Shrinks close ts = stripped (skip_space ts) (length-skip_space ts)
  where
    stripped :
        (cs : Text) → length cs ≤ length ts → SeparatorShrinks (length ts) (separator_of close cs)
    stripped [] h = tt
    stripped (c ∷ cs) h =
        if-cases (SeparatorShrinks (length ts)) (c == close) (λ e. omega (arith, h))
          (λ e.
            if-cases (SeparatorShrinks (length ts)) (c == 44) (λ e'. omega (arith, h)) (λ e'. tt))

pub expect-Leaves : (expected : ℕ) (ts : Text) → Leaves (length ts) (λ u. Unit) (expect expected ts)
unfolding expect_at
expect-Leaves expected ts = stripped (skip_space ts) (length-skip_space ts)
  where
    stripped :
        (cs : Text) → length cs ≤ length ts → Leaves (length ts) (λ u. Unit) (expect_at expected cs)
    stripped [] h = tt
    stripped (c ∷ cs) h =
        if-cases (Leaves (length ts) (λ u. Unit)) (c == expected) (λ e. (tt, omega (arith, h)))
          (λ e. tt)
