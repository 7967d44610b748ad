-- ===== src/Chess/Fen/Words.antt =====
-- Words and numbers: what `to_fen` prints between spaces is what `split` and `parse_uint` read.
use plywise.Chess.Fen.{
  is_space, is_digit, finish_word, split_onto, digits_value, parse_uint, decimal_onto, decimal,
}
use plywise.Chess.Square.{Text}
use plywise.Errors.{ok}
use plywise.Prelude.{
  ℕ, zero, suc, ◌+◌, ◌/◌, ◌%◌, ◌<◌, ◌≡◌, ◌≢◌, refl, false, [], ◌∷◌, ◌++◌, arith, All, ltb, some, ap,
  ◌∙◌, Bool-cases, inl, inr,
}
use mathlib.Core.List.{append-nil, append_assoc}

-- No white space in it.
abbrev pub IsWord : Text → Type 0
IsWord = All (λ c. is_space c ≡ false)

-- A word is split off at the space behind it.
pub split_onto-space :
    (w pre rest : Text)
    → IsWord w
    → split_onto pre (w ++ (32 ∷ rest)) ≡ finish_word (pre ++ w) (split_onto [] rest)
unfolding split_onto is_space
split_onto-space [] pre rest h = rw append-nil
split_onto-space (c ∷ cs) pre rest (h, t) = rw h (
    split_onto-space cs (pre ++ c ∷ []) rest t
    ∙ ap (λ v. finish_word v (split_onto [] rest)) (append_assoc pre (c ∷ []) cs))

-- The last word ends with the text.
pub split_onto_end : (w pre : Text) → IsWord w → split_onto pre w ≡ finish_word (pre ++ w) []
unfolding split_onto
split_onto_end [] pre h = rw append-nil
split_onto_end (c ∷ cs) pre (h, t) = rw h (
    split_onto_end cs (pre ++ c ∷ []) t ∙ ap (λ v. finish_word v []) (append_assoc pre (c ∷ []) cs))

decimal_onto-digits_value :
    (fuel n : ℕ) (out : Text)
    → n < fuel
    → digits_value 0 (decimal_onto fuel n out) ≡ digits_value n out
unfolding decimal_onto digits_value is_digit
decimal_onto-digits_value zero n out h = absurd (omega arith)
decimal_onto-digits_value (suc fuel) n out h = elim (Bool-cases (ltb n 10)) [
  | inl small ↦ rw small (ground arith)
  | inr large ↦ rw large (
      decimal_onto-digits_value fuel (n / 10) ((b'0' + n % 10) ∷ out) (ground arith) ∙ ground arith)
]

decimal_onto-IsWord :
    (fuel n : ℕ) (out : Text) → n < fuel → IsWord out → IsWord (decimal_onto fuel n out)
unfolding decimal_onto is_space
decimal_onto-IsWord zero n out h k = k
decimal_onto-IsWord (suc fuel) n out h k = elim (Bool-cases (ltb n 10)) [
  | inl small ↦ rw small (ground arith, k)
  | inr large ↦
      rw large
        (decimal_onto-IsWord fuel (n / 10) ((b'0' + n % 10) ∷ out) (ground arith) (ground arith, k))
]

pub decimal-IsWord : (n : ℕ) → IsWord (decimal n)
unfolding decimal
decimal-IsWord n = decimal_onto-IsWord (suc n) n [] (omega arith) tt

pub decimal_small : (n : ℕ) → n < 10 → decimal n ≡ (b'0' + n) ∷ []
unfolding decimal decimal_onto
decimal_small n h = ground arith

decimal_onto-ne_nil : (fuel n c : ℕ) (out : Text) → decimal_onto fuel n (c ∷ out) ≢ []
unfolding decimal_onto
decimal_onto-ne_nil zero n c out e = cc
decimal_onto-ne_nil (suc fuel) n c out e =
    ground (arith, decimal_onto-ne_nil fuel (n / 10) (b'0' + n % 10) (c ∷ out))

pub decimal-ne_nil : (n : ℕ) → decimal n ≢ []
unfolding decimal decimal_onto
decimal-ne_nil n e = ground (arith, decimal_onto-ne_nil n (n / 10) (b'0' + n % 10) [])

parse_uint_digits :
    (t : Text) (n : ℕ) → t ≢ [] → digits_value 0 t ≡ some n → n < 65536 → parse_uint t ≡ ok n
unfolding parse_uint
parse_uint_digits [] n ne e h = absurd (ne refl)
parse_uint_digits (c ∷ cs) n ne e h = rw (e, parse_uint) (ground arith)

-- A clock or move number of 16 bits is read back from its decimal digits.
pub parse_uint-decimal : (n : ℕ) → n < 65536 → parse_uint (decimal n) ≡ ok n
parse_uint-decimal n h =
    parse_uint_digits (decimal n) n (decimal-ne_nil n)
      (unfold decimal digits_value in decimal_onto-digits_value (suc n) n [] (omega arith)) h
