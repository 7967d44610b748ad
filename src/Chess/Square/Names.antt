-- ===== src/Chess/Square/Names.antt =====
-- The names of squares.
use plywise.Chess.Square.{Text, square_name, parse_square, make_square}
use plywise.Errors.{ok, err, parse_error}
use plywise.Prelude.{
  ℕ, ◌*◌, ◌||◌, Bool-cases, ◌+◌, ◌/◌, ◌%◌, ◌<◌, ◌≡◌, ◌⊎◌, inl, inr, refl, [], ◌∷◌, arith, ◌-◌, ltb,
}

-- Every square of the board has a name, and the name is read back as that square.
pub parse_square-square_name :
    (square : ℕ)
    → square < 64
    → (name : Text) × (square_name square ≡ ok name) × (parse_square name ≡ ok square)
unfolding square_name parse_square make_square
parse_square-square_name square h =
    ((b'a' + square % 8) ∷ (b'1' + square / 8) ∷ [], ground arith, ground arith)

-- What `parse_square` accepts is the name of the square that it returns, and that square is on the
-- board; all else is a parse error.
pub square_name-parse_square :
    (name : Text)
    → ((square : ℕ) × (parse_square name ≡ ok square)
        × (square < 64)
        × (square_name square ≡ ok name))
      ⊎ (parse_square name ≡ err parse_error)
unfolding square_name parse_square make_square
square_name-parse_square [] = inr refl
square_name-parse_square (f ∷ []) = inr refl
square_name-parse_square (f ∷ r ∷ c ∷ cs) = inr refl
square_name-parse_square (f ∷ r ∷ []) =
    elim (Bool-cases (ltb f b'a' || ltb b'h' f || ltb r b'1' || ltb b'8' r)) [
      | inl outside ↦ inr (rw outside)
      | inr inside ↦
          inl (((r - b'1') * 8 + (f - b'a')) % 256, rw inside, ground arith, ground arith)
    ]
