-- ===== src/Chess/Moves/Fuel.antt =====
-- Eight rounds take a sliding piece off the board.
use plywise.Chess.Attack.{Offset}
use plywise.Chess.Attack.Fuel.{Leaves, IsUnit, unit-Leaves}
use plywise.Chess.Board.{Board}
use plywise.Chess.Moves.{slide}
use plywise.Chess.Piece.{Piece}
use plywise.Chess.Square.{on_board}
use plywise.Prelude.Int.{ℤ, ◌+ℤ◌}
use plywise.Prelude.{ℕ, zero, suc, ◌≤◌, ◌≡◌, refl, sym, ◌∙◌, false, [], arith, inl, inr, Bool-cases}

off_slide :
    (n : ℕ) (b : Board) (from : ℕ) (p : Piece) (d : Offset) (file rank : ℤ)
    → on_board file rank ≡ false
    → slide n b from p d file rank ≡ []
unfolding slide
off_slide zero b from p d file rank h = refl
off_slide (suc n) b from p d file rank h = rw h refl

slide-Leaves :
    (k n m : ℕ) (b : Board) (from : ℕ) (p : Piece) (d : Offset) (file rank : ℤ)
    → Leaves k d file rank
    → k ≤ n
    → k ≤ m
    → slide n b from p d file rank ≡ slide m b from p d file rank
unfolding slide Leaves
slide-Leaves zero n m b from p d file rank l h h' =
    off_slide n b from p d file rank l ∙ sym (off_slide m b from p d file rank l)
slide-Leaves (suc k) zero m b from p d file rank l h h' = absurd (omega arith)
slide-Leaves (suc k) (suc n) zero b from p d file rank l h h' = absurd (omega arith)
slide-Leaves (suc k) (suc n) (suc m) b from p d file rank l h h' =
    elim (Bool-cases (on_board file rank)) [
      | inl on ↦
          rw
            (
              on,
              slide-Leaves k n m b from p d (file +ℤ d.0) (rank +ℤ d.1) (l on) (omega arith)
                  (omega arith),
            )
            refl
      | inr off ↦ rw off refl
    ]

-- Along each of the eight directions, from anywhere, eight rounds of the loop of `add_sliding_moves`
-- are enough: more give the same moves.
pub slide-enough :
    (n : ℕ) (b : Board) (from : ℕ) (p : Piece) (d : Offset) (file rank : ℤ)
    → IsUnit d
    → 8 ≤ n
    → slide n b from p d file rank ≡ slide 8 b from p d file rank
slide-enough n b from p d file rank u h =
    slide-Leaves 8 n 8 b from p d file rank (unit-Leaves d file rank u) h (omega arith)
