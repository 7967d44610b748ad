-- ===== src/Chess/Pgn/Clocks.antt =====
-- The clocks of a game: the end of `parse_pgn`, src/chess/pgn.cpp.
use plywise.Chess.Pgn.Replay.{Ply}
use plywise.Chess.Pgn.Scan.{token_empty}
use plywise.Chess.Pgn.Tags.{cut_at}
use plywise.Chess.San.{text_eq}
use plywise.Chess.Square.{codes, Text}
use plywise.Prelude.Int.{ℤ, pos, negsuc, ◌+ℤ◌}
use plywise.Prelude.{
  zero, suc, ◌+◌, ◌*◌, Bool, false, ◌||◌, List, ◌∷◌, Option, none, some, ◌==◌, ltb, if◌then◌else◌,
}

abbrev pub thousandfold : ℤ → ℤ
thousandfold (pos n) = pos (1000 * n)
thousandfold (negsuc n) = negsuc (1000 * n + 999)

abbrev pub negated : ℤ → ℤ
negated (pos zero) = pos 0
negated (pos (suc n)) = negsuc n
negated (negsuc n) = pos (suc n)

unfoldable pub is_positive : ℤ → Bool
is_positive (pos n) = ltb 0 n
is_positive (negsuc n) = false

-- `std::max<std::int64_t>(0, ...)`.
unfoldable pub at_least_zero : ℤ → ℤ
at_least_zero (pos n) = pos n
at_least_zero (negsuc n) = pos 0

-- The time a move has taken, if the side's clock was known before.
unfoldable pub elapsed : ℤ → ℤ → ℤ → Option ℤ
elapsed previous increment_ms clock =
    if is_positive previous
    then some (at_least_zero (previous +ℤ increment_ms +ℤ negated clock))
    else none

-- The loop over the clocks: `previous[color]` for the side that moves, then for the other.
unfoldable pub with_clocks : ℤ → ℤ → ℤ → List Ply → List ℤ → List Ply
with_clocks increment_ms previous other (ply ∷ plies) (clock ∷ clocks) =
    record ply { clock_ms = some clock; elapsed_ms = elapsed previous increment_ms clock }
    ∷ with_clocks increment_ms other clock plies clocks
with_clocks increment_ms previous other plies clocks = plies

-- `stoll` returns nothing where the library's throws; one failure resets both numbers.
unfoldable pub time_control : (Text → Option ℤ) → Text → ℤ × ℤ
time_control stoll text =
    if token_empty text || text_eq text (codes "-")
    then (pos 0, pos 0)
    else elim (cut_at (λ c. c == b'+') text) [
      | none ↦ elim (stoll text) [ none ↦ (pos 0, pos 0) | some base ↦ (thousandfold base, pos 0) ]
      | some (front, behind) ↦ elim (stoll front) [
        | none ↦ (pos 0, pos 0)
        | some base ↦ elim (stoll behind) [
          | none ↦ (pos 0, pos 0)
          | some increment ↦ (thousandfold base, thousandfold increment)
        ]
      ]
    ]
