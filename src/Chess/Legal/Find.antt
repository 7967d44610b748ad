-- ===== src/Chess/Legal/Find.antt =====
-- What `find_legal_move` returns.
use plywise.Chess.Board.{Board, Move, has}
use plywise.Chess.Legal.{find_move, find_legal_move}
use plywise.Chess.Legal.Filter.{legal_moves-safe_moves}
use plywise.Chess.Legal.Perft.{legal_list}
use plywise.Chess.MoveFlag
use plywise.Chess.Piece.{PieceType, type_eq}
use plywise.Chess.Shape.{IsWellFormed}
use plywise.Errors.{ok}
use plywise.Prelude.{
  ℕ, true, false, not, ◌&&◌, ◌||◌, ◌≡◌, refl, List, [], ◌∷◌, arith, ◌==◌, Option, none, some, inl,
  inr, Bool-cases, ◌⊎◌,
}

-- The squares are those asked for, and a promotion is to the piece asked for.
abbrev Asked : ℕ → ℕ → PieceType → Move → Type 0
Asked from to promotion m =
    (m.from ≡ from)
    × (m.to ≡ to)
    × ((has m MoveFlag.promotion ≡ false) ⊎ (type_eq m.promotion promotion ≡ true))

-- The first move of a list that is asked for, if there is one.
pub data FirstAsked (from to : ℕ) (promotion : PieceType) : List Move → Option Move → Type 0 where
  nothing : FirstAsked from to promotion [] none
  here :
      {m : Move} {ms : List Move}
      → Asked from to promotion m
      → FirstAsked from to promotion (m ∷ ms) (some m)
  later :
      {m : Move} {ms : List Move} {found : Option Move}
      → ¬ Asked from to promotion m
      → FirstAsked from to promotion ms found
      → FirstAsked from to promotion (m ∷ ms) found

find_move-FirstAsked :
    (from to : ℕ) (promotion : PieceType) (ms : List Move)
    → FirstAsked from to promotion ms (find_move from to promotion ms)
unfolding find_move
find_move-FirstAsked from to promotion [] = nothing
find_move-FirstAsked from to promotion (m ∷ ms) =
    elim (Bool-cases (
      m.from == from
      && m.to == to
      && (not (has m MoveFlag.promotion) || type_eq m.promotion promotion))) [
        | inl yes' ↦ rw yes' (here (ground arith, ground arith, ground arith))
        | inr no' ↦ rw no' (later (λ a. ground arith) (find_move-FirstAsked from to promotion ms))
      ]

-- On a well-formed position `find_legal_move` returns the first legal move between the two squares,
-- with the promotion asked for if it is one, and nothing if no legal move is so. The board is left as it
-- was.
pub find_legal_move-FirstAsked :
    (b : Board) (from to : ℕ) (promotion : PieceType)
    → IsWellFormed b
    → (found : Option Move) × (find_legal_move b from to promotion ≡ ok (b, found))
      × FirstAsked from to promotion (legal_list b) found
unfolding find_legal_move
find_legal_move-FirstAsked b from to promotion w = (
  find_move from to promotion (legal_list b),
  rw (legal_moves-safe_moves b w) refl,
  find_move-FirstAsked from to promotion (legal_list b),
)
