-- ===== src/Chess/Legal/Filter.antt =====
-- `legal_moves` filters the pseudo-legal moves and leaves the board as it was.
use plywise.Chess.Attack.{in_check}
use plywise.Chess.Board.{Board, Move}
use plywise.Chess.Legal.{legal_loop, legal_moves}
use plywise.Chess.Make.{moved, record_hash}
use plywise.Chess.Make.Restore.{make_move-ok, unmake-moved, opposite-opposite}
use plywise.Chess.Moves.{pseudo_legal_moves}
use plywise.Chess.Moves.Shapes.{pseudo_legal_moves-Fits}
use plywise.Chess.Moves.Steps.{Fits}
use plywise.Chess.Piece.{opposite}
use plywise.Chess.Shape.{IsWellFormed}
use plywise.Errors.{ok}
use plywise.Prelude.{
  Bool, true, false, not, ◌≡◌, refl, List, [], ◌∷◌, ◌++◌, All, if◌then◌else◌, ◌∙◌, ap, inl, inr,
  Bool-cases,
}
use mathlib.Core.List.{append-nil, append_assoc}

-- The position after a move.
abbrev pub after_move : Board → Move → Board
after_move b m = record_hash (moved b m)

-- The move does not leave the mover's own king in check.
abbrev pub is_safe : Board → Move → Bool
is_safe b m = not (in_check (after_move b m) b.side_to_move)

-- The moves that are safe, in order.
abbrev pub safe_moves : Board → List Move → List Move
safe_moves b [] = []
safe_moves b (m ∷ ms) = if is_safe b m then m ∷ safe_moves b ms else safe_moves b ms

pub safe_moves-All :
    (b : Board) (P : Move → Type 0) (ms : List Move) → All P ms → All P (safe_moves b ms)
safe_moves-All b P [] h = tt
safe_moves-All b P (m ∷ ms) h = elim (Bool-cases (is_safe b m)) [
  | inl s ↦ rw s (h.0, safe_moves-All b P ms h.1)
  | inr s ↦ rw s (safe_moves-All b P ms h.1)
]

keep_append :
    (t : Bool) (m : Move) (legal rest : List Move)
    → (if t then legal ++ m ∷ [] else legal) ++ rest ≡ legal ++ (if t then m ∷ rest else rest)
keep_append true m legal rest = append_assoc legal (m ∷ []) rest
keep_append false m legal rest = refl

module _ (b : Board) (w : IsWellFormed b) where
  side_after : (m : Move) → opposite (after_move b m).side_to_move ≡ b.side_to_move
  unfolding record_hash moved
  side_after m = opposite-opposite b.side_to_move

  legal_loop-safe_moves :
      (ms legal : List Move)
      → All (Fits b) ms
      → legal_loop ms b legal ≡ ok (b, legal ++ safe_moves b ms)
  unfolding legal_loop
  legal_loop-safe_moves [] legal h = rw append-nil
  legal_loop-safe_moves (m ∷ ms) legal ((mv, s), h) =
      rw (make_move-ok b m mv, unmake-moved b m w mv s, side_after m)
        (legal_loop-safe_moves ms (if is_safe b m then legal ++ m ∷ [] else legal) h
          ∙ ap (λ l. ok (b, l)) (keep_append (is_safe b m) m legal (safe_moves b ms)))

  -- On a well-formed position `legal_moves` throws nothing, returns exactly the pseudo-legal moves
  -- that do not leave the mover's king in check, in the generator's order, and leaves the board as
  -- it was, hash and history included.
  pub legal_moves-safe_moves : legal_moves b ≡ ok (b, safe_moves b (pseudo_legal_moves b))
  unfolding legal_moves
  legal_moves-safe_moves =
      legal_loop-safe_moves (pseudo_legal_moves b) [] (pseudo_legal_moves-Fits b w)
