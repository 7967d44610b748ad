-- ===== src/Chess/Make/Restore.antt =====
-- `unmake_move` after `make_move`, on the whole board.
use plywise.Chess.Board.{Board, Move}
use plywise.Chess.Make.{make_move, unmake_move, is_refused, moved, record_hash, undo_of, pop_back}
use plywise.Chess.Make.RoundTrip.{squares_back}
use plywise.Chess.Piece.{opposite, Color, white, black}
use plywise.Chess.Shape.{IsWellFormed, IsMover, Shape}
use plywise.Chess.Hash.{compute_hash}
use plywise.Errors.{ok}
use plywise.Prelude.{
  ℕ, ◌<◌, ◌≡◌, refl, arith, length, length-append, List, [], ◌∷◌, ◌++◌, ltb, lt→ltb, ap,
  if◌then◌else◌,
}

pub opposite-opposite : (c : Color) → opposite (opposite c) ≡ c
unfolding opposite
opposite-opposite white = refl
opposite-opposite black = refl

pop_back-append : (xs : List ℕ) (x : ℕ) → pop_back (xs ++ x ∷ []) ≡ xs
unfolding pop_back
pop_back-append [] x = refl
pop_back-append (y ∷ []) x = refl
pop_back-append (y ∷ z ∷ zs) x = ap (◌∷◌ y) (pop_back-append (z ∷ zs) x)

history_back :
    (xs : List ℕ) (x : ℕ)
    → 0 < length xs
    → (if ltb 1 (length (xs ++ x ∷ [])) then pop_back (xs ++ x ∷ []) else xs ++ x ∷ []) ≡ xs
history_back xs x h =
    rw (lt→ltb 1 (length (xs ++ x ∷ [])) (omega (arith, length-append xs (x ∷ []))))
      (pop_back-append xs x)

module _ (b : Board) (m : Move) where
  -- A move of a piece that has the move, between squares of the board, is never refused.
  pub make_move-ok : IsMover b m → make_move b m ≡ ok (record_hash (moved b m), undo_of b m)
  unfolding make_move is_refused
  make_move-ok h = ground arith

  pub unmake-moved :
      IsWellFormed b
      → IsMover b m
      → Shape b m
      → unmake_move (record_hash (moved b m)) m (undo_of b m) ≡ b
  unfolding unmake_move record_hash moved undo_of
  unmake-moved w h s = λ i. record b {
    squares = squares_back b m w h s i;
    side_to_move = opposite-opposite b.side_to_move i;
    repetition_history = history_back b.repetition_history (compute_hash (moved b m)) w.history i;
  }
