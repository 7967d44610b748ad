-- ===== src/Chess/Make/Loses.antt =====
-- En passant captures that `unmake_move` does not restore. `from_fen` takes any en passant target, and
-- `add_pawn_moves` tests only that the square attacked is the target.
use plywise.Chess.Board.{Board, Move, has, read}
use plywise.Chess.Make.{
  make_move, unmake_move, moved, record_hash, undo_of, squares_before, captured_at, return_rook,
  behind,
}
use plywise.Chess.Make.Keeps.{length-squares_after}
use plywise.Chess.Make.Restore.{make_move-ok}
use plywise.Chess.Make.RoundTrip.{read-set_self}
use plywise.Chess.MoveFlag
use plywise.Chess.Piece.{is_empty, no_piece, type_eq, type_index}
use plywise.Chess.Shape.{IsMover, NoCastle}
use plywise.Errors.{ok}
use plywise.Prelude.{◌≡◌, ◌≢◌, true, false, arith, length, length-set, ap, ◌∙◌}

module _ (b : Board) (m : Move) (size : length b.squares ≡ 64) (h : IsMover b m)
    (e : has m MoveFlag.en_passant ≡ true) (c : NoCastle m)
    (gone : is_empty (read b.squares (behind (read b.squares m.from).color m.to)) ≡ true) where
  abbrev taken_back : Board
  taken_back = unmake_move (record_hash (moved b m)) m (undo_of b m)

  moved_size : length (record_hash (moved b m)).squares ≡ 64
  unfolding record_hash moved
  moved_size = length-squares_after b m (read b.squares m.from) b.squares ∙ size

  -- With nothing recorded as captured, the target is left empty.
  target_emptied : read taken_back.squares m.to ≡ no_piece
  unfolding unmake_move squares_before undo_of captured_at return_rook
  target_emptied =
      rw (e, c.0, c.1, gone)
        (read-set_self _ m.to no_piece (length-set _ m.from _ ∙ moved_size) h.to_on)

  -- On 64 squares, an en passant move of the side to move onto an occupied square, with nothing on the
  -- square behind it, is made without
  -- an error; taking it back empties the target, so the position is not restored.
  pub unmake_move_loses :
      is_empty (read b.squares m.to) ≡ false
      → (make_move b m ≡ ok (record_hash (moved b m), undo_of b m))
        × (read taken_back.squares m.to ≡ no_piece)
        × (taken_back ≢ b)
  unfolding is_empty type_eq type_index
  unmake_move_loses held = (
    make_move-ok b m h,
    target_emptied,
    λ x. ground (arith, held, target_emptied, ap (λ (y : Board). read y.squares m.to) x),
  )
