-- ===== src/Chess/Moves/Shapes.antt =====
-- Every pseudo-legal move is accepted by `make_move` and has a shape that can be taken back.
use plywise.Chess.Board.{Board, read}
use plywise.Chess.Moves.{
  moves_by_type, moves_from, squares_from, pseudo_legal_moves, bishop_directions, rook_directions,
  add_sliding_moves,
}
use plywise.Chess.Moves.Castles.{add_king_moves-Fits}
use plywise.Chess.Moves.Pawns.{add_pawn_moves-Fits}
use plywise.Chess.Moves.Steps.{
  Fits, Stands, append_each-All, add_knight_moves-Fits, add_sliding_moves-Fits,
}
use plywise.Chess.Piece.{
  PieceType, none, pawn, knight, bishop, rook, queen, king, color_eq, type_eq, type_index, is_empty,
}
use plywise.Chess.Shape.{IsWellFormed}
use plywise.Prelude.{
  ℕ, zero, suc, ◌+◌, ◌<◌, ◌≤◌, ◌≡◌, refl, inl, inr, arith, All, All-append, Bool-cases,
}

squares_from-lt : (n start : ℕ) → start + n ≤ 64 → All (λ s. s < 64) (squares_from n start)
unfolding squares_from
squares_from-lt zero start h = tt
squares_from-lt (suc n) start h = (omega arith, squares_from-lt n (start + 1) (omega arith))

module _ (b : Board) (w : IsWellFormed b) (from : ℕ) (s : Stands b from) where
  moves_by_type-Fits :
      (t : PieceType)
      → (read b.squares from).type ≡ t
      → All (Fits b) (moves_by_type t b from (read b.squares from))
  unfolding moves_by_type
  moves_by_type-Fits pawn e = add_pawn_moves-Fits b from s (unfold type_eq type_index in rw e) w
  moves_by_type-Fits knight e = add_knight_moves-Fits b from s
  moves_by_type-Fits bishop e = add_sliding_moves-Fits b from s bishop_directions
  moves_by_type-Fits rook e = add_sliding_moves-Fits b from s rook_directions
  moves_by_type-Fits queen e =
      All-append (Fits b) (add_sliding_moves b from (read b.squares from) bishop_directions) _
        (add_sliding_moves-Fits b from s bishop_directions)
        (add_sliding_moves-Fits b from s rook_directions)
  moves_by_type-Fits king e = add_king_moves-Fits b from s
  moves_by_type-Fits none e = tt

moves_from-Fits :
    (b : Board) → IsWellFormed b → (from : ℕ) → from < 64 → All (Fits b) (moves_from b from)
unfolding moves_from
moves_from-Fits b w from h = elim (Bool-cases (is_empty (read b.squares from))) [
  | inl free ↦ rw free tt
  | inr held ↦ rw held (elim (Bool-cases (color_eq (read b.squares from).color b.side_to_move)) [
    | inr enemy ↦ rw enemy tt
    | inl own ↦ rw own (
        moves_by_type-Fits b w from (record { on = h; held = held; own = own })
          (read b.squares from).type refl)
  ])
]

pub pseudo_legal_moves-Fits : (b : Board) → IsWellFormed b → All (Fits b) (pseudo_legal_moves b)
unfolding pseudo_legal_moves
pseudo_legal_moves-Fits b w =
    append_each-All (Fits b) (λ s. s < 64) (moves_from b) (squares_from 64 0) (moves_from-Fits b w)
      (squares_from-lt 64 0 (omega arith))
