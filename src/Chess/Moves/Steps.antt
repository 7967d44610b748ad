-- ===== src/Chess/Moves/Steps.antt =====
-- The moves of knights, sliding pieces and the king's single steps have the plain shape.
use plywise.Chess.Board.{Board, Move, has, read}
use plywise.Chess.Attack.{Offset, knight_offsets}
use plywise.Chess.MoveFlag
use plywise.Chess.Moves.{
  mk_move, add_move, add_step, slide, slide_fuel, append_each, add_knight_moves, add_sliding_moves,
}
use plywise.Chess.Moves.Geometry.{make_square-on_board}
use plywise.Chess.Piece.{Piece, PieceType, none, color_eq, is_empty, no_piece}
use plywise.Chess.Shape.{IsMover, Shape, plain}
use plywise.Chess.Square.{file_of, rank_of, on_board, make_square}
use plywise.Prelude.Int.{ℤ, ◌+ℤ◌}
use plywise.Prelude.{
  ℕ, zero, suc, ◌<◌, ◌≡◌, refl, ◌⊎◌, inl, inr, true, false, List, [], ◌∷◌, arith, All, All-append,
  Bool-cases,
}

-- A move that `make_move` accepts, of one of the shapes that can be taken back.
abbrev pub Fits : Board → Move → Type 0
Fits b m = IsMover b m × Shape b m

-- If all that the loop appends for each item satisfies P, all that it appends does.
pub append_each-All :
    {A : Type 0} (P : Move → Type 0) (Q : A → Type 0) (f : A → List Move) (xs : List A)
    → ((a : A) → Q a → All P (f a))
    → All Q xs
    → All P (append_each f xs)
unfolding append_each
append_each-All P Q f [] h k = tt
append_each-All P Q f (x ∷ xs) h k =
    All-append P (f x) (append_each f xs) (h x k.0) (append_each-All P Q f xs h k.1)

pub All-Unit : {A : Type 0} (xs : List A) → All (λ _. Unit {0}) xs
All-Unit [] = tt
All-Unit (x ∷ xs) = (tt, All-Unit xs)

-- The piece on `from` has the move.
pub record Stands (b : Board) (from : ℕ) : Type 0 where
  pub on : from < 64
  pub held : is_empty (read b.squares from) ≡ false
  pub own : color_eq (read b.squares from).color b.side_to_move ≡ true

abbrev pub Lands : Board → ℕ → Type 0
Lands b to =
    (is_empty (read b.squares to) ≡ true)
    ⊎ (color_eq (read b.squares to).color b.side_to_move ≡ false)

module _ (b : Board) (from : ℕ) (s : Stands b from) where
  pub mover : (to : ℕ) (t : PieceType) (flags : ℕ) → to < 64 → IsMover b (mk_move from to t flags)
  mover to t flags h = record { from_on = s.on; to_on = h; held = s.held; own = s.own }

  pub quiet-Fits : (to : ℕ) → to < 64 → Lands b to → Fits b (mk_move from to none MoveFlag.quiet)
  unfolding has
  quiet-Fits to h l = (mover to none 0 h, plain refl refl (refl, refl) (inl refl) l)

  pub capture-Fits :
      (to : ℕ) → to < 64 → Lands b to → Fits b (mk_move from to none MoveFlag.capture)
  unfolding has
  capture-Fits to h l = (mover to none 1 h, plain refl refl (refl, refl) (inl refl) l)

  pub add_move-Fits :
      (to : ℕ) (held : Piece) → to < 64 → Lands b to → All (Fits b) (add_move from to held)
  unfolding add_move
  add_move-Fits to held h l = elim (Bool-cases (is_empty held)) [
    | inl e ↦ rw e (quiet-Fits to h l, tt)
    | inr e ↦ rw e (capture-Fits to h l, tt)
  ]

  -- A piece of another colour than the mover's is the opponent's.
  pub lands :
      (to : ℕ) → color_eq (read b.squares to).color (read b.squares from).color ≡ false → Lands b to
  unfolding color_eq
  lands to h = inr (ground (arith, s.own))

  pub add_step-Fits : (o : Offset) → All (Fits b) (add_step b from (read b.squares from) o)
  unfolding add_step
  add_step-Fits o = elim (Bool-cases (on_board file rank)) [
    | inr off ↦ rw off tt
    | inl on ↦ rw on (elim (Bool-cases (is_empty (read b.squares to))) [
      | inl free ↦ rw free (add_move-Fits to _ (make_square-on_board file rank on).0 (inl free))
      | inr taken ↦
          rw taken
            (elim (Bool-cases (color_eq (read b.squares to).color (read b.squares from).color)) [
              | inl mine ↦ rw mine tt
              | inr enemy ↦
                  rw enemy
                    (add_move-Fits to _ (make_square-on_board file rank on).0 (lands to enemy))
            ])
    ])
  ]
    where
      file : ℤ
      file = file_of from +ℤ o.0

      rank : ℤ
      rank = rank_of from +ℤ o.1

      to : ℕ
      to = make_square file rank

  pub slide-Fits :
      (fuel : ℕ) (d : Offset) (file rank : ℤ)
      → All (Fits b) (slide fuel b from (read b.squares from) d file rank)
  unfolding slide
  slide-Fits zero d file rank = tt
  slide-Fits (suc fuel) d file rank =
      let to = make_square file rank in
      elim (Bool-cases (on_board file rank)) [
        | inr off ↦ rw off tt
        | inl on ↦ rw on (elim (Bool-cases (is_empty (read b.squares to))) [
          | inl free ↦ rw free (
              All-append (Fits b) (add_move from to no_piece) _
                (add_move-Fits to no_piece (make_square-on_board file rank on).0 (inl free))
                (slide-Fits fuel d (file +ℤ d.0) (rank +ℤ d.1)))
          | inr taken ↦
              rw taken
                (elim (Bool-cases
                  (color_eq (read b.squares to).color (read b.squares from).color)) [
                    | inl mine ↦ rw mine tt
                    | inr enemy ↦
                        rw enemy (
                          add_move-Fits to _ (make_square-on_board file rank on).0 (lands to enemy))
                  ])
        ])
      ]

  pub add_knight_moves-Fits : All (Fits b) (add_knight_moves b from (read b.squares from))
  unfolding add_knight_moves
  add_knight_moves-Fits =
      append_each-All (Fits b) (λ _. Unit {0}) _ knight_offsets (λ o _. add_step-Fits o)
        (All-Unit knight_offsets)

  pub add_sliding_moves-Fits :
      (ds : List Offset) → All (Fits b) (add_sliding_moves b from (read b.squares from) ds)
  unfolding add_sliding_moves
  add_sliding_moves-Fits ds =
      append_each-All (Fits b) (λ _. Unit {0}) _ ds
        (λ d _. slide-Fits slide_fuel d (file_of from +ℤ d.0) (rank_of from +ℤ d.1)) (All-Unit ds)
