-- ===== src/Chess/Moves/Pawns.antt =====
-- The moves of pawns have the shapes of a plain move, a double step or an en passant capture.
use Prim.Native.Nat.{bit_or}
use plywise.Chess.Attack.{side_files}
use plywise.Chess.Board.{Board, has, read}
use plywise.Chess.Make.{behind}
use plywise.Chess.MoveFlag
use plywise.Chess.Moves.{
  mk_move, add_pawn_move, add_pawn_capture, add_pawn_pushes, add_pawn_moves, pawn_step, double_step,
  start_rank,
}
use plywise.Chess.Moves.Geometry.{make_square-on_board, one_white, one_black, two_white, two_black}
use plywise.Chess.Moves.Steps.{
  Fits, Stands, Lands, mover, quiet-Fits, capture-Fits, lands, append_each-All, All-Unit,
}
use plywise.Chess.Piece.{
  Color, white, black, PieceType, pawn, none, queen, rook, bishop, knight, color_eq, type_eq,
  type_index, is_empty,
}
use plywise.Chess.Shape.{IsWellFormed, HasTarget, plain, double, en_passant}
use plywise.Chess.Square.{file_of, rank_of, on_board, make_square}
use plywise.Prelude.Int.{ℤ, ◌+ℤ◌}
use plywise.Prelude.{
  ℕ, ◌+◌, ◌/◌, ◌<◌, ◌≡◌, ◌≢◌, refl, inl, inr, true, false, not, ◌&&◌, [], ◌∷◌, arith, All,
  All-append, if◌then◌else◌, Bool-cases, ◌==◌,
}

-- The squares of a double step from the start rank.
record DoubleStep (color : Color) (from : ℕ) (one two : ℕ) : Type 0 where
  two_on : two < 64
  between : (from + two) / 2 ≡ one
  ne_two : (from + two) / 2 ≢ two
  behind_two : behind color two ≡ (from + two) / 2

abbrev forward : Color → ℕ → ℕ
forward color from = make_square (file_of from) (rank_of from +ℤ pawn_step color)

abbrev two_forward : Color → ℕ → ℕ
two_forward color from = make_square (file_of from) (rank_of from +ℤ double_step color)

double_step_lem :
    (color : Color) (from : ℕ)
    → from < 64
    → from / 8 ≡ start_rank color
    → DoubleStep color from (forward color from) (two_forward color from)
unfolding behind
double_step_lem white from h e = omega (arith, one_white from h, two_white from h)
double_step_lem black from h e = omega (arith, one_black from h, two_black from h)

-- What a pawn's move needs, promoting and not.
abbrev PawnFits : Board → ℕ → ℕ → ℕ → Type 0
PawnFits b from to flags =
    Fits b (mk_move from to none flags)
    × ((t : PieceType)
        → type_eq t none ≡ false
        → Fits b (mk_move from to t (bit_or flags MoveFlag.promotion)))

module _ (b : Board) (from : ℕ) (s : Stands b from)
    (p : type_eq (read b.squares from).type pawn ≡ true) where
  add_pawn_move-Fits :
      (color : Color) (to flags : ℕ)
      → PawnFits b from to flags
      → All (Fits b) (add_pawn_move from color to flags)
  unfolding add_pawn_move type_eq type_index
  add_pawn_move-Fits color to flags (f, g) =
      elim (Bool-cases (to / 8 == elim color [ white ↦ 7 | black ↦ 0 ])) [
        | inl last ↦ rw last (g queen refl, (g rook refl, (g bishop refl, (g knight refl, tt))))
        | inr inside ↦ rw inside (f, tt)
      ]

  quiet-PawnFits : (to : ℕ) → to < 64 → Lands b to → PawnFits b from to MoveFlag.quiet
  unfolding has
  quiet-PawnFits to h l = (
    quiet-Fits b from s to h l,
    λ t n. (mover b from s to t 32 h, plain refl refl (refl, refl) (inr (refl, p, n)) l),
  )

  capture-PawnFits : (to : ℕ) → to < 64 → Lands b to → PawnFits b from to MoveFlag.capture
  unfolding has
  capture-PawnFits to h l = (
    capture-Fits b from s to h l,
    λ t n. (mover b from s to t 33 h, plain refl refl (refl, refl) (inr (refl, p, n)) l),
  )

  en_passant-PawnFits :
      (to : ℕ)
      → to < 64
      → to ≡ b.en_passant
      → HasTarget b
      → PawnFits b from to (bit_or MoveFlag.capture MoveFlag.en_passant)
  unfolding has
  en_passant-PawnFits to h e v = (
    (mover b from s to none 17 h, en_passant refl refl (refl, refl) (inl refl) e v),
    λ t n. (mover b from s to t 49 h, en_passant refl refl (refl, refl) (inr (refl, p, n)) e v),
  )

  module _ (w : IsWellFormed b) where
    target_is_set : (to : ℕ) → to < 64 → to ≡ b.en_passant → HasTarget b
    target_is_set to h e = elim w.target [ inl x ↦ absurd (omega arith) | inr v ↦ v ]

    add_pawn_capture-Fits :
        (file rank : ℤ)
        → All (Fits b) (add_pawn_capture b from (read b.squares from).color file rank)
    unfolding add_pawn_capture
    add_pawn_capture-Fits file rank = elim (Bool-cases (on_board file rank)) [
      | inr off ↦ rw off tt
      | inl on ↦ rw on (on_square (make_square-on_board file rank on).0)
    ]
      where
        to : ℕ
        to = make_square file rank

        mine : Color
        mine = (read b.squares from).color

        at_target :
            to < 64
            → All (Fits b) (
                if to == b.en_passant
                then add_pawn_move from mine to (bit_or MoveFlag.capture MoveFlag.en_passant)
                else [])
        at_target h = elim (Bool-cases (to == b.en_passant)) [
          | inr other ↦ rw other tt
          | inl here ↦ rw here (
              add_pawn_move-Fits mine to 17
                (en_passant-PawnFits to h (ground arith) (target_is_set to h (ground arith))))
        ]

        on_square :
            to < 64
            → All (Fits b) (
                if not (is_empty (read b.squares to))
                  && not (color_eq (read b.squares to).color mine)
                then add_pawn_move from mine to MoveFlag.capture
                else if to == b.en_passant
                then add_pawn_move from mine to (bit_or MoveFlag.capture MoveFlag.en_passant)
                else [])
        on_square h = elim (Bool-cases (is_empty (read b.squares to))) [
          | inl free ↦ rw free (at_target h)
          | inr held ↦ rw held (elim (Bool-cases (color_eq (read b.squares to).color mine)) [
            | inl own ↦ rw own (at_target h)
            | inr enemy ↦
                rw enemy
                  (add_pawn_move-Fits mine to 1 (capture-PawnFits to h (lands b from s to enemy)))
          ])
        ]

    add_pawn_pushes-Fits :
        on_board (file_of from) (rank_of from +ℤ pawn_step (read b.squares from).color) ≡ true
        → All (Fits b) (add_pawn_pushes b from (read b.squares from).color)
    unfolding add_pawn_pushes
    add_pawn_pushes-Fits on = elim (Bool-cases (is_empty (read b.squares one))) [
      | inr held ↦ rw held tt
      | inl free ↦ rw free (
          All-append (Fits b) (add_pawn_move from mine one MoveFlag.quiet) _
            (add_pawn_move-Fits mine one 0
              (quiet-PawnFits one (make_square-on_board _ _ on).0 (inl free)))
            (second free))
    ]
      where
        mine : Color
        mine = (read b.squares from).color

        one : ℕ
        one = forward mine from

        two : ℕ
        two = two_forward mine from

        double_Fits :
            is_empty (read b.squares one) ≡ true
            → is_empty (read b.squares two) ≡ true
            → DoubleStep mine from one two
            → Fits b (mk_move from two none MoveFlag.double_pawn_push)
        double_Fits f g d =
            unfold has in
            (
              mover b from s two none 2 d.two_on,
              double refl refl (refl, refl) refl g (rw d.between f) (d.ne_two, d.behind_two),
            )

        second :
            is_empty (read b.squares one) ≡ true
            → All (Fits b) (
                if from / 8 == start_rank mine && is_empty (read b.squares two)
                then mk_move from two none MoveFlag.double_pawn_push ∷ []
                else [])
        second f = elim (Bool-cases (from / 8 == start_rank mine)) [
          | inr other ↦ rw other tt
          | inl start ↦ rw start (elim (Bool-cases (is_empty (read b.squares two))) [
            | inr held ↦ rw held tt
            | inl free ↦
                rw free (double_Fits f free (double_step_lem mine from s.on (ground arith)), tt)
          ])
        ]

    pub add_pawn_moves-Fits : All (Fits b) (add_pawn_moves b from (read b.squares from))
    unfolding add_pawn_moves
    add_pawn_moves-Fits = elim (Bool-cases (on_board (file_of from) next)) [
      | inr off ↦ rw off tt
      | inl on ↦ rw on (
          All-append (Fits b) (add_pawn_pushes b from (read b.squares from).color) _
            (add_pawn_pushes-Fits on)
            (append_each-All (Fits b) (λ _. Unit {0}) _ side_files
              (λ d _. add_pawn_capture-Fits (file_of from +ℤ d) next) (All-Unit side_files)))
    ]
      where
        next : ℤ
        next = rank_of from +ℤ pawn_step (read b.squares from).color
