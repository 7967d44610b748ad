-- ===== src/Chess/Moves/Castles.antt =====
-- The king's moves, castlings included, have the shapes of a plain move or of a castling.
use plywise.Chess.Attack.{king_offsets, in_check}
use plywise.Chess.Board.{Board, has, read}
use plywise.Chess.Make.{king_side_rook, queen_side_rook}
use plywise.Chess.MoveFlag
use plywise.Chess.Moves.{
  mk_move, append_each, add_step, add_castle, add_castles, add_king_moves, may_castle, all_of,
  Castle, castle_of, king_home,
}
use plywise.Chess.Moves.Steps.{Fits, Stands, mover, add_step-Fits, append_each-All, All-Unit}
use plywise.Chess.Piece.{
  Color, white, black, none, piece_eq, color_eq, type_eq, type_index, is_empty,
}
use plywise.Chess.Shape.{king_castle, queen_castle}
use plywise.Prelude.{
  ℕ, ◌≡◌, refl, inl, inr, true, false, ◌++◌, arith, All, All-append, Bool-cases, ◌==◌, ==_iff,
}

-- What the tests of a castling leave known.
record MayCastle (b : Board) (color : Color) (c : Castle) : Type 0 where
  between_free : all_of (λ s. is_empty (read b.squares s)) c.between ≡ true
  rook_there : is_empty (read b.squares c.rook_from) ≡ false

may_castle-MayCastle :
    (b : Board) (color : Color) (c : Castle) → may_castle b color c ≡ true → MayCastle b color c
unfolding may_castle piece_eq is_empty color_eq type_eq type_index
may_castle-MayCastle b color c h = record { between_free = ground arith; rook_there = ground arith }

module _ (b : Board) (from : ℕ) (s : Stands b from) where
  king_side_Fits :
      (color : Color)
      → from ≡ king_home color
      → (read b.squares from).color ≡ color
      → MayCastle b color (castle_of color 0)
      → Fits b (mk_move from (castle_of color 0).target none MoveFlag.king_castle)
  unfolding has all_of king_side_rook
  king_side_Fits white e k m = (
    mover b from s 6 none 4 (omega arith),
    king_castle refl refl refl refl (ground arith) (rw k (ground arith)),
  )
  king_side_Fits black e k m = (
    mover b from s 62 none 4 (omega arith),
    king_castle refl refl refl refl (ground arith) (rw k (ground arith)),
  )

  queen_side_Fits :
      (color : Color)
      → from ≡ king_home color
      → (read b.squares from).color ≡ color
      → MayCastle b color (castle_of color 1)
      → Fits b (mk_move from (castle_of color 1).target none MoveFlag.queen_castle)
  unfolding has all_of queen_side_rook
  queen_side_Fits white e k m = (
    mover b from s 2 none 8 (omega arith),
    queen_castle refl refl refl refl refl (ground arith) (rw k (ground arith)),
  )
  queen_side_Fits black e k m = (
    mover b from s 58 none 8 (omega arith),
    queen_castle refl refl refl refl refl (ground arith) (rw k (ground arith)),
  )

  add_castle-Fits :
      (color : Color) (c : Castle)
      → (MayCastle b color c → Fits b (mk_move from c.target none c.flag))
      → All (Fits b) (add_castle b color from c)
  unfolding add_castle
  add_castle-Fits color c f = elim (Bool-cases (may_castle b color c)) [
    | inr refused ↦ rw refused tt
    | inl allowed ↦ rw allowed (f (may_castle-MayCastle b color c allowed), tt)
  ]

  castles_Fits :
      (color : Color)
      → from ≡ king_home color
      → (read b.squares from).color ≡ color
      → All (Fits b) (
          add_castle b color from (castle_of color 0)
          ++ add_castle b color from (castle_of color 1))
  castles_Fits white e k =
      All-append (Fits b) (add_castle b white from (castle_of white 0)) _
        (add_castle-Fits white (castle_of white 0) (king_side_Fits white e k))
        (add_castle-Fits white (castle_of white 1) (queen_side_Fits white e k))
  castles_Fits black e k =
      All-append (Fits b) (add_castle b black from (castle_of black 0)) _
        (add_castle-Fits black (castle_of black 0) (king_side_Fits black e k))
        (add_castle-Fits black (castle_of black 1) (queen_side_Fits black e k))

  add_castles-Fits : All (Fits b) (add_castles b from (read b.squares from).color)
  unfolding add_castles
  add_castles-Fits = elim (Bool-cases (from == king_home mine)) [
    | inr elsewhere ↦ rw elsewhere tt
    | inl home ↦ rw home (elim (Bool-cases (in_check b mine)) [
      | inl checked ↦ rw checked tt
      | inr safe ↦ rw safe (castles_Fits mine ((==_iff from (king_home mine)).0 home) refl)
    ])
  ]
    where
      mine : Color
      mine = (read b.squares from).color

  pub add_king_moves-Fits : All (Fits b) (add_king_moves b from (read b.squares from))
  unfolding add_king_moves
  add_king_moves-Fits =
      All-append (Fits b) (append_each (add_step b from (read b.squares from)) king_offsets) _
        (append_each-All (Fits b) (λ _. Unit {0}) _ king_offsets (λ o _. add_step-Fits b from s o)
          (All-Unit king_offsets))
        add_castles-Fits
