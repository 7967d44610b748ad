-- ===== src/Chess/Make/RoundTrip.antt =====
-- Taking back a move restores the squares.
use plywise.Chess.Board.{Board, Move, has, read}
use plywise.Chess.Make.{
  king_side_rook, queen_side_rook, squares_after, squares_before, undo_of, captured_at, arriving,
  castle_rook, return_rook, transfer, behind,
}
use plywise.Chess.MoveFlag
use plywise.Chess.Piece.{Piece, pawn, color_eq, type_eq, type_index, is_empty, no_piece}
use plywise.Chess.Shape.{
  IsWellFormed, HasTarget, IsMover, RookMoves, MayPromote, NoCastle, Shape, plain, double,
  en_passant, king_castle, queen_castle,
}
use plywise.Prelude.{
  ℕ, ◌<◌, ◌≡◌, ◌≢◌, ◌⊎◌, true, false, arith, length, set, length-set, get_or-set, ◌==◌,
  if◌then◌else◌, List, set-set_self, set-set_comm, set-get_or_self, ◌∙◌, refl, sym, ap, inl, inr,
  Bool-cases,
}

pub read-set :
    (xs : List Piece) (i j : ℕ) (v : Piece)
    → length xs ≡ 64
    → i < 64
    → read (set xs i v) j ≡ (if i == j then v else read xs j)
read-set xs i j v n h = ground (arith, get_or-set xs i j v no_piece)

pub read-set_self :
    (xs : List Piece) (i : ℕ) (v : Piece) → length xs ≡ 64 → i < 64 → read (set xs i v) i ≡ v
read-set_self xs i v n h = ground (arith, read-set xs i i v)

pub read-set_ne : (xs : List Piece) (i j : ℕ) (v : Piece) → i ≢ j → read (set xs i v) j ≡ read xs j
read-set_ne xs i j v n = ground (arith, get_or-set xs i j v no_piece)

-- The target gets back what it held.
restore_target :
    (ys : List Piece) (t : ℕ) (c : Piece)
    → (is_empty c ≡ true → c ≡ no_piece)
    → (if is_empty c then set ys t no_piece else set (set ys t no_piece) t c) ≡ set ys t c
restore_target ys t c k = elim (Bool-cases (is_empty c)) [
  | inl e ↦ rw e (ap (set ys t) (sym (k e)))
  | inr e ↦ rw e (set-set_self ys t no_piece c)
]

-- Two squares written and written back.
undo_two :
    (xs : List Piece) (f t : ℕ) (u a r c : Piece)
    → f ≢ t
    → read xs f ≡ r
    → read xs t ≡ c
    → set (set (set (set xs f u) t a) f r) t c ≡ xs
undo_two xs f t u a r c n p q =
    ap (λ z. set z t c)
      (set-set_comm (set xs f u) t f a r (λ e. n (sym e))
        ∙ ap (λ z. set z t a)
            (set-set_self xs f u r ∙ ap (set xs f) (sym p) ∙ set-get_or_self xs f no_piece))
    ∙ set-set_self xs t a c
    ∙ ap (set xs t) (sym q)
    ∙ set-get_or_self xs t no_piece

-- A write moves in front of two writes elsewhere.
past_two :
    (ys : List Piece) (i j k : ℕ) (u v x : Piece)
    → i ≢ j
    → i ≢ k
    → set (set (set ys j u) k v) i x ≡ set (set (set ys i x) j u) k v
past_two ys i j k u v x n o =
    set-set_comm (set ys j u) k i v x (λ e. o (sym e))
    ∙ ap (λ z. set z k v) (set-set_comm ys j i u x (λ e. n (sym e)))

-- A rook moved and moved back.
rook_back :
    (xs : List Piece) (from to : ℕ)
    → from ≢ to
    → read xs to ≡ no_piece
    → set (set (set (set xs to (read xs from)) from no_piece) from (read xs from)) to no_piece ≡ xs
rook_back xs from to n e =
    ap (λ z. set z to no_piece)
      (set-set_self (set xs to (read xs from)) from no_piece (read xs from))
    ∙ set-set_comm (set xs to (read xs from)) from to (read xs from) no_piece n
    ∙ ap (λ z. set z from (read xs from))
        (set-set_self xs to (read xs from) no_piece
          ∙ ap (set xs to) (sym e)
          ∙ set-get_or_self xs to no_piece)
    ∙ set-get_or_self xs from no_piece

module _ (b : Board) (m : Move) (w : IsWellFormed b) (h : IsMover b m) where
  -- What stands on the target after the move turns back into the mover.
  unarrive :
      MayPromote b m
      → (if has m MoveFlag.promotion
          then record (arriving m (read b.squares m.from)) { type = pawn }
          else arriving m (read b.squares m.from))
        ≡ read b.squares m.from
  unfolding arriving type_eq type_index
  unarrive (inl p) = rw p
  unarrive (inr (p, t, _)) = rw p (ground arith)

  from-ne-to :
      (is_empty (read b.squares m.to) ≡ true)
        ⊎ (color_eq (read b.squares m.to).color b.side_to_move ≡ false)
      → m.from ≢ m.to
  from-ne-to l e = ground (arith, h.held, h.own, ap (read b.squares) e)

  -- The squares after the king, pawn or piece has moved, before a castling's rook does.
  abbrev arrived : List Piece → List Piece
  arrived xs = set (set xs m.from no_piece) m.to (arriving m (read b.squares m.from))

  read-arrived :
      (xs : List Piece)
      → length xs ≡ 64
      → read (arrived xs) m.to ≡ arriving m (read b.squares m.from)
  read-arrived xs n =
      read-set_self (set xs m.from no_piece) m.to _ (length-set xs m.from no_piece ∙ n) h.to_on

  plain_back :
      has m MoveFlag.en_passant ≡ false
      → NoCastle m
      → MayPromote b m
      → (is_empty (read b.squares m.to) ≡ true)
        ⊎ (color_eq (read b.squares m.to).color b.side_to_move ≡ false)
      → squares_before m (undo_of b m) (squares_after m (read b.squares m.from) b.squares)
        ≡ b.squares
  unfolding squares_before squares_after undo_of captured_at castle_rook return_rook
  plain_back e (k, q) p l =
      rw (e, k, q, read-arrived b.squares w.size, unarrive p)
        (restore_target _ m.to (read b.squares m.to) (w.canonical m.to)
          ∙ undo_two b.squares m.from m.to no_piece _ _ _ (from-ne-to l) refl refl)

  -- The colour that the mover shows is the side to move.
  pub mover_color : (read b.squares m.from).color ≡ b.side_to_move
  unfolding color_eq
  mover_color = ground (arith, h.own)

  en_passant_back :
      has m MoveFlag.en_passant ≡ true
      → NoCastle m
      → MayPromote b m
      → m.to ≡ b.en_passant
      → HasTarget b
      → squares_before m (undo_of b m) (squares_after m (read b.squares m.from) b.squares)
        ≡ b.squares
  unfolding squares_before squares_after undo_of captured_at castle_rook return_rook
  en_passant_back e (k, q) p t v =
      rw (e, k, q)
        (rw
          (
            read-arrived (set b.squares victim no_piece)
                (length-set b.squares victim no_piece ∙ w.size),
            unarrive p,
          )
          (rw victim_held (
            ap (λ z. set z victim (read b.squares victim)) back
            ∙ set-set_self b.squares victim no_piece (read b.squares victim)
            ∙ set-get_or_self b.squares victim no_piece)))
    where
      victim : ℕ
      victim = behind (read b.squares m.from).color m.to

      victim-eq : victim ≡ behind b.side_to_move b.en_passant
      victim-eq = rw (mover_color, t)

      victim_held : is_empty (read b.squares victim) ≡ false
      victim_held = rw victim-eq v.victim_held

      to_free : is_empty (read b.squares m.to) ≡ true
      to_free = rw t v.target_free

      victim-ne-to : victim ≢ m.to
      victim-ne-to x = ground (arith, victim_held, to_free, ap (read b.squares) x)

      victim-ne-from : victim ≢ m.from
      victim-ne-from x =
          ground (arith, h.own, v.victim_enemy, ap (read b.squares) (sym victim-eq ∙ x))

      rest : List Piece
      rest = set b.squares victim no_piece

      back : set (set (arrived rest) m.from (read b.squares m.from)) m.to no_piece ≡ rest
      back =
          undo_two rest m.from m.to no_piece _ _ _ (from-ne-to (inl to_free))
            (read-set_ne b.squares victim m.from no_piece victim-ne-from)
            (read-set_ne b.squares victim m.to no_piece victim-ne-to ∙ w.canonical m.to to_free)

  module _ {from to : ℕ} (r : RookMoves b m from to)
      (free : is_empty (read b.squares m.to) ≡ true) where
    rook_held : read (arrived b.squares) from ≡ read b.squares from
    rook_held =
        read-set_ne (set b.squares m.from no_piece) m.to from _ r.to_apart.0
        ∙ read-set_ne b.squares m.from from no_piece r.from_apart.0

    -- With the king back, only the rook is out of place.
    king_back :
        set
          (set (transfer (arrived b.squares) from to) m.from (read b.squares m.from))
          m.to
          no_piece
        ≡ set (set b.squares to (read b.squares from)) from no_piece
    unfolding transfer
    king_back = rw rook_held (
        ap (λ z. set z m.to no_piece)
          (past_two (arrived b.squares) m.from to from _ _ _ r.from_apart.1 r.from_apart.0)
        ∙ past_two _ m.to to from _ _ _ r.to_apart.1 r.to_apart.0
        ∙ ap (λ z. set (set z to (read b.squares from)) from no_piece)
            (undo_two b.squares m.from m.to no_piece _ _ _ (from-ne-to (inl free)) refl
              (w.canonical m.to free)))

    castle_back :
        transfer
          (set
            (set (transfer (arrived b.squares) from to) m.from (read b.squares m.from))
            m.to
            no_piece)
          to
          from
        ≡ b.squares
    unfolding transfer
    castle_back = rw king_back (
        rw
          (
            read-set_ne (set b.squares to (read b.squares from)) from to no_piece r.apart,
            read-set_self b.squares to (read b.squares from) w.size r.rook_to_on,
          )
          (rook_back b.squares from to r.apart (w.canonical to r.rook_to_free)))

    read-transfer :
        read (transfer (arrived b.squares) from to) m.to ≡ arriving m (read b.squares m.from)
    unfolding transfer
    read-transfer =
        read-set_ne _ from m.to no_piece (λ e. r.to_apart.0 (sym e))
        ∙ read-set_ne _ to m.to _ (λ e. r.to_apart.1 (sym e))
        ∙ read-arrived b.squares w.size

  king_castle_back :
      has m MoveFlag.en_passant ≡ false
      → has m MoveFlag.king_castle ≡ true
      → has m MoveFlag.promotion ≡ false
      → is_empty (read b.squares m.to) ≡ true
      → RookMoves b m
          (king_side_rook (read b.squares m.from).color).rook_from
          (king_side_rook (read b.squares m.from).color).rook_to
      → squares_before m (undo_of b m) (squares_after m (read b.squares m.from) b.squares)
        ≡ b.squares
  unfolding squares_before squares_after undo_of captured_at castle_rook return_rook
  king_castle_back e k p f r = rw (e, k, read-transfer r f, unarrive (inl p), f) (castle_back r f)

  queen_castle_back :
      has m MoveFlag.en_passant ≡ false
      → has m MoveFlag.king_castle ≡ false
      → has m MoveFlag.queen_castle ≡ true
      → has m MoveFlag.promotion ≡ false
      → is_empty (read b.squares m.to) ≡ true
      → RookMoves b m
          (queen_side_rook (read b.squares m.from).color).rook_from
          (queen_side_rook (read b.squares m.from).color).rook_to
      → squares_before m (undo_of b m) (squares_after m (read b.squares m.from) b.squares)
        ≡ b.squares
  unfolding squares_before squares_after undo_of captured_at castle_rook return_rook
  queen_castle_back e k q p f r =
      rw (e, k, q, read-transfer r f, unarrive (inl p), f) (castle_back r f)

  pub squares_back :
      Shape b m
      → squares_before m (undo_of b m) (squares_after m (read b.squares m.from) b.squares)
        ≡ b.squares
  squares_back (plain e d c p l) = plain_back e c p l
  squares_back (double e d c p f _ _) = plain_back e c (inl p) (inl f)
  squares_back (en_passant e d c p t v) = en_passant_back e c p t v
  squares_back (king_castle e d k p f r) = king_castle_back e k p f r
  squares_back (queen_castle e d k q p f r) = queen_castle_back e k q p f r
