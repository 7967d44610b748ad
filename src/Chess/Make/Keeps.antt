-- ===== src/Chess/Make/Keeps.antt =====
-- A move that fits a well-formed position leads to a well-formed position.
use plywise.Chess.Board.{Board, Move, has, read}
use plywise.Chess.Hash.{compute_hash}
use plywise.Chess.Make.{squares_after, castle_rook, transfer, arriving, moved, record_hash, behind}
use plywise.Chess.Make.RoundTrip.{mover_color, read-set_self, read-set_ne, read-set}
use plywise.Chess.MoveFlag
use plywise.Chess.Piece.{Color, white, black, Piece, opposite, color_eq, is_empty, no_piece}
use plywise.Chess.Shape.{
  IsWellFormed, HasTarget, IsMover, MayPromote, Shape, plain, double, en_passant, king_castle,
  queen_castle,
}
use plywise.Prelude.{
  ℕ, ◌+◌, ◌/◌, ◌<◌, ◌≡◌, ◌≢◌, refl, ◌⊎◌, inl, inr, true, false, Bool, List, [], ◌∷◌, arith, length,
  set, length-set, length-append, get_or-set, if◌then◌else◌, Bool-cases, sym, ◌∙◌,
}

-- Every empty square holds `Piece{}`.
abbrev pub Canonical : List Piece → Type 0
Canonical xs = (i : ℕ) → is_empty (read xs i) ≡ true → read xs i ≡ no_piece

pub Canonical-set :
    (xs : List Piece) (i : ℕ) (v : Piece)
    → (is_empty v ≡ true → v ≡ no_piece)
    → Canonical xs
    → Canonical (set xs i v)
Canonical-set xs i v h k j e = ground (arith, get_or-set xs i j v no_piece, h, k j)

Canonical-clear : (xs : List Piece) (i : ℕ) → Canonical xs → Canonical (set xs i no_piece)
Canonical-clear xs i = Canonical-set xs i no_piece (λ _. refl)

Canonical-transfer : (xs : List Piece) (i j : ℕ) → Canonical xs → Canonical (transfer xs i j)
unfolding transfer
Canonical-transfer xs i j c = Canonical-clear _ i (Canonical-set xs j (read xs i) (c i) c)

length-transfer : (xs : List Piece) (i j : ℕ) → length (transfer xs i j) ≡ length xs
unfolding transfer
length-transfer xs i j = length-set _ i no_piece ∙ length-set xs j (read xs i)

module _ (b : Board) (m : Move) where
  castle_rook-Canonical :
      (c : Color) (xs : List Piece) → Canonical xs → Canonical (castle_rook m c xs)
  unfolding castle_rook
  castle_rook-Canonical c xs k = elim (Bool-cases (has m MoveFlag.king_castle)) [
    | inl e ↦ rw e (Canonical-transfer xs _ _ k)
    | inr e ↦ rw e (elim (Bool-cases (has m MoveFlag.queen_castle)) [
      | inl q ↦ rw q (Canonical-transfer xs _ _ k)
      | inr q ↦ rw q k
    ])
  ]

  length-castle_rook : (c : Color) (xs : List Piece) → length (castle_rook m c xs) ≡ length xs
  unfolding castle_rook
  length-castle_rook c xs = elim (Bool-cases (has m MoveFlag.king_castle)) [
    | inl e ↦ rw e (length-transfer xs _ _)
    | inr e ↦ rw e (elim (Bool-cases (has m MoveFlag.queen_castle)) [
      | inl q ↦ rw q (length-transfer xs _ _)
      | inr q ↦ rw q refl
    ])
  ]

  pub length-squares_after :
      (p : Piece) (xs : List Piece) → length (squares_after m p xs) ≡ length xs
  unfolding squares_after
  length-squares_after p xs = elim (Bool-cases (has m MoveFlag.en_passant)) [
    | inl e ↦ rw (e, length-castle_rook, length-set, length-set, length-set)
    | inr e ↦ rw (e, length-castle_rook, length-set, length-set)
  ]

  -- A promotion does not turn the mover into nothing.
  promotes : IsMover b m → Shape b m → MayPromote b m
  promotes h (plain _ _ _ p _) = p
  promotes h (double _ _ _ p _ _ _) = inl p
  promotes h (en_passant _ _ _ p _ _) = p
  promotes h (king_castle _ _ _ p _ _) = inl p
  promotes h (queen_castle _ _ _ _ p _ _) = inl p

  arriving-held :
      IsMover b m → MayPromote b m → is_empty (arriving m (read b.squares m.from)) ≡ false
  unfolding arriving is_empty
  arriving-held h p = ground (arith, h.held)

  Canonical-squares_after :
      (xs : List Piece) (p : Piece)
      → is_empty (arriving m p) ≡ false
      → Canonical xs
      → Canonical (squares_after m p xs)
  unfolding squares_after
  Canonical-squares_after xs p f c = castle_rook-Canonical p.color _ (
      Canonical-set _ m.to (arriving m p) (λ e. ground arith)
        (Canonical-clear _ m.from (taken (has m MoveFlag.en_passant))))
    where
      taken : (e : Bool) → Canonical (if e then set xs (behind p.color m.to) no_piece else xs)
      taken true = Canonical-clear xs _ c
      taken false = c

-- Behind the square passed, seen from the other side, stands the pawn that passed it.
behind_passed :
    (color : Color) (to mid : ℕ)
    → to < 64
    → mid < 64
    → behind color to ≡ mid
    → behind (opposite color) mid ≡ to
unfolding behind opposite
behind_passed white to mid h k e = omega arith
behind_passed black to mid h k e = omega arith

opposite-ne : (a c : Color) → color_eq a c ≡ true → color_eq a (opposite c) ≡ false
unfolding color_eq opposite
opposite-ne a c h = ground arith

module _ (b : Board) (m : Move) (w : IsWellFormed b) (h : IsMover b m) where
  abbrev mid : ℕ
  mid = (m.from + m.to) / 2

  module _ (p : has m MoveFlag.promotion ≡ false) (free : is_empty (read b.squares mid) ≡ true)
      (d : (mid ≢ m.to) × (behind (read b.squares m.from).color m.to ≡ mid)) where
    abbrev stepped : List Piece
    stepped = set (set b.squares m.from no_piece) m.to (read b.squares m.from)

    mid_free : is_empty (read stepped mid) ≡ true
    unfolding is_empty
    mid_free =
        rw
          (read-set_ne (set b.squares m.from no_piece) m.to mid (read b.squares m.from)
            (λ e. d.0 (sym e)))
          (ground (arith, read-set b.squares m.from mid no_piece w.size h.from_on, free))

    mover_arrived : read stepped m.to ≡ read b.squares m.from
    mover_arrived =
        read-set_self (set b.squares m.from no_piece) m.to _
          (length-set b.squares m.from no_piece ∙ w.size) h.to_on

    mid_on : mid < 64
    mid_on = omega (arith, h.from_on, h.to_on)

    passed_from : behind (opposite b.side_to_move) mid ≡ m.to
    passed_from =
        rw (← mover_color b m w h)
          (behind_passed (read b.squares m.from).color m.to mid h.to_on mid_on d.1)

  target-moved : Shape b m → ((moved b m).en_passant ≡ 64) ⊎ HasTarget (moved b m)
  unfolding moved
  target-moved (plain _ e _ _ _) = inl (rw e)
  target-moved (en_passant _ e _ _ _ _) = inl (rw e)
  target-moved (king_castle _ e _ _ _ _) = inl (rw e)
  target-moved (queen_castle _ e _ _ _ _ _) = inl (rw e)
  target-moved (double e f c p g v d) = inr (
      unfold squares_after castle_rook arriving in
      rw (e, f, c.0, c.1, p)
        (record {
          target_on = mid_on p v d;
          target_free = mid_free p v d;
          victim_on = rw (passed_from p v d) h.to_on;
          victim_held = rw (passed_from p v d, mover_arrived p v d) h.held;
          victim_enemy = rw (passed_from p v d, mover_arrived p v d) (opposite-ne _ _ h.own);
        }))

  -- A move that fits leaves a position whose moves can be taken back in turn.
  pub moved-IsWellFormed : Shape b m → IsWellFormed (record_hash (moved b m))
  unfolding record_hash moved
  moved-IsWellFormed s = record {
    size = length-squares_after b m (read b.squares m.from) b.squares ∙ w.size;
    canonical =
        Canonical-squares_after b m b.squares (read b.squares m.from)
          (arriving-held b m h (promotes b m h s)) w.canonical;
    target = elim (target-moved s) [ inl e ↦ inl e | inr t ↦ inr (carry t) ];
    history = omega (arith, length-append {0} b.repetition_history (compute_hash (moved b m) ∷ []));
  }
    where
      carry : HasTarget (moved b m) → HasTarget (record_hash (moved b m))
      carry t = record {
        target_on = t.target_on;
        target_free = t.target_free;
        victim_on = t.victim_on;
        victim_held = t.victim_held;
        victim_enemy = t.victim_enemy;
      }
