-- ===== src/Chess/Shape.antt =====
-- What a position must satisfy for moves to be taken back, and the shapes of the moves that the
-- generators of src/chess/board.cpp produce.
use plywise.Chess.Board.{Board, Move, has, read}
use plywise.Chess.Make.{behind, king_side_rook, queen_side_rook}
use plywise.Chess.MoveFlag
use plywise.Chess.Piece.{Piece, pawn, none, color_eq, type_eq, is_empty, no_piece}
use plywise.Chess.Square.{no_square}
use plywise.Prelude.{ℕ, ◌+◌, ◌<◌, ◌/◌, ◌≡◌, ◌≢◌, ◌⊎◌, true, false, length}

-- The square behind the en passant target holds a piece of the opponent, and the target is free.
pub record HasTarget (b : Board) : Type 0 where
  pub target_on : b.en_passant < 64
  pub target_free : is_empty (read b.squares b.en_passant) ≡ true
  pub victim_on : behind b.side_to_move b.en_passant < 64
  pub victim_held : is_empty (read b.squares (behind b.side_to_move b.en_passant)) ≡ false
  pub victim_enemy :
      color_eq (read b.squares (behind b.side_to_move b.en_passant)).color b.side_to_move ≡ false

pub record IsWellFormed (b : Board) : Type 0 where
  pub size : length b.squares ≡ 64
  -- An empty square holds `Piece{}`, whose colour is white.
  pub canonical : (i : ℕ) → is_empty (read b.squares i) ≡ true → read b.squares i ≡ no_piece
  pub target : (b.en_passant ≡ no_square) ⊎ HasTarget b
  pub history : 0 < length b.repetition_history

-- The mover stands on `from` and has the move.
pub record IsMover (b : Board) (m : Move) : Type 0 where
  pub from_on : m.from < 64
  pub to_on : m.to < 64
  pub held : is_empty (read b.squares m.from) ≡ false
  pub own : color_eq (read b.squares m.from).color b.side_to_move ≡ true

-- Only a pawn is promoted, and to a piece.
abbrev pub MayPromote : Board → Move → Type 0
MayPromote b m =
    (has m MoveFlag.promotion ≡ false)
    ⊎ ((has m MoveFlag.promotion ≡ true)
        × (type_eq (read b.squares m.from).type pawn ≡ true)
        × (type_eq m.promotion none ≡ false))

-- A castling's rook moves between squares that the king does not touch.
pub record RookMoves (b : Board) (m : Move) (rook_from rook_to : ℕ) : Type 0 where
  pub rook_from_on : rook_from < 64
  pub rook_to_on : rook_to < 64
  pub rook_held : is_empty (read b.squares rook_from) ≡ false
  pub rook_to_free : is_empty (read b.squares rook_to) ≡ true
  pub apart : rook_from ≢ rook_to
  pub from_apart : (m.from ≢ rook_from) × (m.from ≢ rook_to)
  pub to_apart : (m.to ≢ rook_from) × (m.to ≢ rook_to)

abbrev pub NoCastle : Move → Type 0
NoCastle m = (has m MoveFlag.king_castle ≡ false) × (has m MoveFlag.queen_castle ≡ false)

pub data Shape (b : Board) (m : Move) : Type 0 where
  -- To a free square or onto a piece of the opponent.
  plain :
      has m MoveFlag.en_passant ≡ false
      → has m MoveFlag.double_pawn_push ≡ false
      → NoCastle m
      → MayPromote b m
      → (is_empty (read b.squares m.to) ≡ true)
        ⊎ (color_eq (read b.squares m.to).color b.side_to_move ≡ false)
      → Shape b m
  -- A pawn's double step: the square passed and the square behind it from the other side.
  double :
      has m MoveFlag.en_passant ≡ false
      → has m MoveFlag.double_pawn_push ≡ true
      → NoCastle m
      → has m MoveFlag.promotion ≡ false
      → is_empty (read b.squares m.to) ≡ true
      → is_empty (read b.squares ((m.from + m.to) / 2)) ≡ true
      → ((m.from + m.to) / 2 ≢ m.to)
        × (behind (Piece.color (read b.squares m.from)) m.to ≡ (m.from + m.to) / 2)
      → Shape b m
  en_passant :
      has m MoveFlag.en_passant ≡ true
      → has m MoveFlag.double_pawn_push ≡ false
      → NoCastle m
      → MayPromote b m
      → m.to ≡ b.en_passant
      → HasTarget b
      → Shape b m
  king_castle :
      has m MoveFlag.en_passant ≡ false
      → has m MoveFlag.double_pawn_push ≡ false
      → has m MoveFlag.king_castle ≡ true
      → has m MoveFlag.promotion ≡ false
      → is_empty (read b.squares m.to) ≡ true
      → RookMoves b m
          (king_side_rook (read b.squares m.from).color).rook_from
          (king_side_rook (read b.squares m.from).color).rook_to
      → Shape b m
  queen_castle :
      has m MoveFlag.en_passant ≡ false
      → has m MoveFlag.double_pawn_push ≡ false
      → has m MoveFlag.king_castle ≡ false
      → has m MoveFlag.queen_castle ≡ true
      → has m MoveFlag.promotion ≡ false
      → is_empty (read b.squares m.to) ≡ true
      → RookMoves b m
          (queen_side_rook (read b.squares m.from).color).rook_from
          (queen_side_rook (read b.squares m.from).color).rook_to
      → Shape b m
