-- ===== src/Chess/Make.antt =====
-- `Board::make_move` and `Board::unmake_move`: src/chess/board.cpp.
pub mod RoundTrip
pub mod Restore
pub mod Loses
pub mod Rights
pub mod Keeps
use Prim.Native.Nat.{bit_and}
use plywise.Chess.Board.{Board, Move, Undo, has, read}
use plywise.Chess.Hash.{compute_hash}
use plywise.Chess.MoveFlag
use plywise.Chess.Piece.{
  Color, white, black, Piece, pawn, king, color_eq, type_eq, is_empty, opposite, no_piece,
}
use plywise.Chess.Square.{no_square}
use plywise.Errors.{Result, ok, err, illegal_move}
use plywise.Prelude.{
  ℕ, ◌+◌, ◌/◌, ◌%◌, Bool, not, ◌||◌, List, [], ◌∷◌, ◌++◌, leb, ◌==◌, if◌then◌else◌, set, length,
  ltb,
}

-- Where the captured pawn stands: one rank behind the target, as a `uint8_t`.
unfoldable pub behind : Color → ℕ → ℕ
behind white to = (to + 248) % 256
behind black to = (to + 8) % 256

-- The squares between which a castling moves the rook.
pub record RookPath : Type 0 where
  pub rook_from : ℕ
  pub rook_to : ℕ

-- h1 f1, h8 f8.
unfoldable pub king_side_rook : Color → RookPath
king_side_rook white = record { rook_from = 7; rook_to = 5 }
king_side_rook black = record { rook_from = 63; rook_to = 61 }

-- a1 d1, a8 d8.
unfoldable pub queen_side_rook : Color → RookPath
queen_side_rook white = record { rook_from = 0; rook_to = 3 }
queen_side_rook black = record { rook_from = 56; rook_to = 59 }

-- `squares_[to] = squares_[from]; squares_[from] = Piece{};`
unfoldable pub transfer : List Piece → ℕ → ℕ → List Piece
transfer squares from to = set (set squares to (read squares from)) from no_piece

unfoldable pub castle_rook : Move → Color → List Piece → List Piece
unfolding transfer
castle_rook m color squares =
    if has m MoveFlag.king_castle
    then transfer squares (king_side_rook color).rook_from (king_side_rook color).rook_to
    else if has m MoveFlag.queen_castle
    then transfer squares (queen_side_rook color).rook_from (queen_side_rook color).rook_to
    else squares

unfoldable pub return_rook : Move → Color → List Piece → List Piece
unfolding transfer
return_rook m color squares =
    if has m MoveFlag.king_castle
    then transfer squares (king_side_rook color).rook_to (king_side_rook color).rook_from
    else if has m MoveFlag.queen_castle
    then transfer squares (queen_side_rook color).rook_to (queen_side_rook color).rook_from
    else squares

-- The castling rights after the move, each test in the source's order.
unfoldable pub rights_king : Piece → ℕ → ℕ
rights_king moving rights =
    if type_eq moving.type king
    then elim moving.color [ white ↦ bit_and rights 252 | black ↦ bit_and rights 243 ]
    else rights

unfoldable pub rights_corner : Move → ℕ → ℕ → ℕ → ℕ
rights_corner m corner mask rights =
    if m.from == corner || m.to == corner then bit_and rights mask else rights

unfoldable pub rights_after : Move → Piece → ℕ → ℕ
unfolding rights_king rights_corner
rights_after m moving rights = rights_corner m 63 251 (
    rights_corner m 56 247
      (rights_corner m 7 254 (rights_corner m 0 253 (rights_king moving rights))))

-- What `make_move` records of the capture.
unfoldable pub captured_at : Move → Piece → ℕ
captured_at m moving = if has m MoveFlag.en_passant then behind moving.color m.to else m.to

unfoldable pub arriving : Move → Piece → Piece
arriving m moving =
    if has m MoveFlag.promotion then record moving { type = m.promotion } else moving

-- The writes to `squares_`, in order.
unfoldable pub squares_after : Move → Piece → List Piece → List Piece
squares_after m moving squares =
    let taken =
      if has m MoveFlag.en_passant
      then set squares (behind moving.color m.to) no_piece
      else squares in
    castle_rook m moving.color (set (set taken m.from no_piece) m.to (arriving m moving))

unfoldable pub is_refused : Board → Move → Bool
is_refused b m =
    leb 64 m.from
    || leb 64 m.to
    || is_empty (read b.squares m.from)
    || not (color_eq (read b.squares m.from).color b.side_to_move)

unfoldable pub undo_of : Board → Move → Undo
undo_of b m =
    let square = captured_at m (read b.squares m.from) in
    record {
      captured = read b.squares square;
      captured_square = square;
      en_passant = b.en_passant;
      castling_rights = b.castling_rights;
      halfmove_clock = b.halfmove_clock;
      fullmove_number = b.fullmove_number;
      hash = b.hash;
    }

-- The new position, all but its hash and history.
unfoldable pub moved : Board → Move → Board
moved b m =
    let moving = read b.squares m.from in
    let undo = undo_of b m in
    record b {
      squares = squares_after m moving b.squares;
      side_to_move = opposite b.side_to_move;
      castling_rights = rights_after m moving b.castling_rights;
      en_passant = if has m MoveFlag.double_pawn_push then (m.from + m.to) / 2 else no_square;
      halfmove_clock =
          if type_eq moving.type pawn || not (is_empty undo.captured)
          then 0
          else (b.halfmove_clock + 1) % 65536;
      fullmove_number = elim b.side_to_move [
        | white ↦ b.fullmove_number
        | black ↦ (b.fullmove_number + 1) % 65536
      ];
    }

-- `hash_ = compute_hash(); repetition_history_.push_back(hash_);`
unfoldable pub record_hash : Board → Board
record_hash b = record b {
  hash = compute_hash b;
  repetition_history = b.repetition_history ++ compute_hash b ∷ [];
}

unfoldable pub make_move : Board → Move → Result (Board × Undo)
unfolding is_refused moved record_hash squares_after arriving castle_rook rights_after undo_of
    captured_at
make_move b m =
    if is_refused b m then err illegal_move else ok (record_hash (moved b m), undo_of b m)

unfoldable pub pop_back : List ℕ → List ℕ
pop_back [] = []
pop_back (x ∷ []) = []
pop_back (x ∷ y ∷ ys) = x ∷ pop_back (y ∷ ys)

-- The writes of `unmake_move` to `squares_`, in order.
unfoldable pub squares_before : Move → Undo → List Piece → List Piece
squares_before m undo squares =
    let arrived = read squares m.to in
    let moving = if has m MoveFlag.promotion then record arrived { type = pawn } else arrived in
    let back = set (set squares m.from moving) m.to no_piece in
    return_rook m moving.color
      (if is_empty undo.captured then back else set back undo.captured_square undo.captured)

unfoldable pub unmake_move : Board → Move → Undo → Board
unfolding pop_back squares_before return_rook
unmake_move b m undo = record b {
  squares = squares_before m undo b.squares;
  side_to_move = opposite b.side_to_move;
  castling_rights = undo.castling_rights;
  en_passant = undo.en_passant;
  halfmove_clock = undo.halfmove_clock;
  fullmove_number = undo.fullmove_number;
  hash = undo.hash;
  repetition_history =
      if ltb 1 (length b.repetition_history)
      then pop_back b.repetition_history
      else b.repetition_history;
}
