-- ===== src/Chess.antt =====
-- The chess core: include/pct/chess, src/chess.
pub mod Piece
pub mod Square
pub mod MoveFlag
pub mod Board
pub mod Attack
pub mod Moves
pub mod Hash
pub mod Make
pub mod Shape
pub mod Legal
pub mod Fen
pub mod San
pub mod Material
pub mod Uci
pub mod Pgn
