-- ===== src/Chess/Pgn.antt =====
-- Games in PGN: src/chess/pgn.cpp, include/pct/chess/pgn.hpp.
pub mod Scan
pub mod Tags
pub mod Replay
pub mod Clocks
pub mod Game
pub mod Printed
pub mod Lines
pub mod Parsed
pub mod Marks
pub mod Notation
pub mod Tokens
pub mod Replayed
pub mod Tagged
pub mod TagText
pub mod TagValues
pub mod RoundTrip
pub mod Sections
pub mod TagFuel
