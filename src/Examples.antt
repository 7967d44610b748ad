-- ===== src/Examples.antt =====
-- Concrete positions, tests of the definitions on them, and the theorems at inputs that meet their
-- hypotheses.
mod Positions
mod Chess
mod Notation
mod Engine
mod Training
mod Json
mod Storage
mod Jobs
mod Pgn
mod Service
