-- ===== src/Lib.antt =====
-- Plywise: a verification library for the chess core, the engine pool, the event log, JSON, the job
-- manager, the training schedule and the keys of the token verifier.
--
-- The program imports chess games, replays them on its own board, analyses them with an engine and
-- keeps what it found. Everything it says of a game rests on the chess core:
-- the importer and the analyzer read positions with `Board::from_fen`, replay games with
-- `find_legal_move` and `make_move`, and walk variations with `legal_moves` and `unmake_move`.
--
-- The files, and the code that they model:
-- Prelude: the names of the library that the modules share, Boolean tests on numbers, list lemmas.
-- Errors: include/pct/common/error.hpp. `throw Error(code, ...)` is `err code`, without the message.
-- Chess.Piece, Chess.Square, Chess.MoveFlag, Chess.Board: the types of include/pct/chess/board.hpp and
-- the small functions of src/chess/board.cpp. A `Square` is a number; `squares_` is a list of 64 pieces.
-- Chess.Attack: `is_square_attacked` and `in_check`.
-- Chess.Moves: the generators and `pseudo_legal_moves`. A generator returns the moves that the source
-- appends to its vector. An `int` coordinate is an integer, so that a step may leave the board.
-- Chess.Hash: `mix`, `compute_hash` on 64-bit words and `repetition_count`.
-- Chess.Make: `make_move`, which returns the board and the undo record, and `unmake_move`.
-- Chess.Legal: `legal_moves`, `find_legal_move`, `perft`, `perft_stats`. The source changes the board and
-- changes it back; the model passes the board through every call and returns it.
-- Chess.Fen: `from_fen` and `to_fen` of src/chess/fen.cpp. A string is a list of character codes.
-- Chess.San: `to_san` and `parse_san` of src/chess/san.cpp; Chess.Material and Chess.Uci: `material` and
-- `uci` of src/chess/board.cpp.
-- Chess.Pgn: src/chess/pgn.cpp. Pgn.Scan: `strip_non_mainline` and the tests on tokens; Pgn.Tags: the loop
-- over the tags; Pgn.Replay: the loop over the moves; Pgn.Clocks, Pgn.Game: what `parse_pgn` does then;
-- Pgn.Printed: `canonical_pgn`. What reads the clocks and the numbers of the time control are arguments.
-- Engine.Pool: src/engine/pool.cpp. The critical sections are functions on the state of the pool, and
-- Engine.Pool.Steps is the relation of what any thread may do next, so that each order of the threads is
-- a sequence of steps. The lists of works that the threads hold stand for their local variables.
-- Training: `interval_after` of src/training/training.cpp; Training.Schedule: `schedule` and the hint
-- levels; Training.Queue: `review_queue`.
-- Json: src/common/json.cpp. Json.Lexer and Json.Parser: the recursive descent, as functions from the text
-- that is left to a value and what follows it; Json.Printer: `dump`; Json.Access: what a client takes out
-- of a value. A double is of any type, with `read` and `show` for the streams.
-- Storage.Bytes and Storage.EventLog: src/storage/event_log.cpp, on the bytes of the file: records and
-- their checksum, replay, recovery and `append`; Storage.EventLog.Compact: `compact`, which reads the keys
-- of the events with Json.Parser. How the writes of the operating system end is an argument.
-- App.Jobs: src/app/job_manager.cpp, the critical sections as functions on the state of the manager, a
-- start with what it reads before and records after, where the repository (an argument) may throw;
-- App.Jobs.Work.Steps is the relation of what any thread may do next.
-- Service.Base64 and Service.Keys: `decode_base64url` and the cache of the keys in
-- src/service/oidc_token_verifier.cpp; Service.Keys.Steps is the relation of what any thread may do next.
-- Chess.Shape: what a position satisfies for its moves to be taken back.
-- The files below each of these prove what is listed under Results; Examples holds the tests.
--
-- Bounds: the JSON parser has fuel for two calls for each byte and one more, which it never uses up
-- (Json.Parser.Total); replay has a round for each byte of the file (Storage.EventLog.Whole),
-- the loop over the tags of a PGN one for each character (Chess.Pgn.TagFuel), `review_queue` one for
-- each drill (Training.Queue.Totals). A line of squares is followed for at most eight steps, which is as
-- far as a line can stay on the board (Attack.Fuel and Moves.Fuel). Counters of `perft` wrap at 2^64, clocks at 2^16, squares at 2^8, as in
-- the source.
--
-- Not modelled: the text of error messages, the engine process, the repositories, the ingest manager, the
-- observers and the progress of jobs, the HTTP service but for what is named above, the import of games,
-- the analysis, the bitboards, and of the training the profile, the recommendations and the corpus. The
-- regular expression that reads clocks, the signatures of tokens and the doubles are the libraries'.
pub mod App
pub mod Chess
pub mod Engine
pub mod Errors
pub mod Examples
pub mod Json
pub mod Prelude
pub mod Service
pub mod Storage
pub mod Training
