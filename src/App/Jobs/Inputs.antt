-- ===== src/App/Jobs/Inputs.antt =====
-- What `start_with_priority` reads of the games before its critical section: src/app/job_manager.cpp. The
-- repository is the interface `IRepository` (include/pct/app/repository.hpp), an argument; its calls may throw.
use plywise.App.Jobs.{JobStatus}
use plywise.Chess.Fen.{is_digit}
use plywise.Chess.Pgn.Game.{Game, tag}
use plywise.Chess.Square.{codes, Text}
use plywise.Errors.{Result, ok, err, not_found, ◌>>=◌}
use plywise.Prelude.{List, [], ◌∷◌, ◌++◌, Option, none, some, Bool, if◌then◌else◌}

-- `StoredGame`, of the analyses whether there is one, and `imported_at_ms` in decimal digits.
pub record Stored : Type 0 where
  pub game : Game
  pub has_shallow : Bool
  pub has_analysis : Bool
  pub imported_at : Text

pub record Repository : Type 0 where
  pub get : Text → Result (Option Stored)
  pub record_job_state : Text → JobStatus → Result (Unit {0})

pub record Input : Type 0 where
  pub game_id : Text
  pub has_shallow : Bool
  pub is_complete : Bool
  pub recency : Text

unfoldable pub digits_of : Text → Text
digits_of [] = []
digits_of (c ∷ cs) = let rest = digits_of cs in if is_digit c then c ∷ rest else rest

abbrev pub or_if_empty : Text → Text → Text
or_if_empty [] other = other
or_if_empty (c ∷ cs) other = c ∷ cs

-- The digits of the date and time of the game, or else the time of its import.
unfoldable pub recency_key : Stored → Text
recency_key stored =
    let date = or_if_empty (tag stored.game (codes "UTCDate")) (tag stored.game (codes "Date")) in
    or_if_empty (digits_of (date ++ tag stored.game (codes "UTCTime"))) stored.imported_at

-- A game that is not stored is an error.
abbrev pub input_of : Text → Option Stored → Result Input
input_of game_id none = err not_found
input_of game_id (some stored) = ok (record {
  game_id = game_id;
  has_shallow = stored.has_shallow;
  is_complete = stored.has_analysis;
  recency = recency_key stored;
})

-- The loop over the games that were asked for.
unfoldable pub read_inputs : Repository → List Text → Result (List Input)
read_inputs repository [] = ok []
read_inputs repository (game_id ∷ game_ids) = do
  stored ← repository.get game_id
  input ← input_of game_id stored
  inputs ← read_inputs repository game_ids
  ok (input ∷ inputs)
