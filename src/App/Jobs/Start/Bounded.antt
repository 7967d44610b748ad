-- ===== src/App/Jobs/Start/Bounded.antt =====
-- What a start leaves, by how it ends: src/app/job_manager.cpp.
use plywise.App.Jobs.{Manager, Options, Job, queued_count}
use plywise.App.Jobs.Inputs.{Input, Repository}
use plywise.App.Jobs.Start.Created.{AreAsked}
use plywise.Errors.{Result, ErrorCode, ok, err, invalid_argument, not_found}
use plywise.Json.{Text}
use plywise.Prelude.{ℕ, ◌≡◌, ◌≤◌, ◌<◌, ◌+◌, ◌⊎◌, List, none, Among, length}

-- A game that was asked for cannot be read, or is not there.
abbrev pub IsUnread : Repository → ErrorCode → Text → Type 0
IsUnread r thrown game_id =
    (r.get game_id ≡ err thrown) ⊎ ((r.get game_id ≡ ok none) × (thrown ≡ not_found))

-- How a start ends: with what it leaves of the manager, and what it returns or throws.
pub data IsWithin (o : Options) (r : Repository) (game_ids : List Text) (m : Manager)
    : Manager × Result (List ℕ) → Type 0 where
  not_read :
      {thrown : ErrorCode} {game_id : Text}
      → Among game_id game_ids
      → IsUnread r thrown game_id
      → IsWithin o r game_ids m (m, err thrown)
  refused :
      {after : Manager}
      → o.max_queued < queued_count m + length game_ids
      → queued_count after ≡ queued_count m
      → IsWithin o r game_ids m (after, err invalid_argument)
  not_reported :
      {after : Manager} {thrown : ErrorCode} (job : Job)
      → Among job.game_id game_ids
      → r.record_job_state job.game_id job.status ≡ err thrown
      → queued_count after ≤ o.max_queued
      → queued_count after ≤ queued_count m + length game_ids
      → IsWithin o r game_ids m (after, err thrown)
  returned :
      {after : Manager} {ids : List ℕ}
      → queued_count after ≤ o.max_queued
      → queued_count after ≤ queued_count m + length game_ids
      → length ids ≡ length game_ids
      → IsWithin o r game_ids m (after, ok ids)

-- What the loop over the games has read, or the game at which it stopped.
abbrev Read : Repository → List Text → Result (List Input) → Type 0
Read r game_ids (ok inputs) = (length inputs ≡ length game_ids) × AreAsked game_ids inputs
Read r game_ids (err thrown) = (game_id : Text) × Among game_id game_ids × IsUnread r thrown game_id

abbrev Reported : Repository → List Text → Result (Unit {0}) → Type 0
Reported r game_ids (ok done) = Unit
Reported r game_ids (err thrown) =
    (job : Job) × Among job.game_id game_ids
    × (r.record_job_state job.game_id job.status ≡ err thrown)
