-- ===== src/Examples/Jobs.antt =====
-- The job manager: the theorems at concrete states, and tests of runs.
use plywise.App.Jobs.{
  Manager, Options, Job, JobStatus, queued, failed, Task, lookup, erase, update, take_task,
  runnable, queued_count, enqueue, promote, promote_queue, staying, moving, priority_index,
  preempt_historical, stop_historical,
}
use plywise.App.Jobs.Counted.{is_some, take_task-runnable}
use plywise.App.Jobs.Inputs.{Stored, Repository, read_inputs, recency_key, digits_of}
use plywise.App.Jobs.Start.{
  report_all, start_with_priority, start_finish, start_loop, sort_inputs, insert_sorted,
  find_existing, enqueue_all,
}
use plywise.App.Jobs.Work.{
  Begun, works, begin_work, fail_task, shallow_done, finish_task, cancel, is_stopped,
}
use plywise.App.Jobs.Work.Reached.{Reachable-IsSorted}
use plywise.App.Jobs.Work.Sorted.{IsSorted}
use plywise.App.Jobs.Work.Steps.{created, stepped, starts, no_jobs}
use plywise.Engine.Pool.{interactive, current_game, historical, entry, with_entry}
use plywise.Chess.Fen.{decimal}
use plywise.Chess.Square.{codes, Text}
use plywise.Errors.{ErrorCode, Result, ok, err, timeout, io_error, not_found}
use plywise.Json.{text_eq}
use plywise.Prelude.{
  ℕ, ◌≡◌, refl, true, false, List, [], ◌∷◌, ◌++◌, Option, none, some, ltb, ◌==◌, if◌then◌else◌, map,
}

abbrev two_workers : Options
two_workers = record { workers = 2; max_queued = 2; retry_limit = 1 }

-- A game that has not been analysed, played on that day of December.
abbrev game : ℕ → Stored
game day = record {
  game = record {
    tags = (codes "Date", codes "2024.12." ++ decimal day) ∷ [];
    source_pgn = [];
    plies = [];
    identity = [];
  };
  has_shallow = false;
  has_analysis = false;
  imported_at = codes "1";
}

-- The games 1 to 9 are stored; that one of them has been queued cannot be recorded for game 4.
abbrev stored_games : Repository
stored_games = record { get = stored; record_job_state = recorded }
  where
    stored : Text → Result (Option Stored)
    stored (n ∷ []) = if ltb n 10 then ok (some (game n)) else ok none
    stored _ = ok none

    recorded : Text → JobStatus → Result (Unit {0})
    recorded (n ∷ ns) queued = if n == 4 then err io_error else ok tt
    recorded _ _ = ok tt

abbrev one_started : Manager
one_started =
    (start_with_priority two_workers stored_games ((1 ∷ []) ∷ []) current_game (no_jobs false)).0

take_task-runnable_example :
    is_some (take_task two_workers one_started) ≡ runnable two_workers one_started
take_task-runnable_example = take_task-runnable two_workers one_started

-- The game that waits is asked for at a higher priority.
Reachable-IsSorted_example :
    IsSorted
      (start_with_priority two_workers stored_games ((1 ∷ []) ∷ []) interactive one_started).0
Reachable-IsSorted_example = Reachable-IsSorted two_workers (
    stepped (stepped (created false) (starts stored_games ((1 ∷ []) ∷ []) current_game))
      (starts stored_games ((1 ∷ []) ∷ []) interactive))

-- The start of a game by itself: what is thrown, and how many tasks wait.
abbrev ends_with : ℕ → Option ErrorCode × ℕ
ends_with n =
    ended (start_with_priority two_workers stored_games ((n ∷ []) ∷ []) historical one_started)
  where
    ended : Manager × Result (List ℕ) → Option ErrorCode × ℕ
    ended (m, ok ids) = (none, queued_count m)
    ended (m, err thrown) = (some thrown, queued_count m)

-- Game 3 is queued, game 4 too although an error is thrown, and game 12 is not stored.
ends_with_each :
    map ends_with (3 ∷ 4 ∷ 12 ∷ []) ≡ (none, 2) ∷ (some io_error, 2) ∷ (some not_found, 1) ∷ []
unfolding start_with_priority read_inputs report_all recency_key digits_of start_finish start_loop
    sort_inputs insert_sorted find_existing enqueue_all enqueue entry with_entry queued_count lookup
    preempt_historical text_eq
ends_with_each = refl

abbrev working : Begun → Manager
working (works m t) = m
working _ = no_jobs false

abbrev held : Begun → Task
held (works m t) = t
held _ = record { job_id = 0; deep = false; priority = historical; attempts = 0; cancellation = 0 }

abbrev status_of : Option Job → Option JobStatus
status_of none = none
status_of (some job) = some job.status

-- A running job is promoted from the current game, and both times that a worker has taken it the engine
-- finds its source stopped.
abbrev promoted_running : Manager
promoted_running = promote 1 interactive (working (begin_work two_workers one_started))

abbrev once : Manager
once = fail_task two_workers (held (begin_work two_workers one_started)) timeout promoted_running

abbrev taken_again : Begun
taken_again = begin_work two_workers once

still_stopped : is_stopped (held taken_again).cancellation (working taken_again).stopped ≡ true
unfolding start_with_priority read_inputs report_all recency_key digits_of start_finish start_loop
    sort_inputs insert_sorted find_existing enqueue_all enqueue promote promote_queue staying moving
    priority_index preempt_historical stop_historical begin_work take_task fail_task lookup update
    erase entry with_entry is_stopped queued_count
still_stopped = refl

promoted_failed :
    status_of
      (lookup 1 (fail_task two_workers (held taken_again) timeout (working taken_again)).jobs)
    ≡ some failed
unfolding start_with_priority read_inputs report_all recency_key digits_of start_finish start_loop
    sort_inputs insert_sorted find_existing enqueue_all enqueue promote promote_queue staying moving
    priority_index preempt_historical stop_historical begin_work take_task fail_task lookup update
    erase entry with_entry is_stopped queued_count
promoted_failed = refl

-- The deep task of a job is taken before the first worker has finished its shallow one.
abbrev deep_taken : Begun
deep_taken = begin_work two_workers (
    shallow_done (held (begin_work two_workers one_started))
      (working (begin_work two_workers one_started)))

abbrev shallow_finished : Manager
shallow_finished = finish_task 1 current_game (working deep_taken)

-- A cancellation does not reach the engine that runs.
not_reached :
    is_stopped (held deep_taken).cancellation (cancel 1 shallow_finished).0.stopped ≡ false
unfolding start_with_priority read_inputs report_all recency_key digits_of start_finish start_loop
    sort_inputs insert_sorted find_existing enqueue_all enqueue preempt_historical stop_historical
    begin_work take_task shallow_done finish_task cancel lookup update erase entry with_entry
    is_stopped queued_count
not_reached = refl
