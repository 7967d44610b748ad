-- ===== src/App/Jobs/Work/Steps.antt =====
-- What any thread may do next to the manager.
use plywise.App.Jobs.{Manager, Options, Task}
use plywise.App.Jobs.Inputs.{Repository}
use plywise.App.Jobs.Start.{start_with_priority}
use plywise.App.Jobs.Work.{
  works, skipped, begin_work, finish_task, shallow_done, analysis_done, fail_task, break_task,
  cancel, pause, resume,
}
use plywise.Engine.Pool.{Priority}
use plywise.Errors.{ErrorCode}
use plywise.Json.{Text}
use plywise.Prelude.{ℕ, ◌≡◌, List, [], Bool}

-- A critical section of a client or of a worker. Which task a worker holds is not tracked: it may end
-- any, so what holds of every sequence of these steps holds of those of the program.
pub data Step (o : Options) : Manager → Manager → Type 0 where
  starts :
      {m : Manager} (repository : Repository) (game_ids : List Text) (priority : Priority)
      → Step o m (start_with_priority o repository game_ids priority m).0
  cancels : {m : Manager} (id : ℕ) → Step o m (cancel id m).0
  pauses : {m : Manager} → Step o m (pause m)
  resumes : {m : Manager} → Step o m (resume m)
  begins : {m m' : Manager} (t : Task) → begin_work o m ≡ works m' t → Step o m m'
  skips : {m m' : Manager} → begin_work o m ≡ skipped m' → Step o m m'
  ends_shallow : {m : Manager} (t : Task) → Step o m (shallow_done t m)
  ends_deep : {m : Manager} (t : Task) → Step o m (analysis_done t m)
  fails : {m : Manager} (t : Task) (code : ErrorCode) → Step o m (fail_task o t code m)
  breaks : {m : Manager} (t : Task) → Step o m (break_task t m)
  finishes : {m : Manager} (id : ℕ) (priority : Priority) → Step o m (finish_task id priority m)

-- The manager with no jobs yet.
abbrev pub no_jobs : Bool → Manager
no_jobs paused = record {
  jobs = [];
  queues = record { interactive = []; current_game = []; historical = [] };
  active_by_priority = record { interactive = 0; current_game = 0; historical = 0 };
  active_tasks = [];
  requested_priorities = [];
  next_id = 1;
  paused = paused;
  stopped = [];
  next_source = 0;
}

pub data Reachable (o : Options) : Manager → Type 0 where
  created : (paused : Bool) → Reachable o (no_jobs paused)
  stepped : {m m' : Manager} → Reachable o m → Step o m m' → Reachable o m'
