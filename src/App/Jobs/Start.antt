-- ===== src/App/Jobs/Start.antt =====
-- `start_with_priority`: src/app/job_manager.cpp. The repository is an argument. `notify` catches what an
-- observer throws, so nothing of it is left here.
pub mod Bounded
pub mod Counts
pub mod Created
use plywise.App.Jobs.{
  Manager, Options, Job, JobStatus, queued, running, complete, failed, cancelled, Task, lookup,
  erase, add_new, queued_count, enqueue, promote, preempt_historical, is_historical,
}
use plywise.App.Jobs.Inputs.{Input, Repository, read_inputs}
use plywise.Engine.Pool.{Priority, up}
use plywise.Errors.{Result, ok, err, invalid_argument, ◌>>=◌}
use plywise.Json.{Text, text_lt, text_eq}
use plywise.Prelude.{
  ℕ, ◌+◌, Bool, true, false, not, ◌&&◌, ◌||◌, List, [], ◌∷◌, ◌++◌, Option, none, some, length, ltb,
  if◌then◌else◌,
}

-- The comparison of the sort: games that are not complete first, then the most recent.
unfoldable pub comes_before : Input → Input → Bool
comes_before left right =
    if (left.is_complete && not right.is_complete) || (not left.is_complete && right.is_complete)
    then not left.is_complete
    else text_lt right.recency left.recency

unfoldable pub insert_sorted : Input → List Input → List Input
insert_sorted x [] = x ∷ []
insert_sorted x (y ∷ ys) =
    let rest = insert_sorted x ys in if comes_before y x then y ∷ rest else x ∷ y ∷ ys

-- `std::stable_sort`.
unfoldable pub sort_inputs : List Input → List Input
sort_inputs [] = []
sort_inputs (x ∷ xs) = insert_sorted x (sort_inputs xs)

abbrev pub is_live : JobStatus → Bool
is_live failed = false
is_live cancelled = false
is_live _ = true

-- The first job of this game that is neither failed nor cancelled.
unfoldable pub find_existing : Text → List (ℕ × Job) → Option ℕ
find_existing game_id [] = none
find_existing game_id ((id, job) ∷ rest) =
    let later = find_existing game_id rest in
    if text_eq job.game_id game_id && is_live job.status then some id else later

-- The state, and the local vectors; of a result only its id.
pub record Starting : Type 0 where
  pub manager : Manager
  pub shallow_tasks : List Task
  pub deep_tasks : List Task
  pub created : List (ℕ × Job)
  pub results : List ℕ

abbrev pub task_of : Manager → Input → Priority → Task
task_of m input priority = record {
  job_id = m.next_id;
  deep = input.has_shallow;
  priority = priority;
  attempts = 0;
  cancellation = m.next_source;
}

abbrev pub new_job : Input → Job
new_job input = record {
  game_id = input.game_id;
  status = if input.is_complete then complete else queued;
  stop_requested = false;
}

abbrev pub with_job : Manager → Input → Priority → Manager
with_job m input priority = record m {
  next_id = up m.next_id;
  next_source = m.next_source + 1;
  jobs = add_new m.next_id (new_job input) (lookup m.next_id m.jobs) m.jobs;
  requested_priorities =
      add_new m.next_id priority (lookup m.next_id m.requested_priorities) m.requested_priorities;
}

abbrev pub create_job : Priority → Starting → Input → Starting
create_job priority s input =
    let m = s.manager in
    let t = task_of m input priority in
    record {
      manager = with_job m input priority;
      shallow_tasks =
          if not input.is_complete && not input.has_shallow
          then s.shallow_tasks ++ t ∷ []
          else s.shallow_tasks;
      deep_tasks =
          if not input.is_complete && input.has_shallow
          then s.deep_tasks ++ t ∷ []
          else s.deep_tasks;
      created = s.created ++ (m.next_id, new_job input) ∷ [];
      results = s.results ++ m.next_id ∷ [];
    }

abbrev pub promote_or_create : Priority → Starting → Input → Option ℕ → Starting
promote_or_create priority s input (some id) = record s {
  manager = promote id priority s.manager;
  results = s.results ++ id ∷ [];
}
promote_or_create priority s input none = create_job priority s input

-- The loop over the inputs.
unfoldable pub start_loop : Priority → Starting → List Input → Starting
start_loop priority s [] = s
start_loop priority s (input ∷ inputs) =
    start_loop priority
      (promote_or_create priority s input (find_existing input.game_id s.manager.jobs)) inputs

unfoldable pub erase_all : List (ℕ × Job) → Manager → Manager
erase_all [] m = m
erase_all ((id, job) ∷ created) m = erase_all created (record m { jobs = erase id m.jobs })

unfoldable pub enqueue_all : List Task → Manager → Manager
enqueue_all [] m = m
enqueue_all (t ∷ ts) m = enqueue_all ts (enqueue t m)

-- What follows the loop in the critical section.
unfoldable pub start_finish : Options → Priority → Starting → Manager × Result (List ℕ)
start_finish o priority s =
    let all = enqueue_all s.deep_tasks (enqueue_all s.shallow_tasks s.manager) in
    if ltb o.max_queued (queued_count s.manager + length s.shallow_tasks + length s.deep_tasks)
    then (erase_all s.created s.manager, err invalid_argument)
    else (if is_historical priority then all else preempt_historical o all, ok s.results)

abbrev pub starting : Manager → Starting
starting m = record { manager = m; shallow_tasks = []; deep_tasks = []; created = []; results = [] }

-- The loop after the critical section: the first call that throws ends it.
unfoldable pub report_all : Repository → List (ℕ × Job) → Result (Unit {0})
report_all repository [] = ok tt
report_all repository ((id, job) ∷ created) = do
  done ← repository.record_job_state job.game_id job.status
  report_all repository created

-- What follows the critical section; the tasks that it has queued stay.
abbrev pub start_reported :
    Repository → List (ℕ × Job) → Manager × Result (List ℕ) → Manager × Result (List ℕ)
start_reported repository created (m, err thrown) = (m, err thrown)
start_reported repository created (m, ok results) =
    (m, (do done ← report_all repository created; ok results))

-- What follows the reading of the games.
abbrev pub start_read :
    Options → Repository → Priority → Manager → Result (List Input) → Manager × Result (List ℕ)
start_read o repository priority m (err thrown) = (m, err thrown)
start_read o repository priority m (ok inputs) =
    let s = start_loop priority (starting m) (sort_inputs inputs) in
    start_reported repository s.created (start_finish o priority s)

unfoldable pub start_with_priority :
    Options → Repository → List Text → Priority → Manager → Manager × Result (List ℕ)
start_with_priority o repository game_ids priority m =
    start_read o repository priority m (read_inputs repository game_ids)
