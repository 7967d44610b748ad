-- ===== src/App/Jobs.antt =====
-- `JobManager`: include/pct/app/job_manager.hpp, src/app/job_manager.cpp. A critical section is a function
-- on the state. The progress and the error text of a job are left out, and so are the observers. Copies of
-- a `CancellationSource` share one flag, so a task holds the number of its source, and `stopped` lists the
-- sources that were asked to stop. A job's own source is a flag of the job.
pub mod Counted
pub mod Inputs
pub mod Start
pub mod Work
use plywise.Engine.Pool.{
  Priority, interactive, current_game, historical, PerPriority, entry, with_entry, up, down,
}
use plywise.Errors.{ErrorCode, Result, ok, err, invalid_argument, engine_error, timeout}
use plywise.Json.{Text, text_lt, text_eq}
use plywise.Prelude.{
  ℕ, suc, ◌+◌, ◌-◌, Bool, true, false, not, ◌&&◌, ◌||◌, List, [], ◌∷◌, ◌++◌, Option, none, some,
  length, ltb, leb, ◌==◌, if◌then◌else◌,
}

pub data JobStatus : Type 0 where
  queued running complete failed cancelled : JobStatus

pub record Options : Type 0 where
  pub workers : ℕ
  pub max_queued : ℕ
  pub retry_limit : ℕ

pub record Job : Type 0 where
  pub game_id : Text
  pub status : JobStatus
  pub stop_requested : Bool

pub record Task : Type 0 where
  pub job_id : ℕ
  pub deep : Bool
  pub priority : Priority
  pub attempts : ℕ
  pub cancellation : ℕ

pub record ActiveTask : Type 0 where
  pub priority : Priority
  pub cancellation : ℕ

-- The members that the mutex guards; a map is the list of its entries.
pub record Manager : Type 0 where
  pub jobs : List (ℕ × Job)
  pub queues : PerPriority (List Task)
  pub active_by_priority : PerPriority ℕ
  pub active_tasks : List (ℕ × ActiveTask)
  pub requested_priorities : List (ℕ × Priority)
  pub next_id : ℕ
  pub paused : Bool
  pub stopped : List ℕ
  pub next_source : ℕ

module _ {A : Type 0} where
  unfoldable pub lookup : ℕ → List (ℕ × A) → Option A
  lookup k [] = none
  lookup k ((j, a) ∷ rest) = let later = lookup k rest in if k == j then some a else later

  unfoldable pub erase : ℕ → List (ℕ × A) → List (ℕ × A)
  erase k [] = []
  erase k ((j, a) ∷ rest) = let later = erase k rest in if k == j then later else (j, a) ∷ later

  -- A change of the value at a key that is there.
  unfoldable pub update : ℕ → (A → A) → List (ℕ × A) → List (ℕ × A)
  update k f [] = []
  update k f ((j, a) ∷ rest) =
      let later = update k f rest in if k == j then (j, f a) ∷ rest else (j, a) ∷ later

abbrev pub add_new : {A : Type 0} → ℕ → A → Option A → List (ℕ × A) → List (ℕ × A)
add_new k a none entries = entries ++ (k, a) ∷ []
add_new k a (some b) entries = entries

-- `priority_index`.
unfoldable pub priority_index : Priority → ℕ
priority_index interactive = 0
priority_index current_game = 1
priority_index historical = 2

abbrev pub is_historical : Priority → Bool
is_historical historical = true
is_historical _ = false

unfoldable pub queued_count : Manager → ℕ
queued_count m =
    length m.queues.interactive + length m.queues.current_game + length m.queues.historical

abbrev pub is_empty : List Task → Bool
is_empty [] = true
is_empty (t ∷ ts) = false

unfoldable pub historical_limit : Options → ℕ
historical_limit o = if o.workers == 1 then 1 else o.workers - 1

-- `runnable_unlocked`.
unfoldable pub runnable : Options → Manager → Bool
runnable o m =
    not (is_empty m.queues.interactive)
    || not (is_empty m.queues.current_game)
    || (not (is_empty m.queues.historical)
        && ltb m.active_by_priority.historical (historical_limit o))

-- `enqueue_unlocked`.
unfoldable pub enqueue : Task → Manager → Manager
enqueue t m = record m {
  queues = with_entry m.queues t.priority (entry m.queues t.priority ++ t ∷ []);
}

abbrev pub request_stop : ℕ → Manager → Manager
request_stop source m = record m { stopped = source ∷ m.stopped }

-- Whether `promote_unlocked` moves a task.
abbrev pub is_promoted : ℕ → Priority → Task → Bool
is_promoted job_id priority t =
    t.job_id == job_id && ltb (priority_index priority) (priority_index t.priority)

unfoldable pub staying : ℕ → Priority → List Task → List Task
staying job_id priority [] = []
staying job_id priority (t ∷ ts) =
    let rest = staying job_id priority ts in
    if is_promoted job_id priority t then rest else t ∷ rest

unfoldable pub moving : ℕ → Priority → List Task → List Task
moving job_id priority [] = []
moving job_id priority (t ∷ ts) =
    let rest = moving job_id priority ts in
    if is_promoted job_id priority t then record t { priority = priority } ∷ rest else rest

-- The loop over one queue; its tasks that move stand in a queue of higher priority afterwards.
unfoldable pub promote_queue : ℕ → Priority → Priority → Manager → Manager
promote_queue job_id priority from m =
    let queue = entry m.queues from in
    let left = with_entry m.queues from (staying job_id priority queue) in
    record m {
      queues = with_entry left priority (entry left priority ++ moving job_id priority queue);
    }

abbrev pub stop_active : Priority → Option ActiveTask → Manager → Manager
stop_active priority none m = m
stop_active priority (some active) m =
    if ltb (priority_index priority) (priority_index active.priority)
    then request_stop active.cancellation m
    else m

abbrev pub promote_to : ℕ → Priority → Manager → Manager
promote_to job_id priority m = stop_active priority (lookup job_id m.active_tasks) (
    promote_queue job_id priority historical (
      promote_queue job_id priority current_game (
        promote_queue job_id priority interactive (record m {
          requested_priorities = update job_id (λ p. priority) m.requested_priorities;
        }))))

abbrev pub promote_if : Option Priority → ℕ → Priority → Manager → Manager
promote_if none job_id priority m = m
promote_if (some requested) job_id priority m =
    if leb (priority_index requested) (priority_index priority)
    then m
    else promote_to job_id priority m

-- `promote_unlocked`.
unfoldable pub promote : ℕ → Priority → Manager → Manager
promote job_id priority m = promote_if (lookup job_id m.requested_priorities) job_id priority m

unfoldable pub stop_historical : List (ℕ × ActiveTask) → Manager → Manager
stop_historical [] m = m
stop_historical ((k, active) ∷ rest) m =
    stop_historical rest
      (if is_historical active.priority then request_stop active.cancellation m else m)

-- `preempt_historical_unlocked`.
unfoldable pub preempt_historical : Options → Manager → Manager
preempt_historical o m =
    if not (o.workers == 1) || (is_empty m.queues.interactive && is_empty m.queues.current_game)
    then m
    else stop_historical m.active_tasks m

-- What a queue gives to `take_unlocked`, or else the queues after it.
abbrev pub take_from :
    Priority → List Task → Manager → Option (Manager × Task) → Option (Manager × Task)
take_from priority [] m later = later
take_from priority (t ∷ ts) m later = some (
  record m {
    queues = with_entry m.queues priority ts;
    active_by_priority =
        with_entry m.active_by_priority priority (up (entry m.active_by_priority priority));
  },
  t,
)

-- `take_unlocked`; it throws where there is no task.
unfoldable pub take_task : Options → Manager → Option (Manager × Task)
take_task o m = take_from interactive m.queues.interactive m (
    take_from current_game m.queues.current_game m (
      if leb (historical_limit o) m.active_by_priority.historical
      then none
      else take_from historical m.queues.historical m none))
