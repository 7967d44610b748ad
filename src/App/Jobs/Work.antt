-- ===== src/App/Jobs/Work.antt =====
-- What the workers and the clients do with the jobs: src/app/job_manager.cpp. What the analyzer and the
-- repository do is an argument; `jobs_.at` of a job that is gone changes nothing here.
pub mod Steps
pub mod Sorted
pub mod Reached
use plywise.App.Jobs.{
  Manager, Options, Job, JobStatus, queued, running, complete, failed, cancelled, Task, ActiveTask,
  lookup, erase, update, enqueue, take_task, request_stop, is_historical,
}
use plywise.Engine.Pool.{Priority, PerPriority, entry, with_entry, up, down}
use plywise.Errors.{ErrorCode, engine_error, timeout}
use plywise.Prelude.{
  ℕ, ◌+◌, Bool, true, false, not, ◌&&◌, ◌||◌, List, [], ◌∷◌, Option, none, some, ltb, ◌==◌,
  if◌then◌else◌,
}

abbrev pub with_status : JobStatus → Job → Job
with_status status job = record job { status = status }

abbrev pub set_status : ℕ → JobStatus → Manager → Manager
set_status id status m = record m { jobs = update id (with_status status) m.jobs }

abbrev pub release : Priority → Manager → Manager
release priority m = record m {
  active_by_priority =
      with_entry m.active_by_priority priority (down (entry m.active_by_priority priority));
}

-- What a worker's first critical section ends with.
pub data Begun : Type 0 where
  no_task : Begun
  skipped : Manager → Begun
  works : Manager → Task → Begun

abbrev pub activate : Manager → Task → Manager
activate m t = record m {
  jobs = update t.job_id (with_status running) m.jobs;
  active_tasks =
      (t.job_id, record { priority = t.priority; cancellation = t.cancellation })
      ∷ erase t.job_id m.active_tasks;
}

abbrev pub is_cancelled : JobStatus → Bool
is_cancelled cancelled = true
is_cancelled _ = false

abbrev pub begin_job : Manager → Task → Option Job → Begun
begin_job m t none = skipped (release t.priority m)
begin_job m t (some job) =
    if is_cancelled job.status then skipped (release t.priority m) else works (activate m t) t

abbrev pub begin_task : Option (Manager × Task) → Begun
begin_task none = no_task
begin_task (some (m, t)) = begin_job m t (lookup t.job_id m.jobs)

-- The critical section of `work` after the wait.
unfoldable pub begin_work : Options → Manager → Begun
begin_work o m = begin_task (take_task o m)

unfoldable pub finish_task : ℕ → Priority → Manager → Manager
finish_task id priority m = release priority (record m { active_tasks = erase id m.active_tasks })

-- The deep task after a shallow analysis that was saved.
unfoldable pub shallow_done : Task → Manager → Manager
shallow_done t m =
    enqueue
      (record {
        job_id = t.job_id;
        deep = true;
        priority = t.priority;
        attempts = 0;
        cancellation = m.next_source;
      })
      (set_status t.job_id queued (record m { next_source = m.next_source + 1 }))

unfoldable pub analysis_done : Task → Manager → Manager
analysis_done t m = set_status t.job_id complete m

unfoldable pub is_stopped : ℕ → List ℕ → Bool
is_stopped source [] = false
is_stopped source (s ∷ ss) = source == s || is_stopped source ss

abbrev pub may_retry : ErrorCode → Bool
may_retry engine_error = true
may_retry timeout = true
may_retry _ = false

abbrev pub requested_or : Priority → Option Priority → Priority
requested_or priority none = priority
requested_or priority (some requested) = requested

abbrev pub resumed : Task → Manager → Manager
resumed t m =
    enqueue
      (record t {
        priority = requested_or t.priority (lookup t.job_id m.requested_priorities);
        cancellation = m.next_source;
      })
      (set_status t.job_id queued (record m { next_source = m.next_source + 1 }))

abbrev pub retried : Task → Manager → Manager
retried t m = enqueue (record t { attempts = t.attempts + 1 }) (set_status t.job_id queued m)

abbrev pub fail_job : Options → Task → ErrorCode → Manager → Option Job → Manager
fail_job o t code m none = m
fail_job o t code m (some job) =
    if job.stop_requested
    then set_status t.job_id cancelled m
    else if is_stopped t.cancellation m.stopped && is_historical t.priority
    then resumed t m
    else if may_retry code && ltb t.attempts o.retry_limit
    then retried t m
    else set_status t.job_id failed m

-- The handler of an `Error`.
unfoldable pub fail_task : Options → Task → ErrorCode → Manager → Manager
fail_task o t code m = fail_job o t code m (lookup t.job_id m.jobs)

-- The handler of any other exception.
unfoldable pub break_task : Task → Manager → Manager
break_task t m = set_status t.job_id failed m

abbrev pub is_over : JobStatus → Bool
is_over queued = false
is_over running = false
is_over _ = true

abbrev pub cancelled_if_queued : JobStatus → JobStatus
cancelled_if_queued queued = cancelled
cancelled_if_queued status = status

abbrev pub stop_task : Option ActiveTask → Manager → Manager
stop_task none m = m
stop_task (some active) m = request_stop active.cancellation m

abbrev pub cancel_job : ℕ → Manager → Option Job → Manager × Bool
cancel_job id m none = (m, false)
cancel_job id m (some job) = if is_over job.status then (m, false) else (
  stop_task (lookup id m.active_tasks) (record m {
    jobs =
        update id (λ j. record j { status = cancelled_if_queued j.status; stop_requested = true })
          m.jobs;
  }),
  true,
)

unfoldable pub cancel : ℕ → Manager → Manager × Bool
cancel id m = cancel_job id m (lookup id m.jobs)

abbrev pub pause : Manager → Manager
pause m = record m { paused = true }

abbrev pub resume : Manager → Manager
resume m = record m { paused = false }
