-- ===== src/App/Jobs/Work/Reached.antt =====
-- Every step keeps the tasks in the queues of their priorities.
use plywise.App.Jobs.{
  Manager, Options, Task, ActiveTask, Job, lookup, update, enqueue, stop_historical,
  preempt_historical, request_stop, is_historical, is_empty, take_task, take_from, historical_limit,
  queued_count, erase,
}
use plywise.App.Jobs.Inputs.{Input, Repository, read_inputs}
use plywise.App.Jobs.Start.{
  Starting, starting, start_loop, start_finish, start_with_priority, start_read, start_reported,
  sort_inputs, find_existing, promote_or_create, erase_all, enqueue_all,
}
use plywise.App.Jobs.Work.{
  Begun, works, skipped, no_task, begin_work, begin_task, begin_job, finish_task, shallow_done,
  analysis_done, fail_task, fail_job, break_task, cancel, cancel_job, stop_task, is_cancelled,
  is_over, is_stopped, may_retry, cancelled_if_queued,
}
use plywise.App.Jobs.Work.Steps.{
  Step, starts, cancels, pauses, resumes, begins, skips, ends_shallow, ends_deep, fails, breaks,
  finishes, Reachable, created, stepped,
}
use plywise.Engine.Pool.{Priority, interactive, current_game, historical}
use plywise.Prelude.{
  ℕ, Bool, true, not, ◌&&◌, ◌||◌, List, [], ◌∷◌, Option, none, some, All, ltb, leb, ◌==◌, if-cases,
  subst, length, ◌+◌,
}
use plywise.Errors.{ErrorCode, Result, ok, err}
use plywise.App.Jobs.Work.Sorted.{
  HasPriority, IsSorted, enqueue-IsSorted, promote-IsSorted, with_entry-AreSorted,
}

start_loop-IsSorted :
    (p : Priority) (s : Starting) (inputs : List Input)
    → IsSorted s.manager
    → IsSorted (start_loop p s inputs).manager
unfolding start_loop
start_loop-IsSorted p s [] h = h
start_loop-IsSorted p s (input ∷ inputs) h =
    start_loop-IsSorted p (promote_or_create p s input found) inputs (each_started found)
  where
    found : Option ℕ
    found = find_existing input.game_id s.manager.jobs

    each_started : (o : Option ℕ) → IsSorted (promote_or_create p s input o).manager
    each_started none = h
    each_started (some id) = promote-IsSorted id p s.manager h

enqueue_all-IsSorted : (ts : List Task) (m : Manager) → IsSorted m → IsSorted (enqueue_all ts m)
unfolding enqueue_all
enqueue_all-IsSorted [] m h = h
enqueue_all-IsSorted (t ∷ ts) m h = enqueue_all-IsSorted ts (enqueue t m) (enqueue-IsSorted t m h)

erase_all-IsSorted : (new : List (ℕ × Job)) (m : Manager) → IsSorted m → IsSorted (erase_all new m)
unfolding erase_all
erase_all-IsSorted [] m h = h
erase_all-IsSorted ((id, job) ∷ new) m h =
    erase_all-IsSorted new (record m { jobs = erase id m.jobs }) h

stop_historical-IsSorted :
    (actives : List (ℕ × ActiveTask)) (m : Manager)
    → IsSorted m
    → IsSorted (stop_historical actives m)
unfolding stop_historical
stop_historical-IsSorted [] m h = h
stop_historical-IsSorted ((k, active) ∷ rest) m h =
    if-cases (λ n. IsSorted (stop_historical rest n)) (is_historical active.priority)
      (λ e. stop_historical-IsSorted rest (request_stop active.cancellation m) h)
      (λ e. stop_historical-IsSorted rest m h)

preempt_historical-IsSorted :
    (o : Options) (m : Manager) → IsSorted m → IsSorted (preempt_historical o m)
unfolding preempt_historical
preempt_historical-IsSorted o m h =
    if-cases IsSorted
      (not (o.workers == 1) || (is_empty m.queues.interactive && is_empty m.queues.current_game))
      (λ e. h) (λ e. stop_historical-IsSorted m.active_tasks m h)

start_finish-IsSorted :
    (o : Options) (p : Priority) (s : Starting)
    → IsSorted s.manager
    → IsSorted (start_finish o p s).0
unfolding start_finish
start_finish-IsSorted o p s h =
    if-cases (λ (r : Manager × Result (List ℕ)). IsSorted r.0)
      (ltb o.max_queued (queued_count s.manager + length s.shallow_tasks + length s.deep_tasks))
      (λ e. erase_all-IsSorted s.created s.manager h)
      (λ e.
        if-cases IsSorted (is_historical p) (λ e'. all) (λ e'. preempt_historical-IsSorted o _ all))
  where
    all : IsSorted (enqueue_all s.deep_tasks (enqueue_all s.shallow_tasks s.manager))
    all =
        enqueue_all-IsSorted s.deep_tasks (enqueue_all s.shallow_tasks s.manager)
          (enqueue_all-IsSorted s.shallow_tasks s.manager h)

start_reported-IsSorted :
    (r : Repository) (new : List (ℕ × Job)) (ended : Manager × Result (List ℕ))
    → IsSorted ended.0
    → IsSorted (start_reported r new ended).0
start_reported-IsSorted r new (m, err thrown) h = h
start_reported-IsSorted r new (m, ok results) h = h

start_read-IsSorted :
    (o : Options) (r : Repository) (p : Priority) (m : Manager) (inputs : Result (List Input))
    → IsSorted m
    → IsSorted (start_read o r p m inputs).0
start_read-IsSorted o r p m (err thrown) h = h
start_read-IsSorted o r p m (ok inputs) h =
    let s = start_loop p (starting m) (sort_inputs inputs) in
    start_reported-IsSorted r s.created (start_finish o p s)
      (start_finish-IsSorted o p s (start_loop-IsSorted p (starting m) (sort_inputs inputs) h))

abbrev TakenIsSorted : Option (Manager × Task) → Type 0
TakenIsSorted none = Unit
TakenIsSorted (some (m, t)) = IsSorted m

take_from-IsSorted :
    (p : Priority) (ts : List Task) (m : Manager) (later : Option (Manager × Task))
    → IsSorted m
    → All (HasPriority p) ts
    → TakenIsSorted later
    → TakenIsSorted (take_from p ts m later)
take_from-IsSorted p [] m later h a l = l
take_from-IsSorted p (t ∷ ts) m later h a l = with_entry-AreSorted m.queues p ts h a.1

take_task-IsSorted : (o : Options) (m : Manager) → IsSorted m → TakenIsSorted (take_task o m)
unfolding take_task
take_task-IsSorted o m h = take_from-IsSorted interactive m.queues.interactive m _ h h.first (
    take_from-IsSorted current_game m.queues.current_game m _ h h.second (
      if-cases TakenIsSorted (leb (historical_limit o) m.active_by_priority.historical) (λ e. tt)
        (λ e. take_from-IsSorted historical m.queues.historical m none h h.third tt)))

abbrev BegunIsSorted : Begun → Type 0
BegunIsSorted no_task = Unit
BegunIsSorted (skipped m) = IsSorted m
BegunIsSorted (works m t) = IsSorted m

begin_task-IsSorted : (r : Option (Manager × Task)) → TakenIsSorted r → BegunIsSorted (begin_task r)
begin_task-IsSorted none h = tt
begin_task-IsSorted (some (m, t)) h = begun (lookup t.job_id m.jobs)
  where
    begun : (o : Option Job) → BegunIsSorted (begin_job m t o)
    begun none = h
    begun (some job) = if-cases BegunIsSorted (is_cancelled job.status) (λ e. h) (λ e. h)

begin_work-IsSorted : (o : Options) (m : Manager) → IsSorted m → BegunIsSorted (begin_work o m)
unfolding begin_work
begin_work-IsSorted o m h = begin_task-IsSorted (take_task o m) (take_task-IsSorted o m h)

fail_job-IsSorted :
    (o : Options) (t : Task) (code : ErrorCode) (m : Manager) (found : Option Job)
    → IsSorted m
    → IsSorted (fail_job o t code m found)
fail_job-IsSorted o t code m none h = h
fail_job-IsSorted o t code m (some job) h =
    if-cases IsSorted job.stop_requested (λ e. h)
      (λ e.
        if-cases IsSorted (is_stopped t.cancellation m.stopped && is_historical t.priority)
          (λ e'. enqueue-IsSorted _ _ h)
          (λ e'.
            if-cases IsSorted (may_retry code && ltb t.attempts o.retry_limit)
              (λ e''. enqueue-IsSorted _ _ h) (λ e''. h)))

cancel_job-IsSorted :
    (id : ℕ) (m : Manager) (found : Option Job) → IsSorted m → IsSorted (cancel_job id m found).0
cancel_job-IsSorted id m none h = h
cancel_job-IsSorted id m (some job) h =
    if-cases (λ (r : Manager × Bool). IsSorted r.0) (is_over job.status) (λ e. h)
      (λ e. has_stopped (lookup id m.active_tasks))
  where
    has_stopped :
        (o : Option ActiveTask)
        → IsSorted (
            stop_task o (record m {
              jobs =
                  update id
                    (λ j. record j { status = cancelled_if_queued j.status; stop_requested = true })
                    m.jobs;
            }))
    has_stopped none = h
    has_stopped (some active) = h

Step-IsSorted : (o : Options) {m m' : Manager} → Step o m m' → IsSorted m → IsSorted m'
unfolding start_with_priority cancel fail_task break_task finish_task shallow_done analysis_done
Step-IsSorted o {m} (starts r game_ids p) h = start_read-IsSorted o r p m (read_inputs r game_ids) h
Step-IsSorted o {m} (cancels id) h = cancel_job-IsSorted id m (lookup id m.jobs) h
Step-IsSorted o pauses h = h
Step-IsSorted o resumes h = h
Step-IsSorted o {m} (begins t e) h = subst BegunIsSorted e (begin_work-IsSorted o m h)
Step-IsSorted o {m} (skips e) h = subst BegunIsSorted e (begin_work-IsSorted o m h)
Step-IsSorted o (ends_shallow t) h = enqueue-IsSorted _ _ h
Step-IsSorted o (ends_deep t) h = h
Step-IsSorted o {m} (fails t code) h = fail_job-IsSorted o t code m (lookup t.job_id m.jobs) h
Step-IsSorted o (breaks t) h = h
Step-IsSorted o (finishes id p) h = h

-- In every state that the threads can reach, each queue holds tasks of its own priority only, whatever was
-- promoted, preempted or retried.
pub Reachable-IsSorted : (o : Options) {m : Manager} → Reachable o m → IsSorted m
Reachable-IsSorted o (created paused) = record { first = tt; second = tt; third = tt }
Reachable-IsSorted o (stepped before step) = Step-IsSorted o step (Reachable-IsSorted o before)
