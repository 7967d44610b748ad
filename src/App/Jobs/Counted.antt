-- ===== src/App/Jobs/Counted.antt =====
-- How many tasks the queues hold.
use plywise.Engine.Pool.{
  Priority, interactive, current_game, historical, PerPriority, entry, with_entry,
}
use plywise.App.Jobs.{
  Manager, Task, ActiveTask, Options, queued_count, is_empty, historical_limit, runnable, take_task,
  take_from, enqueue, staying, moving, is_promoted, promote_queue, promote, promote_to, promote_if,
  stop_active, stop_historical, preempt_historical, lookup, update, request_stop, priority_index,
  is_historical,
}
use plywise.Prelude.{
  ℕ, ◌≡◌, ◌+◌, refl, ◌∙◌, arith, Bool, true, false, not, ◌&&◌, ◌||◌, List, [], ◌∷◌, ◌++◌, Option,
  none, some, length, length-append, Bool-cases, inl, inr, ltb, leb, ◌==◌, if◌then◌else◌, if-cases,
}

abbrev pub is_some : Option (Manager × Task) → Bool
is_some none = false
is_some (some r) = true

taken_from :
    (o : Options) (m : Manager) (a b c : List Task) (active : ℕ)
    → is_some (
        take_from interactive a m (
          take_from current_game b m
            (if leb (historical_limit o) active then none else take_from historical c m none)))
      ≡ (not (is_empty a)
          || not (is_empty b)
          || (not (is_empty c) && ltb active (historical_limit o)))
taken_from o m (t ∷ ts) b c active = refl
taken_from o m [] (t ∷ ts) c active = refl
taken_from o m [] [] [] active =
    if-cases (λ r. is_some r ≡ false) (leb (historical_limit o) active) (λ e. refl) (λ e. refl)
taken_from o m [] [] (t ∷ ts) active = ground arith

-- `take_unlocked` finds a task exactly when `runnable_unlocked` holds: a worker that was woken for a task
-- never throws.
pub take_task-runnable : (o : Options) (m : Manager) → is_some (take_task o m) ≡ runnable o m
unfolding take_task runnable
take_task-runnable o m =
    taken_from o m m.queues.interactive m.queues.current_game m.queues.historical
      m.active_by_priority.historical

abbrev total : PerPriority (List Task) → ℕ
total q = length q.interactive + length q.current_game + length q.historical

total-with_entry :
    (q : PerPriority (List Task)) (p : Priority) (ts : List Task)
    → total (with_entry q p ts) + length (entry q p) ≡ total q + length ts
unfolding entry with_entry
total-with_entry q interactive ts = omega arith
total-with_entry q current_game ts = omega arith
total-with_entry q historical ts = omega arith

length-promoted :
    (job_id : ℕ) (priority : Priority) (ts : List Task)
    → length (staying job_id priority ts) + length (moving job_id priority ts) ≡ length ts
unfolding staying moving
length-promoted job_id priority [] = refl
length-promoted job_id priority (t ∷ ts) = elim (Bool-cases (is_promoted job_id priority t)) [
  | inl e ↦ rw e (omega (arith, length-promoted job_id priority ts))
  | inr e ↦ rw e (omega (arith, length-promoted job_id priority ts))
]

promote_queue-queued_count :
    (job_id : ℕ) (priority from : Priority) (m : Manager)
    → queued_count (promote_queue job_id priority from m) ≡ queued_count m
unfolding queued_count promote_queue
promote_queue-queued_count job_id priority from m =
    let queue = entry m.queues from in
    let left = with_entry m.queues from (staying job_id priority queue) in
    omega (
      arith,
      total-with_entry m.queues from (staying job_id priority queue),
      total-with_entry left priority (entry left priority ++ moving job_id priority queue),
      length-append (entry left priority) (moving job_id priority queue),
      length-promoted job_id priority queue,
    )

stop_active-queued_count :
    (priority : Priority) (o : Option ActiveTask) (m : Manager)
    → queued_count (stop_active priority o m) ≡ queued_count m
unfolding queued_count
stop_active-queued_count priority none m = refl
stop_active-queued_count priority (some active) m =
    if-cases (λ k. queued_count k ≡ queued_count m)
      (ltb (priority_index priority) (priority_index active.priority)) (λ e. refl) (λ e. refl)

-- Promotion moves tasks between the queues and loses none.
pub promote-queued_count :
    (job_id : ℕ) (priority : Priority) (m : Manager)
    → queued_count (promote job_id priority m) ≡ queued_count m
unfolding promote queued_count
promote-queued_count job_id priority m = promoted (lookup job_id m.requested_priorities)
  where
    first : Manager
    first = record m { requested_priorities = update job_id (λ p. priority) m.requested_priorities }

    second : Manager
    second = promote_queue job_id priority interactive first

    third : Manager
    third = promote_queue job_id priority current_game second

    fourth : Manager
    fourth = promote_queue job_id priority historical third

    all_moved : queued_count (promote_to job_id priority m) ≡ queued_count m
    all_moved =
        stop_active-queued_count priority (lookup job_id m.active_tasks) fourth
        ∙ promote_queue-queued_count job_id priority historical third
        ∙ promote_queue-queued_count job_id priority current_game second
        ∙ promote_queue-queued_count job_id priority interactive first

    promoted :
        (o : Option Priority) → queued_count (promote_if o job_id priority m) ≡ queued_count m
    promoted none = refl
    promoted (some requested) =
        if-cases (λ k. queued_count k ≡ queued_count m)
          (leb (priority_index requested) (priority_index priority)) (λ e. refl) (λ e. all_moved)

pub enqueue-queued_count :
    (t : Task) (m : Manager) → queued_count (enqueue t m) ≡ queued_count m + 1
unfolding enqueue queued_count
enqueue-queued_count t m = omega (
  arith,
  total-with_entry m.queues t.priority (entry m.queues t.priority ++ t ∷ []),
  length-append (entry m.queues t.priority) (t ∷ []),
)

stop_historical-queued_count :
    (actives : List (ℕ × ActiveTask)) (m : Manager)
    → queued_count (stop_historical actives m) ≡ queued_count m
unfolding stop_historical queued_count
stop_historical-queued_count [] m = refl
stop_historical-queued_count ((k, active) ∷ rest) m =
    if-cases (λ n. queued_count (stop_historical rest n) ≡ queued_count m)
      (is_historical active.priority)
      (λ e. stop_historical-queued_count rest (request_stop active.cancellation m))
      (λ e. stop_historical-queued_count rest m)

pub preempt_historical-queued_count :
    (o : Options) (m : Manager) → queued_count (preempt_historical o m) ≡ queued_count m
unfolding preempt_historical queued_count
preempt_historical-queued_count o m =
    if-cases (λ n. queued_count n ≡ queued_count m)
      (not (o.workers == 1) || (is_empty m.queues.interactive && is_empty m.queues.current_game))
      (λ e. refl) (λ e. stop_historical-queued_count m.active_tasks m)
