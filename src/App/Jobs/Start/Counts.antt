-- ===== src/App/Jobs/Start/Counts.antt =====
-- How many tasks and results the loops of `start_with_priority` make: src/app/job_manager.cpp.
use plywise.App.Jobs.{Manager, Options, Job, Task, queued_count, enqueue, is_historical, erase}
use plywise.App.Jobs.Counted.{
  enqueue-queued_count, promote-queued_count, preempt_historical-queued_count,
}
use plywise.App.Jobs.Inputs.{Input}
use plywise.App.Jobs.Start.{
  Starting, start_loop, start_finish, task_of, sort_inputs, insert_sorted, find_existing,
  promote_or_create, erase_all, enqueue_all,
}
use plywise.Engine.Pool.{Priority}
use plywise.Errors.{Result, ok, err, invalid_argument}
use plywise.Prelude.{
  ℕ, suc, ◌≡◌, ◌≤◌, ◌<◌, ◌+◌, refl, ◌∙◌, arith, Bool, not, ◌&&◌, false, true, List, [], ◌∷◌, ◌++◌,
  Option, none, some, length, length-append, ltb, if-cases, if◌then◌else◌,
}

length-insert_sorted : (x : Input) (xs : List Input) → length (insert_sorted x xs) ≡ suc (length xs)
unfolding insert_sorted
length-insert_sorted x [] = refl
length-insert_sorted x (y ∷ ys) = ground (arith, length-insert_sorted x ys)

pub length-sort_inputs : (xs : List Input) → length (sort_inputs xs) ≡ length xs
unfolding sort_inputs
length-sort_inputs [] = refl
length-sort_inputs (x ∷ xs) =
    omega (arith, length-insert_sorted x (sort_inputs xs), length-sort_inputs xs)

abbrev pub new_tasks : Starting → ℕ
new_tasks s = length s.shallow_tasks + length s.deep_tasks

-- What `n` inputs add.
pub record Grows (s t : Starting) (n : ℕ) : Type 0 where
  pub same : queued_count t.manager ≡ queued_count s.manager
  pub tasks : new_tasks t ≤ new_tasks s + n
  pub results : length t.results ≡ length s.results + n

length-created :
    (is_complete has_shallow : Bool) (t : Task) (shallow deep : List Task)
    → length (if not is_complete && not has_shallow then shallow ++ t ∷ [] else shallow)
        + length (if not is_complete && has_shallow then deep ++ t ∷ [] else deep)
      ≤ length shallow + length deep + 1
length-created true c t shallow deep = omega arith
length-created false true t shallow deep = omega (arith, length-append deep (t ∷ []))
length-created false false t shallow deep = omega (arith, length-append shallow (t ∷ []))

each-Grows :
    (priority : Priority) (s : Starting) (input : Input) (o : Option ℕ)
    → Grows s (promote_or_create priority s input o) 1
unfolding queued_count
each-Grows priority s input none = record {
  same = refl;
  tasks =
      length-created input.is_complete input.has_shallow (task_of s.manager input priority)
        s.shallow_tasks s.deep_tasks;
  results = length-append s.results (s.manager.next_id ∷ []);
}
each-Grows priority s input (some id) = record {
  same = promote-queued_count id priority s.manager;
  tasks = omega arith;
  results = length-append s.results (id ∷ []);
}

pub start_loop-Grows :
    (priority : Priority) (s : Starting) (inputs : List Input)
    → Grows s (start_loop priority s inputs) (length inputs)
unfolding start_loop
start_loop-Grows priority s [] = record { same = refl; tasks = omega arith; results = omega arith }
start_loop-Grows priority s (input ∷ inputs) =
    let found = find_existing input.game_id s.manager.jobs in
    let first = each-Grows priority s input found in
    let later = start_loop-Grows priority (promote_or_create priority s input found) inputs in
    record {
      same = later.same ∙ first.same;
      tasks = omega (arith, later.tasks, first.tasks);
      results = omega (arith, later.results, first.results);
    }

enqueue_all-queued_count :
    (ts : List Task) (m : Manager) → queued_count (enqueue_all ts m) ≡ queued_count m + length ts
unfolding enqueue_all
enqueue_all-queued_count [] m = omega arith
enqueue_all-queued_count (t ∷ ts) m =
    omega (arith, enqueue_all-queued_count ts (enqueue t m), enqueue-queued_count t m)

erase_all-queued_count :
    (created : List (ℕ × Job)) (m : Manager) → queued_count (erase_all created m) ≡ queued_count m
unfolding erase_all queued_count
erase_all-queued_count [] m = refl
erase_all-queued_count ((id, job) ∷ created) m =
    erase_all-queued_count created (record m { jobs = erase id m.jobs })

-- The end of the critical section: within the bound, or refused because the new tasks exceed it.
abbrev pub Ends : Options → Starting → Manager × Result (List ℕ) → Type 0
Ends o s (m, ok ids) =
    (queued_count m ≡ queued_count s.manager + new_tasks s)
    × (queued_count m ≤ o.max_queued)
    × (ids ≡ s.results)
Ends o s (m, err thrown) =
    (thrown ≡ invalid_argument)
    × (o.max_queued < queued_count s.manager + new_tasks s)
    × (queued_count m ≡ queued_count s.manager)

pub start_finish-Ends :
    (o : Options) (priority : Priority) (s : Starting) → Ends o s (start_finish o priority s)
unfolding start_finish
start_finish-Ends o priority s =
    if-cases (Ends o s)
      (ltb o.max_queued (queued_count s.manager + length s.shallow_tasks + length s.deep_tasks))
      (λ e. (refl, ground arith, erase_all-queued_count s.created s.manager))
      (λ e.
        if-cases (λ m. Ends o s (m, ok s.results)) (is_historical priority)
          (λ h. (whole, ground (arith, whole, e), refl))
          (λ h.
            let kept = preempt_historical-queued_count o all in
            (kept ∙ whole, ground (arith, kept, whole, e), refl)))
  where
    all : Manager
    all = enqueue_all s.deep_tasks (enqueue_all s.shallow_tasks s.manager)

    whole : queued_count all ≡ queued_count s.manager + new_tasks s
    whole = omega (
      arith,
      enqueue_all-queued_count s.deep_tasks (enqueue_all s.shallow_tasks s.manager),
      enqueue_all-queued_count s.shallow_tasks s.manager,
    )
