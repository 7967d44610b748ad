-- ===== src/Engine/Pool.antt =====
-- The pool of engine workers: include/pct/engine/pool.hpp, src/engine/pool.cpp. A critical section is
-- a function on the state. The request itself is handed to the engine unread, so a `Work` keeps only
-- its priority; a time is in nanoseconds of the steady clock. What the engine and the
-- caller's stop token do is an argument of the steps.
pub mod Steps
pub mod Counted
pub mod Bounded
pub mod Kept
pub mod Reached
pub mod Ready
use plywise.Chess.Hash.{word}
use plywise.Errors.{Result, ok, err, invalid_argument, engine_error}
use plywise.Prelude.{
  ℕ, ◌+◌, ◌-◌, ◌/◌, ◌%◌, Bool, true, false, not, ◌&&◌, ◌||◌, List, [], ◌∷◌, ◌++◌, Option, none,
  some, length, ltb, leb, ◌==◌, if◌then◌else◌,
}

pub data Priority : Type 0 where
  interactive current_game historical : Priority

pub record Options : Type 0 where
  pub workers : ℕ
  pub max_pending : ℕ
  pub retry_limit : ℕ

pub record Work : Type 0 where
  pub priority : Priority
  pub queued_at : ℕ
  pub attempts : ℕ

-- `std::array<T, 3>`, indexed by `priority_index`.
pub record PerPriority {ℓ} (A : Type ℓ) : Type ℓ where
  pub interactive : A
  pub current_game : A
  pub historical : A

unfoldable pub entry {ℓ} : {A : Type ℓ} → PerPriority A → Priority → A
entry a interactive = a.interactive
entry a current_game = a.current_game
entry a historical = a.historical

unfoldable pub with_entry {ℓ} : {A : Type ℓ} → PerPriority A → Priority → A → PerPriority A
with_entry a interactive x = record a { interactive = x }
with_entry a current_game x = record a { current_game = x }
with_entry a historical x = record a { historical = x }

-- `EnginePool::State`. The threads are counted by where they stand: `idle` ones are about to `take`,
-- those of `analysing` hold a work whose engine runs, those of `finishing` have counted its result but
-- not yet called `finish_active`, `exited` ones have left the loop. `abandoned` counts the promises
-- that the destructor has failed.
pub record Pool : Type 0 where
  pub queues : PerPriority (List Work)
  pub stopping : Bool
  pub submitted : ℕ
  pub completed : ℕ
  pub failed : ℕ
  pub retried : ℕ
  pub rejected : ℕ
  pub active : ℕ
  pub active_by_priority : PerPriority ℕ
  pub maximum_queue_latency_ms : ℕ
  pub idle : ℕ
  pub analysing : List Work
  pub finishing : List Work
  pub exited : ℕ
  pub abandoned : ℕ

-- `++` and `--` on a 64-bit counter.
abbrev pub up : ℕ → ℕ
up n = (n + 1) % word

abbrev pub down : ℕ → ℕ
down n = (n + 18446744073709551615) % word

abbrev pub empty_queues : PerPriority (List Work)
empty_queues = record { interactive = []; current_game = []; historical = [] }

-- A pool whose threads have been started.
unfoldable pub started : Options → Pool
started o = record {
  queues = empty_queues;
  stopping = false;
  submitted = 0;
  completed = 0;
  failed = 0;
  retried = 0;
  rejected = 0;
  active = 0;
  active_by_priority = record { interactive = 0; current_game = 0; historical = 0 };
  maximum_queue_latency_ms = 0;
  idle = o.workers;
  analysing = [];
  finishing = [];
  exited = 0;
  abandoned = 0;
}

-- The constructor; `has_factory` tells whether the factory can be called.
unfoldable pub create : Bool → Options → Result Pool
create has_factory o =
    if not has_factory
    then err invalid_argument
    else if o.workers == 0 || o.max_pending == 0
    then err invalid_argument
    else ok (started o)

unfoldable pub queue_sizes : PerPriority (List Work) → ℕ
queue_sizes q = length q.interactive + length q.current_game + length q.historical

abbrev pub queued : Pool → ℕ
queued p = queue_sizes p.queues

unfoldable pub pending_unlocked : Pool → ℕ
pending_unlocked p = p.active + queued p

-- The critical section of `analyze`.
unfoldable pub submit : Options → Pool → Priority → ℕ → Pool × Result (Unit {0})
submit o p priority now =
    if p.stopping
    then (p, err engine_error)
    else if leb o.max_pending (pending_unlocked p)
    then (record p { rejected = up p.rejected }, err engine_error)
    else (
      record p {
        queues = with_entry p.queues priority (
            entry p.queues priority
            ++ record { priority = priority; queued_at = now; attempts = 0 } ∷ []);
        submitted = up p.submitted;
      },
      ok tt,
    )

unfoldable pub historical_limit : Options → ℕ
historical_limit o = if o.workers == 1 then 1 else o.workers - 1

unfoldable pub is_none : List Work → Bool
is_none [] = true
is_none (w ∷ ws) = false

-- What a worker waits for.
unfoldable pub is_ready : Options → Pool → Bool
is_ready o p =
    p.stopping
    || not (is_none p.queues.interactive)
    || not (is_none p.queues.current_game)
    || (not (is_none p.queues.historical)
        && ltb p.active_by_priority.historical (historical_limit o))

abbrev pub max : ℕ → ℕ → ℕ
max m n = if ltb m n then n else m

-- The front of a queue is taken; `rest` is what is left of the queue.
unfoldable pub taken : Pool → Priority → ℕ → Work → List Work → Pool
taken p priority now work rest = record p {
  queues = with_entry p.queues priority rest;
  active = up p.active;
  active_by_priority =
      with_entry p.active_by_priority priority (up (entry p.active_by_priority priority));
  maximum_queue_latency_ms = max p.maximum_queue_latency_ms ((now - work.queued_at) / 1000000);
  idle = p.idle - 1;
  analysing = work ∷ p.analysing;
}

-- One round of the loop of `take`, then the later ones.
unfoldable pub take_front :
    Pool → Priority → ℕ → List Work → Option (Pool × Work) → Option (Pool × Work)
take_front p priority now [] later = later
take_front p priority now (work ∷ rest) later = some (taken p priority now work rest, work)

-- `take` once the wait is over. Nothing makes the worker leave its loop.
unfoldable pub take : Options → Pool → ℕ → Option (Pool × Work)
take o p now =
    if p.stopping
    then none
    else take_front p interactive now p.queues.interactive (
        take_front p current_game now p.queues.current_game (
          if leb (historical_limit o) p.active_by_priority.historical
          then none
          else take_front p historical now p.queues.historical none))

-- A worker whose engine has returned counts the result; `others` are the other works analysed.
unfoldable pub count_completed : Pool → Work → List Work → Pool
count_completed p work others = record p {
  completed = up p.completed;
  analysing = others;
  finishing = work ∷ p.finishing;
}

unfoldable pub release : Pool → Priority → Pool
release p priority = record p {
  active = down p.active;
  active_by_priority =
      with_entry p.active_by_priority priority (down (entry p.active_by_priority priority));
  idle = p.idle + 1;
}

unfoldable pub finish_active : Pool → Work → List Work → Pool
finish_active p work others =
    let released = release p work.priority in record released { finishing = others }

unfoldable pub retries : Options → Pool → Work → Bool → Bool
retries o p work stop_requested =
    not p.stopping && not stop_requested && ltb work.attempts o.retry_limit

-- A worker whose engine has thrown: the critical section of the handler.
unfoldable pub fail : Options → Pool → Work → List Work → Bool → ℕ → Pool
fail o p work others stop_requested now =
    let released = release p work.priority in
    let q = record released { analysing = others } in
    if retries o p work stop_requested
    then record q {
      retried = up q.retried;
      queues = with_entry q.queues work.priority (
          record work { attempts = up work.attempts; queued_at = now }
          ∷ entry q.queues work.priority);
    }
    else record q { failed = up q.failed }

-- The critical section of the destructor, and the promises that it fails.
unfoldable pub shut_down : Pool → Pool
shut_down p = record p {
  stopping = true;
  queues = empty_queues;
  abandoned = p.abandoned + queued p;
}

-- A worker leaves its loop.
unfoldable pub leave : Pool → Pool
leave p = record p { idle = p.idle - 1; exited = p.exited + 1 }

pub record Stats : Type 0 where
  pub submitted : ℕ
  pub completed : ℕ
  pub failed : ℕ
  pub retried : ℕ
  pub rejected : ℕ
  pub active : ℕ
  pub queued_interactive : ℕ
  pub queued_current_game : ℕ
  pub queued_historical : ℕ
  pub maximum_queue_latency_ms : ℕ

unfoldable pub stats : Pool → Stats
stats p = record {
  submitted = p.submitted;
  completed = p.completed;
  failed = p.failed;
  retried = p.retried;
  rejected = p.rejected;
  active = p.active;
  queued_interactive = length p.queues.interactive;
  queued_current_game = length p.queues.current_game;
  queued_historical = length p.queues.historical;
  maximum_queue_latency_ms = p.maximum_queue_latency_ms;
}
