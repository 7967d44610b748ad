-- ===== src/Engine/Pool/Ready.antt =====
-- A worker that has been woken finds work, and historical work leaves a worker free.
use plywise.Chess.Hash.{word}
use plywise.Engine.Pool.Bounded.{count}
use plywise.Engine.Pool.Reached.{Reachable-IsBounded}
use plywise.Engine.Pool.Steps.{Reachable}
use plywise.Engine.Pool.{
  Options, Pool, Work, take, take_front, is_ready, is_none, historical_limit, taken, historical,
  interactive, current_game, Priority, PerPriority, entry, with_entry,
}
use plywise.Prelude.{
  ℕ, ◌+◌, ◌-◌, ◌/◌, ◌%◌, ◌<◌, ◌≤◌, ◌≡◌, ◌≢◌, refl, sym, ap, ◌∙◌, true, false, List, [], ◌∷◌, some,
  arith,
}

-- The order in which the queues are looked at.
abbrev pub rank : Priority → ℕ
rank interactive = 0
rank current_game = 1
rank historical = 2

-- What a `take` makes of a pool: the work is popped from the queue of the priority `from`, and held; the
-- other queues and counters stay.
pub record IsFirst (o : Options) (p q : Pool) (now : ℕ) (work : Work) : Type 0 where
  pub from : Priority
  pub popped : entry p.queues from ≡ work ∷ entry q.queues from
  pub is_first : (other : Priority) → rank other < rank from → entry p.queues other ≡ []
  pub limited : from ≡ historical → p.active_by_priority.historical < historical_limit o
  pub other_queues : (other : Priority) → other ≢ from → entry q.queues other ≡ entry p.queues other
  pub held : q.analysing ≡ work ∷ p.analysing
  pub idle : q.idle ≡ p.idle - 1
  pub active : q.active ≡ (p.active + 1) % word
  pub raised : entry q.active_by_priority from ≡ (entry p.active_by_priority from + 1) % word
  pub not_raised :
      (other : Priority)
      → other ≢ from
      → entry q.active_by_priority other ≡ entry p.active_by_priority other
  pub longest : p.maximum_queue_latency_ms ≤ q.maximum_queue_latency_ms
  pub waited : (now - work.queued_at) / 1000000 ≤ q.maximum_queue_latency_ms
  pub counters :
      (q.submitted ≡ p.submitted)
      × (q.completed ≡ p.completed)
      × (q.failed ≡ p.failed)
      × (q.retried ≡ p.retried)
      × (q.rejected ≡ p.rejected)
      × (q.abandoned ≡ p.abandoned)
  pub threads : (q.finishing ≡ p.finishing) × (q.exited ≡ p.exited) × (q.stopping ≡ p.stopping)

module _ {A : Type 0} where
  entry-with_entry :
      (a : PerPriority A) (from : Priority) (x : A) → entry (with_entry a from x) from ≡ x
  unfolding entry with_entry
  entry-with_entry a interactive x = refl
  entry-with_entry a current_game x = refl
  entry-with_entry a historical x = refl

  entry-with_entry_other :
      (a : PerPriority A) (from other : Priority) (x : A)
      → other ≢ from
      → entry (with_entry a from x) other ≡ entry a other
  unfolding entry with_entry
  entry-with_entry_other a interactive interactive x ne = absurd (ne refl)
  entry-with_entry_other a interactive current_game x ne = refl
  entry-with_entry_other a interactive historical x ne = refl
  entry-with_entry_other a current_game interactive x ne = refl
  entry-with_entry_other a current_game current_game x ne = absurd (ne refl)
  entry-with_entry_other a current_game historical x ne = refl
  entry-with_entry_other a historical interactive x ne = refl
  entry-with_entry_other a historical current_game x ne = refl
  entry-with_entry_other a historical historical x ne = absurd (ne refl)

taken-IsFirst :
    (o : Options) (p : Pool) (from : Priority) (now : ℕ) (work : Work) (rest : List Work)
    → entry p.queues from ≡ work ∷ rest
    → ((other : Priority) → rank other < rank from → entry p.queues other ≡ [])
    → (from ≡ historical → p.active_by_priority.historical < historical_limit o)
    → IsFirst o p (taken p from now work rest) now work
unfolding taken
taken-IsFirst o p from now work rest e first limited = record {
  from = from;
  popped = e ∙ ap (◌∷◌ work) (sym (entry-with_entry p.queues from rest));
  is_first = first;
  limited = limited;
  other_queues = λ other ne. entry-with_entry_other p.queues from other rest ne;
  held = refl;
  idle = refl;
  active = refl;
  raised = entry-with_entry p.active_by_priority from _;
  not_raised = λ other ne. entry-with_entry_other p.active_by_priority from other _ ne;
  longest = ground arith;
  waited = ground arith;
  counters = (refl, refl, refl, refl, refl, refl);
  threads = (refl, refl, refl);
}

module _ (p : Pool) (none_interactive : p.queues.interactive ≡ []) where
  before_current : (other : Priority) → rank other < 1 → entry p.queues other ≡ []
  unfolding entry
  before_current interactive lt = none_interactive
  before_current current_game lt = absurd (omega (arith, lt))
  before_current historical lt = absurd (omega (arith, lt))

  before_historical :
      p.queues.current_game ≡ [] → (other : Priority) → rank other < 2 → entry p.queues other ≡ []
  unfolding entry
  before_historical none_current interactive lt = none_interactive
  before_historical none_current current_game lt = none_current
  before_historical none_current historical lt = absurd (omega (arith, lt))

-- While the pool runs, a worker whose wait is over never leaves its loop: `take` pops the front of the
-- first queue that is not empty, in the order of priority, the historical one only below its limit. The
-- work is held by the worker and counted as active, and nothing else changes but the longest wait, which
-- is at least that of this work.
pub take-IsFirst :
    (o : Options) (p : Pool) (now : ℕ)
    → p.stopping ≡ false
    → is_ready o p ≡ true
    → (q : Pool) × (work : Work) × (take o p now ≡ some (q, work)) × IsFirst o p q now work
unfolding take take_front is_ready is_none entry
take-IsFirst o p now run ready =
    by_queues p.queues.interactive refl p.queues.current_game refl p.queues.historical refl
  where
    by_queues :
        (is : List Work)
        → p.queues.interactive ≡ is
        → (cs : List Work) → p.queues.current_game ≡ cs
        → (hs : List Work) → p.queues.historical ≡ hs
        → (q : Pool) × (work : Work) × (take o p now ≡ some (q, work)) × IsFirst o p q now work
    by_queues (w ∷ is) e cs f hs g = (
      taken p interactive now w is,
      w,
      ground arith,
      taken-IsFirst o p interactive now w is e (λ other lt. absurd (omega arith)) (λ i. cc),
    )
    by_queues [] e (w ∷ cs) f hs g = (
      taken p current_game now w cs,
      w,
      ground arith,
      taken-IsFirst o p current_game now w cs f (before_current p e) (λ i. cc),
    )
    by_queues [] e [] f (w ∷ hs) g = (
      taken p historical now w hs,
      w,
      ground arith,
      taken-IsFirst o p historical now w hs g (before_historical p e f) (λ i. ground arith),
    )
    by_queues [] e [] f [] g = absurd (ground arith)

-- With two workers or more, and fewer than 2^64, the works of historical priority never hold all of them: one is left for a
-- request that a person waits for.
pub historical-lt-workers :
    (o : Options) {p : Pool}
    → 1 < o.workers
    → o.workers < word
    → Reachable o p
    → count historical p.analysing + count historical p.finishing < o.workers
unfolding historical_limit
historical-lt-workers o two small r =
    let h = Reachable-IsBounded o small r in ground (arith, h.limit, h.each historical)
