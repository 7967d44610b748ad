-- ===== src/Engine/Pool/Reached.antt =====
-- The bounds of the pool hold in every state that can be reached.
use plywise.Engine.Pool.Kept.{
  submit-IsBounded, taken-IsBounded, finish-IsBounded, complete-IsBounded, fail-IsBounded,
}
use plywise.Chess.Hash.{word}
use plywise.Engine.Pool.Bounded.{count, Sorted, IsBounded}
use plywise.Engine.Pool.Counted.{take-IsTaken}
use plywise.Engine.Pool.Steps.{
  Step, Reachable, submits, takes, completes, finishes, fails, stops, leaves, created, stepped,
}
use plywise.Engine.Pool.{
  Options, Pool, Priority, interactive, current_game, historical, entry, queue_sizes, shut_down,
  leave, create, started, empty_queues, pending_unlocked,
}
use plywise.Errors.{ok}
use plywise.Prelude.{◌+◌, ◌<◌, ◌≡◌, refl, sym, subst, true, arith}

empty-Sorted : Sorted empty_queues
unfolding entry
empty-Sorted interactive = tt
empty-Sorted current_game = tt
empty-Sorted historical = tt

shut_down-IsBounded : (o : Options) (p : Pool) → IsBounded o p → IsBounded o (shut_down p)
unfolding shut_down pending_unlocked queue_sizes
shut_down-IsBounded o p h = record {
  active = h.active;
  each = h.each;
  threads = h.threads;
  pending = omega (arith, h.pending);
  limit = h.limit;
  sorted = empty-Sorted;
}

leave-IsBounded : (o : Options) (p : Pool) → 0 < p.idle → IsBounded o p → IsBounded o (leave p)
unfolding leave pending_unlocked
leave-IsBounded o p idle h = record {
  active = h.active;
  each = h.each;
  threads = omega (arith, h.threads);
  pending = h.pending;
  limit = h.limit;
  sorted = h.sorted;
}

started-IsBounded : (o : Options) → IsBounded o (started o)
unfolding started pending_unlocked queue_sizes count entry
started-IsBounded o = record {
  active = refl;
  each = λ t. none_active t;
  threads = omega arith;
  pending = omega arith;
  limit = omega arith;
  sorted = empty-Sorted;
}
  where
    none_active : (t : Priority) → entry (started o).active_by_priority t ≡ 0 + 0
    none_active interactive = refl
    none_active current_game = refl
    none_active historical = refl

create-started : (o : Options) {p : Pool} → create true o ≡ ok p → started o ≡ p
unfolding create
create-started o h = ground arith

Step-IsBounded :
    (o : Options) {p q : Pool} → o.workers < word → Step o p q → IsBounded o p → IsBounded o q
unfolding entry
Step-IsBounded o small (submits t now) h = submit-IsBounded o _ t now h
Step-IsBounded o small (takes {p} now idle ready e) h =
    let t = take-IsTaken o p now e in
    subst (IsBounded o) (sym t.result)
      (taken-IsBounded o small p h t.priority now _ t.rest t.front idle t.below)
Step-IsBounded o small (completes before work after e) h =
    complete-IsBounded o small _ h before work after e
Step-IsBounded o small (finishes before work after e) h =
    finish-IsBounded o small _ h before work after e
Step-IsBounded o small (fails before work after stop_requested now e) h =
    fail-IsBounded o small _ h before work after stop_requested now e
Step-IsBounded o small stops h = shut_down-IsBounded o _ h
Step-IsBounded o small (leaves idle e) h = leave-IsBounded o _ idle h

-- With fewer than 2^64 workers, whatever the threads of a pool do, its counters say how many works they hold, in all and by
-- priority; no more works are active than there are workers; no more requests are pending than the
-- options allow; the historical ones keep to their limit; each queue holds its own priority.
pub Reachable-IsBounded :
    (o : Options) {p : Pool} → o.workers < word → Reachable o p → IsBounded o p
Reachable-IsBounded o small (created e) =
    subst (IsBounded o) (create-started o e) (started-IsBounded o)
Reachable-IsBounded o small (stepped r s) = Step-IsBounded o small s (Reachable-IsBounded o small r)
