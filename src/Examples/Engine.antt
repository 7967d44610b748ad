-- ===== src/Examples/Engine.antt =====
-- The engine pool: the theorems at concrete states.
use plywise.Chess.Hash.{word}
use plywise.Engine.Pool.Bounded.{IsBounded}
use plywise.Engine.Pool.Counted.{submitted-accounted, accounted}
use plywise.Engine.Pool.Reached.{Reachable-IsBounded}
use plywise.Engine.Pool.Ready.{IsFirst, take-IsFirst}
use plywise.Engine.Pool.Steps.{Reachable, submits, takes, fails, created, stepped}
use plywise.Engine.Pool.{
  Options, Pool, Work, historical, interactive, create, started, submit, take, take_front, taken,
  is_ready, is_none, fail, entry, with_entry, pending_unlocked, queue_sizes,
}
use plywise.Prelude.{◌%◌, ◌≡◌, refl, false, [], some, arith}

abbrev two_workers : Options
two_workers = record { workers = 2; max_pending = 3; retry_limit = 1 }

abbrev idle_pool : Pool
idle_pool = started two_workers

-- A historical request, then an interactive one, at times 5 and 6.
abbrev waiting : Pool
waiting = (submit two_workers (submit two_workers idle_pool historical 5).0 interactive 6).0

abbrev asked : Work
asked = record { priority = interactive; queued_at = 6; attempts = 0 }

abbrev busy : Pool
busy = taken waiting interactive 9 asked []

waiting-Reachable : Reachable two_workers waiting
unfolding create
waiting-Reachable = stepped (stepped (created refl) (submits historical 5)) (submits interactive 6)

busy-Reachable : Reachable two_workers busy
unfolding submit started pending_unlocked queue_sizes take take_front is_ready is_none taken entry
    with_entry
busy-Reachable = stepped waiting-Reachable (takes 9 (omega arith) refl refl)

-- The engine throws, and the request waits again.
failed_once-Reachable : Reachable two_workers (fail two_workers busy asked [] false 12)
unfolding submit started pending_unlocked queue_sizes taken entry with_entry
failed_once-Reachable = stepped busy-Reachable (fails [] asked [] false 12 refl)

submitted-accounted_example :
    (fail two_workers busy asked [] false 12).submitted
    ≡ accounted (fail two_workers busy asked [] false 12) % word
submitted-accounted_example = submitted-accounted two_workers failed_once-Reachable

Reachable-IsBounded_example : IsBounded two_workers (fail two_workers busy asked [] false 12)
Reachable-IsBounded_example = Reachable-IsBounded two_workers (omega arith) failed_once-Reachable

take-IsFirst_example :
    (q : Pool) × (work : Work) × (take two_workers waiting 9 ≡ some (q, work))
    × IsFirst two_workers waiting q 9 work
unfolding submit started pending_unlocked queue_sizes is_ready is_none entry with_entry
take-IsFirst_example = take-IsFirst two_workers waiting 9 refl refl
