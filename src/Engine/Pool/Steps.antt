-- ===== src/Engine/Pool/Steps.antt =====
-- What the threads of the pool may do next.
use plywise.Engine.Pool.{
  Options, Pool, Priority, Work, submit, is_ready, take, count_completed, finish_active, fail,
  shut_down, leave, create,
}
use plywise.Errors.{ok}
use plywise.Prelude.{ℕ, ◌<◌, ◌≡◌, Bool, true, List, ◌∷◌, ◌++◌, some}

-- One critical section of one thread. Any of the works that are analysed may be the next to end.
pub data Step (o : Options) : Pool → Pool → Type 0 where
  submits : {p : Pool} (priority : Priority) (now : ℕ) → Step o p (submit o p priority now).0
  takes :
      {p q : Pool} {work : Work} (now : ℕ)
      → 0 < p.idle
      → is_ready o p ≡ true
      → take o p now ≡ some (q, work)
      → Step o p q
  completes :
      {p : Pool} (before : List Work) (work : Work) (after : List Work)
      → p.analysing ≡ before ++ work ∷ after
      → Step o p (count_completed p work (before ++ after))
  finishes :
      {p : Pool} (before : List Work) (work : Work) (after : List Work)
      → p.finishing ≡ before ++ work ∷ after
      → Step o p (finish_active p work (before ++ after))
  fails :
      {p : Pool} (before : List Work) (work : Work) (after : List Work) (stop_requested : Bool)
      (now : ℕ)
      → p.analysing ≡ before ++ work ∷ after
      → Step o p (fail o p work (before ++ after) stop_requested now)
  stops : {p : Pool} → Step o p (shut_down p)
  leaves : {p : Pool} → 0 < p.idle → p.stopping ≡ true → Step o p (leave p)

-- What can be reached from a new pool.
pub data Reachable (o : Options) : Pool → Type 0 where
  created : {p : Pool} → create true o ≡ ok p → Reachable o p
  stepped : {p q : Pool} → Reachable o p → Step o p q → Reachable o q
