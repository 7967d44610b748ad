-- ===== src/Engine/Pool/Kept.antt =====
-- Each critical section keeps the bounds of the pool.
use plywise.Chess.Hash.{word}
use plywise.Engine.Pool.Bounded.{
  one, count, count-taken_out, count-le-length, entry-raised, Sorted-with_entry, IsBounded, one-le,
  one_cases, entry-released,
}
use plywise.Engine.Pool.Counted.{queue_sizes-with_entry, length-taken_out}
use plywise.Engine.Pool.{
  Options, Pool, Priority, historical, Work, entry, queue_sizes, submit, taken, count_completed,
  finish_active, release, fail, retries, pending_unlocked, historical_limit, up,
}
use plywise.Errors.{Result}
use plywise.Prelude.{
  ℕ, ◌+◌, ◌≤◌, ◌<◌, ◌≡◌, inl, inr, refl, sym, ap, subst, ◌∙◌, Bool, false, List, [], ◌∷◌, ◌++◌,
  arith, length, length-append, All, All-append, if-cases, leb,
}

leb-false : (m n : ℕ) → leb m n ≡ false → n < m
leb-false m n h = ground arith

pub submit-IsBounded :
    (o : Options) (p : Pool) (t : Priority) (now : ℕ)
    → IsBounded o p
    → IsBounded o (submit o p t now).0
unfolding submit pending_unlocked
submit-IsBounded o p t now h =
    let work : Work = record { priority = t; queued_at = now; attempts = 0 } in
    if-cases (λ (r : Pool × Result (Unit {0})). IsBounded o r.0) p.stopping (λ stop. h)
      (λ run.
        if-cases (λ (r : Pool × Result (Unit {0})). IsBounded o r.0)
          (leb o.max_pending (p.active + queue_sizes p.queues))
          (λ full. record {
            active = h.active;
            each = h.each;
            threads = h.threads;
            pending = h.pending;
            limit = h.limit;
            sorted = h.sorted;
          })
          (λ room. record {
            active = h.active;
            each = h.each;
            threads = h.threads;
            pending = omega (
              arith,
              leb-false _ _ room,
              queue_sizes-with_entry p.queues t (entry p.queues t ++ work ∷ []),
              length-append (entry p.queues t) (work ∷ []),
            );
            limit = h.limit;
            sorted =
                Sorted-with_entry p.queues t (entry p.queues t ++ work ∷ []) h.sorted
                  (All-append _ (entry p.queues t) (work ∷ []) (h.sorted t) (refl, tt));
          }))

module _ (o : Options) (small : o.workers < word) (p : Pool) (h : IsBounded o p) where
  by_priority_small : (t : Priority) → entry p.active_by_priority t ≤ p.active
  by_priority_small t =
      omega
        (arith, h.active, h.each t, count-le-length t p.analysing, count-le-length t p.finishing)

  each_small : (t : Priority) → entry p.active_by_priority t < word
  each_small t = omega (arith, by_priority_small t, h.active, h.threads)

  pub taken-IsBounded :
      (t : Priority) (now : ℕ) (work : Work) (rest : List Work)
      → entry p.queues t ≡ work ∷ rest
      → 0 < p.idle
      → ((t ≡ historical) → entry p.active_by_priority historical < historical_limit o)
      → IsBounded o (taken p t now work rest)
  unfolding taken pending_unlocked count
  taken-IsBounded t now work rest e idle below =
      let room : entry p.active_by_priority t + 1 < word =
        omega (arith, by_priority_small t, h.active, h.threads) in
      let waits = subst (All (λ w. w.priority ≡ t)) e (h.sorted t) in
      record {
        active = omega (arith, h.active, h.threads);
        each = λ s.
            entry-raised p.active_by_priority t s room
            ∙ ap (λ u. one u s + entry p.active_by_priority s) (sym waits.0)
            ∙ omega (arith, h.each s);
        threads = omega (arith, h.threads);
        pending = omega (
          arith,
          h.pending,
          h.active,
          h.threads,
          ap length e,
          queue_sizes-with_entry p.queues t rest,
        );
        limit = elim (one_cases t) [
          | inl is_historical ↦ omega (
            arith,
            below is_historical,
            one-le t historical,
            entry-raised p.active_by_priority t historical room,
          )
          | inr other ↦
              omega (arith, h.limit, other, entry-raised p.active_by_priority t historical room)
        ];
        sorted = Sorted-with_entry p.queues t rest h.sorted waits.1;
      }

  pub finish-IsBounded :
      (before : List Work) (work : Work) (after : List Work)
      → p.finishing ≡ before ++ work ∷ after
      → IsBounded o (finish_active p work (before ++ after))
  unfolding finish_active release pending_unlocked
  finish-IsBounded before work after e =
      let n = length-taken_out before work after e in
      let each =
        entry-released p.active_by_priority work.priority
          (λ s. count s p.analysing + count s (before ++ after))
          (λ s. omega (arith, h.each s, count-taken_out s before work after e)) each_small in
      record {
        active = omega (arith, n, h.active, h.threads);
        each = each;
        threads = omega (arith, n, h.threads);
        pending = omega (arith, n, h.pending, h.active, h.threads);
        limit = omega (
          arith,
          each historical,
          h.limit,
          h.each historical,
          count-taken_out historical before work after e,
        );
        sorted = h.sorted;
      }

  pub complete-IsBounded :
      (before : List Work) (work : Work) (after : List Work)
      → p.analysing ≡ before ++ work ∷ after
      → IsBounded o (count_completed p work (before ++ after))
  unfolding count_completed pending_unlocked count
  complete-IsBounded before work after e =
      let n = length-taken_out before work after e in
      record {
        active = omega (arith, n, h.active);
        each = λ s. omega (arith, h.each s, count-taken_out s before work after e);
        threads = omega (arith, n, h.threads);
        pending = h.pending;
        limit = h.limit;
        sorted = h.sorted;
      }

  pub fail-IsBounded :
      (before : List Work) (work : Work) (after : List Work) (stop_requested : Bool) (now : ℕ)
      → p.analysing ≡ before ++ work ∷ after
      → IsBounded o (fail o p work (before ++ after) stop_requested now)
  unfolding fail release pending_unlocked
  fail-IsBounded before work after stop_requested now e =
      let again : Work = record work { attempts = up work.attempts; queued_at = now } in
      let n = length-taken_out before work after e in
      let each =
        entry-released p.active_by_priority work.priority
          (λ s. count s (before ++ after) + count s p.finishing)
          (λ s. omega (arith, h.each s, count-taken_out s before work after e)) each_small in
      if-cases (IsBounded o) (retries o p work stop_requested)
        (λ retry. record {
          active = omega (arith, n, h.active, h.threads);
          each = each;
          threads = omega (arith, n, h.threads);
          pending = omega (
            arith,
            n,
            h.pending,
            h.active,
            h.threads,
            queue_sizes-with_entry p.queues work.priority (again ∷ entry p.queues work.priority),
          );
          limit = omega (
            arith,
            each historical,
            h.limit,
            h.each historical,
            count-taken_out historical before work after e,
          );
          sorted =
              Sorted-with_entry p.queues work.priority _ h.sorted (refl, h.sorted work.priority);
        })
        (λ give_up. record {
          active = omega (arith, n, h.active, h.threads);
          each = each;
          threads = omega (arith, n, h.threads);
          pending = omega (arith, n, h.pending, h.active, h.threads);
          limit = omega (
            arith,
            each historical,
            h.limit,
            h.each historical,
            count-taken_out historical before work after e,
          );
          sorted = h.sorted;
        })
