-- ===== src/Engine/Pool/Counted.antt =====
-- Every request that was submitted is accounted for.
use plywise.Chess.Hash.{word}
use plywise.Engine.Pool.Steps.{
  Step, Reachable, submits, takes, completes, finishes, fails, stops, leaves, created, stepped,
}
use plywise.Engine.Pool.{
  Options, Pool, Priority, interactive, current_game, historical, Work, PerPriority, entry,
  with_entry, queued, queue_sizes, submit, take, take_front, taken, count_completed, finish_active,
  release, fail, retries, shut_down, leave, create, started, pending_unlocked, historical_limit,
}
use plywise.Errors.{ok}
use plywise.Prelude.{
  ℕ, ◌+◌, ◌%◌, ◌<◌, ◌≡◌, ◌⊎◌, inl, inr, sym, ap, subst, ◌∙◌, Bool, true, List, [], ◌∷◌, ◌++◌,
  Option, none, some, arith, length, length-append, Bool-cases, then_taken, else_taken, leb,
}

-- What `take` has done: the front of one queue, the historical one only below its limit.
pub record IsTaken (o : Options) (p : Pool) (now : ℕ) (q : Pool) (work : Work) : Type 0 where
  pub priority : Priority
  pub rest : List Work
  pub front : entry p.queues priority ≡ work ∷ rest
  pub result : q ≡ taken p priority now work rest
  pub below : (priority ≡ historical) → p.active_by_priority.historical < historical_limit o

take_front-some :
    (p : Pool) (priority : Priority) (now : ℕ) (ws : List Work) (later : Option (Pool × Work))
    {q : Pool} {work : Work}
    → take_front p priority now ws later ≡ some (q, work)
    → ((rest : List Work) × (ws ≡ work ∷ rest) × (q ≡ taken p priority now work rest))
      ⊎ (later ≡ some (q, work))
unfolding take_front
take_front-some p priority now [] later h = inr h
take_front-some p priority now (w ∷ ws) later h = inl (ws, ground arith, ground arith)

none_some : {A : Type 0} {x : A} → none ≡ some x → ⊥
none_some h = cc

pub take-IsTaken :
    (o : Options) (p : Pool) (now : ℕ) {q : Pool} {work : Work}
    → take o p now ≡ some (q, work)
    → IsTaken o p now q work
unfolding take entry
take-IsTaken o p now {q} {work} h = elim (Bool-cases p.stopping) [
  | inl stop ↦ absurd (none_some (then_taken _ stop h))
  | inr run ↦ elim (take_front-some p interactive now p.queues.interactive _ (else_taken _ run h)) [
    | inl t ↦ record {
      priority = interactive;
      rest = t.0;
      front = t.1;
      result = t.2;
      below = λ e. cc;
    }
    | inr h2 ↦ elim (take_front-some p current_game now p.queues.current_game _ h2) [
      | inl t ↦ record {
        priority = current_game;
        rest = t.0;
        front = t.1;
        result = t.2;
        below = λ e. cc;
      }
      | inr h3 ↦ elim (Bool-cases (leb (historical_limit o) p.active_by_priority.historical)) [
        | inl full ↦ absurd (none_some (then_taken _ full h3))
        | inr room ↦
            elim (take_front-some p historical now p.queues.historical none
              (else_taken _ room h3)) [
                | inl t ↦ record {
                  priority = historical;
                  rest = t.0;
                  front = t.1;
                  result = t.2;
                  below = λ e. ground arith;
                }
                | inr h4 ↦ absurd (none_some h4)
              ]
      ]
    ]
  ]
]

pub queue_sizes-with_entry :
    (q : PerPriority (List Work)) (t : Priority) (ws : List Work)
    → queue_sizes (with_entry q t ws) + length (entry q t) ≡ queue_sizes q + length ws
unfolding queue_sizes with_entry entry
queue_sizes-with_entry q interactive ws = omega arith
queue_sizes-with_entry q current_game ws = omega arith
queue_sizes-with_entry q historical ws = omega arith

pub length-taken_out :
    {ws : List Work} (before : List Work) (work : Work) (after : List Work)
    → ws ≡ before ++ work ∷ after
    → length ws ≡ 1 + length (before ++ after)
length-taken_out before work after h =
    ap length h ∙ omega (arith, length-append before (work ∷ after), length-append before after)

-- The requests that are settled, queued or being analysed.
abbrev pub accounted : Pool → ℕ
accounted p = p.completed + p.failed + p.abandoned + queued p + length p.analysing

abbrev pub Accounts : Pool → Type 0
Accounts p = p.submitted ≡ accounted p % word

submit-Accounts :
    (o : Options) (p : Pool) (t : Priority) (now : ℕ) → Accounts p → Accounts (submit o p t now).0
unfolding submit pending_unlocked
submit-Accounts o p t now h =
    let work : Work = record { priority = t; queued_at = now; attempts = 0 } in
    elim (Bool-cases p.stopping) [
      | inl stop ↦ rw stop h
      | inr run ↦ elim (Bool-cases (leb o.max_pending (pending_unlocked p))) [
        | inl full ↦ rw (run, full) h
        | inr room ↦
            rw (run, room)
              (omega (
                arith,
                h,
                queue_sizes-with_entry p.queues t (entry p.queues t ++ work ∷ []),
                length-append (entry p.queues t) (work ∷ []),
              ))
      ]
    ]

taken-Accounts :
    (p : Pool) (t : Priority) (now : ℕ) (work : Work) (rest : List Work)
    → entry p.queues t ≡ work ∷ rest
    → Accounts p
    → Accounts (taken p t now work rest)
unfolding taken
taken-Accounts p t now work rest e h =
    omega (arith, queue_sizes-with_entry p.queues t rest, ap length e)

fail-Accounts :
    (o : Options) (p : Pool) (before : List Work) (work : Work) (after : List Work)
    (stop_requested : Bool) (now : ℕ)
    → p.analysing ≡ before ++ work ∷ after
    → Accounts p
    → Accounts (fail o p work (before ++ after) stop_requested now)
unfolding fail release
fail-Accounts o p before work after stop_requested now e h =
    let again : Work = record work { attempts = (work.attempts + 1) % word; queued_at = now } in
    elim (Bool-cases (retries o p work stop_requested)) [
      | inl retry ↦ rw retry (
          omega (
            arith,
            h,
            length-taken_out before work after e,
            queue_sizes-with_entry p.queues work.priority (again ∷ entry p.queues work.priority),
          ))
      | inr give_up ↦ rw give_up (omega (arith, h, length-taken_out before work after e))
    ]

Step-Accounts : (o : Options) {p q : Pool} → Step o p q → Accounts p → Accounts q
unfolding count_completed finish_active release shut_down leave queue_sizes
Step-Accounts o (submits t now) h = submit-Accounts o _ t now h
Step-Accounts o (takes {p} now idle ready e) h =
    let t = take-IsTaken o p now e in
    subst Accounts (sym t.result) (taken-Accounts p t.priority now _ t.rest t.front h)
Step-Accounts o (completes before work after e) h =
    omega (arith, length-taken_out before work after e)
Step-Accounts o (finishes before work after e) h = h
Step-Accounts o (fails before work after stop_requested now e) h =
    fail-Accounts o _ before work after stop_requested now e h
Step-Accounts o stops h = omega arith
Step-Accounts o (leaves idle e) h = h

created-Accounts : (o : Options) {p : Pool} → create true o ≡ ok p → Accounts p
unfolding create started queue_sizes
created-Accounts o e = ground arith

-- Modulo 2^64, the requests submitted are those completed, failed, abandoned at shutdown, queued and being analysed: none is lost or counted twice, whatever the threads do next.
pub submitted-accounted :
    (o : Options) {p : Pool} → Reachable o p → p.submitted ≡ accounted p % word
submitted-accounted o (created e) = created-Accounts o e
submitted-accounted o (stepped r s) = Step-Accounts o s (submitted-accounted o r)
