-- ===== src/App/Jobs/Work/Sorted.antt =====
-- Each queue holds tasks of its own priority.
use plywise.App.Jobs.{
  Manager, Task, ActiveTask, lookup, update, enqueue, staying, moving, is_promoted, promote_queue,
  promote, promote_to, promote_if, stop_active, priority_index,
}
use plywise.Engine.Pool.{
  Priority, interactive, current_game, historical, PerPriority, entry, with_entry,
}
use plywise.Prelude.{
  ℕ, ◌≡◌, refl, List, [], ◌∷◌, ◌++◌, Option, none, some, All, All-append, ltb, leb, if-cases,
}

abbrev pub HasPriority : Priority → Task → Type 0
HasPriority p t = t.priority ≡ p

pub record AreSorted (q : PerPriority (List Task)) : Type 0 where
  pub first : All (HasPriority interactive) q.interactive
  pub second : All (HasPriority current_game) q.current_game
  pub third : All (HasPriority historical) q.historical

abbrev pub IsSorted : Manager → Type 0
IsSorted m = AreSorted m.queues

pub entry-AreSorted :
    (q : PerPriority (List Task)) (p : Priority) → AreSorted q → All (HasPriority p) (entry q p)
unfolding entry
entry-AreSorted q interactive h = h.first
entry-AreSorted q current_game h = h.second
entry-AreSorted q historical h = h.third

pub with_entry-AreSorted :
    (q : PerPriority (List Task)) (p : Priority) (ts : List Task)
    → AreSorted q
    → All (HasPriority p) ts
    → AreSorted (with_entry q p ts)
unfolding with_entry
with_entry-AreSorted q interactive ts h a = record { first = a; second = h.second; third = h.third }
with_entry-AreSorted q current_game ts h a = record { first = h.first; second = a; third = h.third }
with_entry-AreSorted q historical ts h a = record { first = h.first; second = h.second; third = a }

pub enqueue-IsSorted : (t : Task) (m : Manager) → IsSorted m → IsSorted (enqueue t m)
unfolding enqueue
enqueue-IsSorted t m h =
    with_entry-AreSorted m.queues t.priority (entry m.queues t.priority ++ t ∷ []) h (
      All-append (HasPriority t.priority) (entry m.queues t.priority) (t ∷ [])
        (entry-AreSorted m.queues t.priority h) (refl, tt))

staying-All :
    (P : Task → Type 0) (id : ℕ) (p : Priority) (ts : List Task)
    → All P ts
    → All P (staying id p ts)
unfolding staying
staying-All P id p [] h = tt
staying-All P id p (t ∷ ts) h =
    if-cases (All P) (is_promoted id p t) (λ e. staying-All P id p ts h.1)
      (λ e. (h.0, staying-All P id p ts h.1))

moving-HasPriority : (id : ℕ) (p : Priority) (ts : List Task) → All (HasPriority p) (moving id p ts)
unfolding moving
moving-HasPriority id p [] = tt
moving-HasPriority id p (t ∷ ts) =
    if-cases (All (HasPriority p)) (is_promoted id p t) (λ e. (refl, moving-HasPriority id p ts))
      (λ e. moving-HasPriority id p ts)

promote_queue-IsSorted :
    (id : ℕ) (p from : Priority) (m : Manager) → IsSorted m → IsSorted (promote_queue id p from m)
unfolding promote_queue
promote_queue-IsSorted id p from m h =
    let queue = entry m.queues from in
    let left = with_entry m.queues from (staying id p queue) in
    let kept : AreSorted left =
      with_entry-AreSorted m.queues from (staying id p queue) h
        (staying-All (HasPriority from) id p queue (entry-AreSorted m.queues from h)) in
    with_entry-AreSorted left p (entry left p ++ moving id p queue) kept (
      All-append (HasPriority p) (entry left p) (moving id p queue) (entry-AreSorted left p kept)
        (moving-HasPriority id p queue))

stop_active-IsSorted :
    (p : Priority) (o : Option ActiveTask) (m : Manager) → IsSorted m → IsSorted (stop_active p o m)
stop_active-IsSorted p none m h = h
stop_active-IsSorted p (some active) m h =
    if-cases IsSorted (ltb (priority_index p) (priority_index active.priority)) (λ e. h) (λ e. h)

pub promote-IsSorted :
    (id : ℕ) (p : Priority) (m : Manager) → IsSorted m → IsSorted (promote id p m)
unfolding promote
promote-IsSorted id p m h = promoted (lookup id m.requested_priorities)
  where
    first : Manager
    first = record m { requested_priorities = update id (λ r. p) m.requested_priorities }

    second : Manager
    second = promote_queue id p interactive first

    third : Manager
    third = promote_queue id p current_game second

    fourth : Manager
    fourth = promote_queue id p historical third

    all_moved : IsSorted (promote_to id p m)
    all_moved = stop_active-IsSorted p (lookup id m.active_tasks) fourth (
        promote_queue-IsSorted id p historical third (
          promote_queue-IsSorted id p current_game second
            (promote_queue-IsSorted id p interactive first h)))

    promoted : (o : Option Priority) → IsSorted (promote_if o id p m)
    promoted none = h
    promoted (some requested) =
        if-cases IsSorted (leb (priority_index requested) (priority_index p)) (λ e. h)
          (λ e. all_moved)
