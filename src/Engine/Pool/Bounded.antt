-- ===== src/Engine/Pool/Bounded.antt =====
-- The bounds of the pool: workers, pending requests, and the share of historical requests.
use plywise.Chess.Hash.{word}
use plywise.Engine.Pool.{
  Options, Pool, Priority, interactive, current_game, historical, Work, PerPriority, entry,
  with_entry, pending_unlocked, historical_limit, up, down,
}
use plywise.Prelude.{
  ℕ, ◌+◌, ◌≤◌, ◌<◌, ◌≡◌, ◌⊎◌, inl, inr, refl, ap, ◌∙◌, List, [], ◌∷◌, ◌++◌, arith, length, All,
}

unfoldable pub one : Priority → Priority → ℕ
one interactive interactive = 1
one current_game current_game = 1
one historical historical = 1
one _ _ = 0

-- How many of the works have this priority.
unfoldable pub count : Priority → List Work → ℕ
count t [] = 0
count t (w ∷ ws) = one w.priority t + count t ws

count-append : (t : Priority) (xs ys : List Work) → count t (xs ++ ys) ≡ count t xs + count t ys
unfolding count
count-append t [] ys = omega arith
count-append t (x ∷ xs) ys = omega (arith, count-append t xs ys)

pub count-taken_out :
    (t : Priority) {ws : List Work} (before : List Work) (work : Work) (after : List Work)
    → ws ≡ before ++ work ∷ after
    → count t ws ≡ one work.priority t + count t (before ++ after)
count-taken_out t before work after h =
    ap (count t) h
    ∙ unfold count in
      omega (arith, count-append t before (work ∷ after), count-append t before after)

pub one-le : (t s : Priority) → one t s ≤ 1
unfolding one
one-le t s = by_cases t s
  where
    by_cases : (t s : Priority) → one t s ≤ 1
    by_cases interactive interactive = omega arith
    by_cases interactive current_game = omega arith
    by_cases interactive historical = omega arith
    by_cases current_game interactive = omega arith
    by_cases current_game current_game = omega arith
    by_cases current_game historical = omega arith
    by_cases historical interactive = omega arith
    by_cases historical current_game = omega arith
    by_cases historical historical = omega arith

pub one_refl : (t : Priority) → one t t ≡ 1
unfolding one
one_refl interactive = refl
one_refl current_game = refl
one_refl historical = refl

pub one_cases : (t : Priority) → (t ≡ historical) ⊎ (one t historical ≡ 0)
unfolding one
one_cases interactive = inr refl
one_cases current_game = inr refl
one_cases historical = inl refl

pub count-le-length : (t : Priority) (ws : List Work) → count t ws ≤ length ws
unfolding count
count-le-length t [] = omega arith
count-le-length t (w ∷ ws) = omega (arith, count-le-length t ws, one-le w.priority t)

pub entry-raised :
    (a : PerPriority ℕ) (t s : Priority)
    → entry a t + 1 < word
    → entry (with_entry a t (up (entry a t))) s ≡ one t s + entry a s
unfolding entry with_entry one
entry-raised a interactive interactive h = omega arith
entry-raised a interactive current_game h = omega arith
entry-raised a interactive historical h = omega arith
entry-raised a current_game interactive h = omega arith
entry-raised a current_game current_game h = omega arith
entry-raised a current_game historical h = omega arith
entry-raised a historical interactive h = omega arith
entry-raised a historical current_game h = omega arith
entry-raised a historical historical h = omega arith

pub entry-lowered :
    (a : PerPriority ℕ) (t s : Priority)
    → 0 < entry a t
    → entry a t < word
    → one t s + entry (with_entry a t (down (entry a t))) s ≡ entry a s
unfolding entry with_entry one
entry-lowered a interactive interactive h k = omega arith
entry-lowered a interactive current_game h k = omega arith
entry-lowered a interactive historical h k = omega arith
entry-lowered a current_game interactive h k = omega arith
entry-lowered a current_game current_game h k = omega arith
entry-lowered a current_game historical h k = omega arith
entry-lowered a historical interactive h k = omega arith
entry-lowered a historical current_game h k = omega arith
entry-lowered a historical historical h k = omega arith

-- What the counters are once one of the works counted has been released.
pub entry-released :
    (a : PerPriority ℕ) (t : Priority) (rest : Priority → ℕ)
    → ((s : Priority) → entry a s ≡ one t s + rest s)
    → ((s : Priority) → entry a s < word)
    → (s : Priority) → entry (with_entry a t (down (entry a t))) s ≡ rest s
entry-released a t rest h small s =
    omega (arith, entry-lowered a t s (omega (arith, h t, one_refl t)) (small t), h s)

-- The work waits in the queue of its priority.
abbrev pub Sorted : PerPriority (List Work) → Type 0
Sorted q = (t : Priority) → All (λ w. w.priority ≡ t) (entry q t)

pub Sorted-with_entry :
    (q : PerPriority (List Work)) (t : Priority) (ws : List Work)
    → Sorted q
    → All (λ w. w.priority ≡ t) ws
    → Sorted (with_entry q t ws)
unfolding entry with_entry
Sorted-with_entry q interactive ws h k interactive = k
Sorted-with_entry q interactive ws h k current_game = h current_game
Sorted-with_entry q interactive ws h k historical = h historical
Sorted-with_entry q current_game ws h k interactive = h interactive
Sorted-with_entry q current_game ws h k current_game = k
Sorted-with_entry q current_game ws h k historical = h historical
Sorted-with_entry q historical ws h k interactive = h interactive
Sorted-with_entry q historical ws h k current_game = h current_game
Sorted-with_entry q historical ws h k historical = k

pub record IsBounded (o : Options) (p : Pool) : Type 0 where
  -- The counters say what the threads do.
  pub active : p.active ≡ length p.analysing + length p.finishing
  pub each :
      (t : Priority) → entry p.active_by_priority t ≡ count t p.analysing + count t p.finishing
  pub threads : p.idle + p.exited + length p.analysing + length p.finishing ≡ o.workers
  pub pending : pending_unlocked p ≤ o.max_pending
  pub limit : entry p.active_by_priority historical ≤ historical_limit o
  pub sorted : Sorted p.queues
