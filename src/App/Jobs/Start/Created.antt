-- ===== src/App/Jobs/Start/Created.antt =====
-- A start reads, sorts and creates for the games that were asked for, and no others: src/app/job_manager.cpp.
use plywise.App.Jobs.{Job}
use plywise.App.Jobs.Inputs.{Input}
use plywise.App.Jobs.Start.{
  Starting, start_loop, sort_inputs, insert_sorted, comes_before, find_existing, promote_or_create,
  new_job,
}
use plywise.Engine.Pool.{Priority}
use plywise.Json.{Text}
use plywise.Prelude.{
  ℕ, List, [], ◌∷◌, Option, none, some, All, All-append, Among, further, if-cases,
}

abbrev pub AreAsked : List Text → List Input → Type 0
AreAsked game_ids = All (λ input. Among input.game_id game_ids)

abbrev pub ForAsked : List Text → List (ℕ × Job) → Type 0
ForAsked game_ids = All (λ entry. Among entry.1.game_id game_ids)

pub further-AreAsked :
    (game_id : Text) (game_ids : List Text) (inputs : List Input)
    → AreAsked game_ids inputs
    → AreAsked (game_id ∷ game_ids) inputs
further-AreAsked game_id game_ids [] h = tt
further-AreAsked game_id game_ids (input ∷ inputs) (inside, h) =
    (further inside, further-AreAsked game_id game_ids inputs h)

module _ (game_ids : List Text) where
  insert_sorted-AreAsked :
      (x : Input) (xs : List Input)
      → Among x.game_id game_ids
      → AreAsked game_ids xs
      → AreAsked game_ids (insert_sorted x xs)
  unfolding insert_sorted
  insert_sorted-AreAsked x [] inside h = (inside, tt)
  insert_sorted-AreAsked x (y ∷ ys) inside h =
      if-cases (AreAsked game_ids) (comes_before y x)
        (λ e. (h.0, insert_sorted-AreAsked x ys inside h.1)) (λ e. (inside, h))

  pub sort_inputs-AreAsked :
      (xs : List Input) → AreAsked game_ids xs → AreAsked game_ids (sort_inputs xs)
  unfolding sort_inputs
  sort_inputs-AreAsked [] h = tt
  sort_inputs-AreAsked (x ∷ xs) h =
      insert_sorted-AreAsked x (sort_inputs xs) h.0 (sort_inputs-AreAsked xs h.1)

  each-ForAsked :
      (priority : Priority) (s : Starting) (input : Input) (o : Option ℕ)
      → Among input.game_id game_ids
      → ForAsked game_ids s.created
      → ForAsked game_ids (promote_or_create priority s input o).created
  each-ForAsked priority s input (some id) inside h = h
  each-ForAsked priority s input none inside h =
      All-append (λ entry. Among entry.1.game_id game_ids) s.created
        ((s.manager.next_id, new_job input) ∷ []) h (inside, tt)

  pub start_loop-ForAsked :
      (priority : Priority) (s : Starting) (inputs : List Input)
      → AreAsked game_ids inputs
      → ForAsked game_ids s.created
      → ForAsked game_ids (start_loop priority s inputs).created
  unfolding start_loop
  start_loop-ForAsked priority s [] a h = h
  start_loop-ForAsked priority s (input ∷ inputs) a h =
      let found = find_existing input.game_id s.manager.jobs in
      start_loop-ForAsked priority (promote_or_create priority s input found) inputs a.1
        (each-ForAsked priority s input found a.0 h)
