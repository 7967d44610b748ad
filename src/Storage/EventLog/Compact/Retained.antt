-- ===== src/Storage/EventLog/Compact/Retained.antt =====
-- What the loop of `compact` retains.
use plywise.Errors.{Result, ok, err}
use plywise.Json.{Text, text_eq}
use plywise.Prelude.{
  ℕ, ◌≡◌, refl, ap, ◌∙◌, arith, Bool, true, false, not, ◌&&◌, ◌||◌, List, [], ◌∷◌, Option,
  Bool-cases, inl, inr, ◌==◌, if◌then◌else◌,
}
use plywise.Storage.EventLog.{Event}
use plywise.Storage.EventLog.Compact.{
  Retention, always, never, completes, shallow, latest, retention, Seen, contains, contains_other,
  keep_event, retain,
}

abbrev pub is_completes : Text → Result Retention → Bool
is_completes g (ok (completes h)) = text_eq g h
is_completes g _ = false

abbrev pub is_shallow : Text → Result Retention → Bool
is_shallow g (ok (shallow h)) = text_eq g h
is_shallow g _ = false

abbrev pub is_latest : ℕ → Text → Result Retention → Bool
is_latest n k (ok (latest m j)) = n == m && text_eq k j
is_latest n k _ = false

module _ {D : Type 0} (read : Text → Option D) where
  -- Whether one of these events asks for what the test looks for.
  unfoldable pub any : (Result Retention → Bool) → List Event → Bool
  any test [] = false
  any test (e ∷ es) = test (retention read e) || any test es

  -- An event that those after it make superfluous.
  unfoldable pub is_superseded : Result Retention → List Event → Bool
  is_superseded (ok never) later = true
  is_superseded (ok (shallow g)) later = any (is_completes g) later || any (is_shallow g) later
  is_superseded (ok (latest n k)) later = any (is_latest n k) later
  is_superseded _ later = false

  -- The events that no later one supersedes.
  unfoldable pub not_superseded : List Event → List Event
  not_superseded [] = []
  not_superseded (e ∷ es) =
      let later = not_superseded es in
      if is_superseded (retention read e) es then later else e ∷ later

completes-step :
    (g : Text) (seen : Seen) (r : Result Retention)
    → contains g (keep_event seen r).1.completed_analyses
      ≡ (is_completes g r || contains g seen.completed_analyses)
unfolding contains keep_event
completes-step g seen (err thrown) = refl
completes-step g seen (ok always) = refl
completes-step g seen (ok never) = refl
completes-step g seen (ok (completes h)) = refl
completes-step g seen (ok (shallow h)) = elim (Bool-cases (contains h seen.completed_analyses)) [
  | inl e ↦ rw e refl
  | inr e ↦ rw e refl
]
completes-step g seen (ok (latest n k)) = refl

latest-step :
    (n : ℕ) (k : Text) (seen : Seen) (r : Result Retention)
    → contains_other n k (keep_event seen r).1.others
      ≡ (is_latest n k r || contains_other n k seen.others)
unfolding contains_other keep_event
latest-step n k seen (err thrown) = refl
latest-step n k seen (ok always) = refl
latest-step n k seen (ok never) = refl
latest-step n k seen (ok (completes h)) = refl
latest-step n k seen (ok (shallow h)) = elim (Bool-cases (contains h seen.completed_analyses)) [
  | inl e ↦ rw e refl
  | inr e ↦ rw e refl
]
latest-step n k seen (ok (latest m j)) = refl

text_eq_sound : (g h : Text) → text_eq g h ≡ true → g ≡ h
unfolding text_eq
text_eq_sound [] [] e = refl
text_eq_sound [] (d ∷ ds) e = ground (arith, e)
text_eq_sound (c ∷ cs) [] e = ground (arith, e)
text_eq_sound (c ∷ cs) (d ∷ ds) e = ground (arith, text_eq_sound cs ds)

abbrev either : Text → Seen → Bool
either g seen = contains g seen.completed_analyses || contains g seen.shallow_analyses

same_key :
    (g h : Text) (b : Bool) (js : List Text)
    → contains h js ≡ true
    → (contains g js || b) ≡ (text_eq g h || (contains g js || b))
same_key g h b js e = elim (Bool-cases (text_eq g h)) [
  | inl same ↦ rw (same, ap (λ t. contains t js) (text_eq_sound g h same) ∙ e) refl
  | inr apart ↦ rw apart refl
]

or_comm_left : (a b c : Bool) → (a || (b || c)) ≡ (b || (a || c))
or_comm_left true true c = refl
or_comm_left true false c = refl
or_comm_left false b c = refl

shallow-step :
    (g : Text) (seen : Seen) (r : Result Retention)
    → either g (keep_event seen r).1 ≡ ((is_completes g r || is_shallow g r) || either g seen)
unfolding contains keep_event
shallow-step g seen (err thrown) = refl
shallow-step g seen (ok always) = refl
shallow-step g seen (ok never) = refl
shallow-step g seen (ok (completes h)) = elim (Bool-cases (text_eq g h)) [
  | inl e ↦ rw e refl
  | inr e ↦ rw e refl
]
shallow-step g seen (ok (shallow h)) = elim (Bool-cases (contains h seen.completed_analyses)) [
  | inl e ↦ rw e (same_key g h (contains g seen.shallow_analyses) seen.completed_analyses e)
  | inr e ↦ rw e (
      or_comm_left (contains g seen.completed_analyses) (text_eq g h)
        (contains g seen.shallow_analyses))
]
shallow-step g seen (ok (latest n k)) = refl

or_swap : (a b c d : Bool) → ((a || b) || (c || d)) ≡ ((a || c) || (b || d))
or_swap true b c d = refl
or_swap false true true d = refl
or_swap false true false d = refl
or_swap false false c d = refl

module _ {D : Type 0} (read : Text → Option D) where
  completed :
      (g : Text) (es : List Event)
      → contains g (retain read es).1.completed_analyses ≡ any read (is_completes g) es
  unfolding contains any retain
  completed g [] = refl
  completed g (e ∷ es) =
      completes-step g (retain read es).1 (retention read e)
      ∙ ap (λ b. is_completes g (retention read e) || b) (completed g es)

  other :
      (n : ℕ) (k : Text) (es : List Event)
      → contains_other n k (retain read es).1.others ≡ any read (is_latest n k) es
  unfolding contains_other any retain
  other n k [] = refl
  other n k (e ∷ es) =
      latest-step n k (retain read es).1 (retention read e)
      ∙ ap (λ b. is_latest n k (retention read e) || b) (other n k es)

  has_started :
      (g : Text) (es : List Event)
      → either g (retain read es).1 ≡ (any read (is_completes g) es || any read (is_shallow g) es)
  unfolding contains any retain
  has_started g [] = refl
  has_started g (e ∷ es) =
      shallow-step g (retain read es).1 (retention read e)
      ∙ ap (λ b. (is_completes g (retention read e) || is_shallow g (retention read e)) || b)
          (has_started g es)
      ∙ or_swap (is_completes g (retention read e)) (is_shallow g (retention read e))
          (any read (is_completes g) es) (any read (is_shallow g) es)

  keep_shallow :
      (g : Text) (seen : Seen) → (keep_event seen (ok (shallow g))).0 ≡ not (either g seen)
  unfolding keep_event
  keep_shallow g seen = elim (Bool-cases (contains g seen.completed_analyses)) [
    | inl e ↦ rw e refl
    | inr e ↦ rw e refl
  ]

  kept :
      (es : List Event) (r : Result Retention)
      → (keep_event (retain read es).1 r).0 ≡ not (is_superseded read r es)
  unfolding keep_event is_superseded
  kept es (err thrown) = refl
  kept es (ok always) = refl
  kept es (ok never) = refl
  kept es (ok (completes g)) = refl
  kept es (ok (shallow g)) = keep_shallow g (retain read es).1 ∙ ap not (has_started g es)
  kept es (ok (latest n k)) = ap not (other n k es)

  -- The loop, with its sets and flags, retains the events that no later one supersedes, in their order.
  pub retain-not_superseded : (es : List Event) → (retain read es).0 ≡ not_superseded read es
  unfolding retain not_superseded
  retain-not_superseded [] = refl
  retain-not_superseded (e ∷ es) =
      ap (λ b. if b then e ∷ (retain read es).0 else (retain read es).0)
        (kept es (retention read e))
      ∙ flipped (is_superseded read (retention read e) es)
      ∙ ap (λ later. if is_superseded read (retention read e) es then later else e ∷ later)
          (retain-not_superseded es)
    where
      flipped :
          (b : Bool)
          → (if not b then e ∷ (retain read es).0 else (retain read es).0)
            ≡ (if b then (retain read es).0 else e ∷ (retain read es).0)
      flipped true = refl
      flipped false = refl
