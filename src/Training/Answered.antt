-- ===== src/Training/Answered.antt =====
-- When a drill that has just been answered is due again.
use plywise.Prelude.Int.{ℤ, pos, ◌+ℤ◌}
use plywise.Prelude.{
  ℕ, ◌<◌, ◌≤◌, ◌+◌, ◌*◌, ◌≡◌, ◌⊎◌, inl, inr, refl, ◌∙◌, true, false, List, [], ◌∷◌, ◌++◌, arith,
  All, Bool-cases, if-cases, ◌==◌, length, length-append,
}
use plywise.Training.{DrillAttempt, resets, interval_after}
use plywise.Training.Schedule.{
  Drill, due, upcoming, mastered, day_ms, at_most, greater, last_review, next_review, state_at,
}
use plywise.Training.Spacing.{IsClean, interval_after-reset, interval_after-grows, spaced-zero}

-- The drill with one more attempt.
abbrev pub answered : Drill → DrillAttempt → Drill
answered drill attempt = record drill { attempts = drill.attempts ++ attempt ∷ [] }

-- All attempts were made by this time.
abbrev pub ByTime : ℕ → List DrillAttempt → Type 0
ByTime t = All (λ attempt. at_most attempt.attempted_at_ms (pos t) ≡ true)

greater_by :
    (t : ℕ) (a b : ℤ)
    → at_most a (pos t) ≡ true
    → at_most b (pos t) ≡ true
    → at_most (greater a b) (pos t) ≡ true
greater_by t a b h k = elim (Bool-cases (at_most a b)) [ inl e ↦ rw e k | inr e ↦ rw e h ]

last_review_answered :
    (t : ℕ) (last : ℤ) (attempts : List DrillAttempt) (attempt : DrillAttempt)
    → at_most last (pos t) ≡ true
    → ByTime t attempts
    → attempt.attempted_at_ms ≡ pos t
    → last_review last (attempts ++ attempt ∷ []) ≡ pos t
unfolding last_review
last_review_answered t last [] attempt l h e = rw (e, l) refl
last_review_answered t last (a ∷ attempts) attempt l (h, hs) e =
    last_review_answered t (greater last a.attempted_at_ms) attempts attempt
      (greater_by t last a.attempted_at_ms l h) hs e

some_attempt :
    (attempts : List DrillAttempt) (attempt : DrillAttempt)
    → (length (attempts ++ attempt ∷ []) == 0) ≡ false
some_attempt attempts attempt = ground (arith, length-append attempts (attempt ∷ []))

from_zero : (t : ℕ) → at_most (pos 0) (pos t) ≡ true
unfolding at_most
from_zero t = ground arith

module _ (drill : Drill) (attempt : DrillAttempt) (t : ℕ) (h : ByTime t drill.attempts)
    (e : attempt.attempted_at_ms ≡ pos t) where
  next_review-answered :
      next_review (answered drill attempt)
      ≡ pos (t + interval_after (drill.attempts ++ attempt ∷ []) * day_ms)
  unfolding next_review ◌+ℤ◌ at_most
  next_review-answered =
      rw
        (
          some_attempt drill.attempts attempt,
          last_review_answered t (pos 0) drill.attempts attempt (from_zero t) h e,
        )
        (ground arith)

  -- A drill whose last answer was wrong or told, at a time that no attempt before it is later than, is due
  -- from then on.
  pub state_at-failed :
      (now : ℕ)
      → resets attempt ≡ true
      → t ≤ now
      → state_at (answered drill attempt) (pos now) ≡ due
  unfolding state_at at_most
  state_at-failed now reset later =
      let none_left : interval_after (drill.attempts ++ attempt ∷ []) ≡ 0 =
        interval_after-reset drill.attempts attempt [] reset tt ∙ spaced-zero in
      rw (some_attempt drill.attempts attempt, next_review-answered, none_left) (ground arith)

  -- A drill whose last answer was right and not told, at a time that no attempt before it is later than, is
  -- mastered or upcoming, so not due, until one day more than the interval that it had before has passed.
  pub state_at-clean :
      (now : ℕ)
      → IsClean attempt
      → now < t + (interval_after drill.attempts + 1) * day_ms
      → (state_at (answered drill attempt) (pos now) ≡ mastered)
        ⊎ (state_at (answered drill attempt) (pos now) ≡ upcoming)
  unfolding state_at at_most
  state_at-clean now clean soon =
      let longer = interval_after-grows drill.attempts attempt clean in
      let waits : at_most (next_review (answered drill attempt)) (pos now) ≡ false =
        rw next_review-answered (ground arith) in
      rw (some_attempt drill.attempts attempt, waits)
        (if-cases (λ s. (s ≡ mastered) ⊎ (s ≡ upcoming)) _ (λ x. inl refl) (λ x. inr refl))
