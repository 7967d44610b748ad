-- ===== src/Training/Spacing.antt =====
-- The interval to the next review depends on the last run of clean attempts alone.
use plywise.Prelude.{
  ℕ, zero, suc, ◌+◌, ◌<◌, ◌≡◌, refl, sym, subst, true, false, List, [], ◌∷◌, ◌++◌, arith, All,
  length, ◌∙◌, ap, if-cases, Bool-cases, inl, inr,
}
use plywise.Training.{
  DrillAttempt, resets, interval_loop, interval_after, interval_of_streak, lengthened,
}

-- Correct, without having been told the move.
abbrev pub IsClean : DrillAttempt → Type 0
IsClean attempt = resets attempt ≡ false

-- 1, 3, and then 2.2 times the interval before.
unfoldable pub spaced : ℕ → ℕ
spaced zero = 0
spaced (suc zero) = 1
spaced (suc (suc zero)) = 3
spaced (suc (suc (suc n))) = lengthened (spaced (suc (suc n)))

pub spaced-zero : spaced 0 ≡ 0
unfolding spaced
spaced-zero = refl

three_up : (n : ℕ) → suc (suc (suc n)) ≡ suc (suc n) + 1
three_up n = omega arith

spaced-step : (n : ℕ) → interval_of_streak (n + 1) (spaced n) ≡ spaced (n + 1)
unfolding interval_of_streak spaced
spaced-step zero = refl
spaced-step (suc zero) = refl
spaced-step (suc (suc n)) =
    subst (λ k. interval_of_streak k (spaced (suc (suc n))) ≡ spaced k) (three_up n) (ground arith)

lengthened-gt : (interval : ℕ) → interval < lengthened interval
unfolding lengthened
lengthened-gt interval = ground arith

spaced-gt : (n : ℕ) → spaced n < interval_of_streak (n + 1) (spaced n)
unfolding interval_of_streak spaced
spaced-gt zero = omega arith
spaced-gt (suc zero) = omega arith
spaced-gt (suc (suc n)) = ground (arith, lengthened-gt (spaced (suc (suc n))))

clean_loop :
    (attempts : List DrillAttempt) (n : ℕ)
    → All IsClean attempts
    → interval_loop attempts (spaced n) n ≡ spaced (n + length attempts)
unfolding interval_loop
clean_loop [] n h = ap spaced (omega arith)
clean_loop (attempt ∷ attempts) n (clean, h) =
    rw (clean, spaced-step n) (clean_loop attempts (n + 1) h ∙ ap spaced (omega arith))

interval_loop-reset :
    (before : List DrillAttempt) (attempt : DrillAttempt) (after : List DrillAttempt)
    (interval streak : ℕ)
    → resets attempt ≡ true
    → interval_loop (before ++ attempt ∷ after) interval streak ≡ interval_loop after 0 0
unfolding interval_loop
interval_loop-reset [] attempt after interval streak h = rw h refl
interval_loop-reset (a ∷ before) attempt after interval streak h =
    if-cases (λ r. r ≡ interval_loop after 0 0) (resets a)
      (λ again. interval_loop-reset before attempt after 0 0 h)
      (λ clean.
        interval_loop-reset before attempt after (interval_of_streak (streak + 1) interval)
          (streak + 1) h)

-- After an attempt that failed or was told the move, n clean attempts give the n-th interval of
-- 0, 1, 3, 7, 15, 33, and so on, whatever came before.
pub interval_after-reset :
    (before : List DrillAttempt) (attempt : DrillAttempt) (after : List DrillAttempt)
    → resets attempt ≡ true
    → All IsClean after
    → interval_after (before ++ attempt ∷ after) ≡ spaced (length after)
unfolding interval_after
interval_after-reset before attempt after h clean =
    interval_loop-reset before attempt after 0 0 h
    ∙ ap (λ n. interval_loop after n 0) (sym spaced-zero)
    ∙ clean_loop after 0 clean
    ∙ ap spaced (omega arith)

loop-grows :
    (attempts : List DrillAttempt) (attempt : DrillAttempt) (streak : ℕ)
    → IsClean attempt
    → interval_loop attempts (spaced streak) streak
      < interval_loop (attempts ++ attempt ∷ []) (spaced streak) streak
unfolding interval_loop spaced
loop-grows [] attempt streak clean = rw clean (spaced-gt streak)
loop-grows (a ∷ attempts) attempt streak clean = elim (Bool-cases (resets a)) [
  | inl again ↦ rw again (loop-grows attempts attempt 0 clean)
  | inr longer ↦ rw (longer, spaced-step streak) (loop-grows attempts attempt (streak + 1) clean)
]

-- A clean attempt always makes the interval longer, also where 2.2 times it does not fit an `int`.
pub interval_after-grows :
    (attempts : List DrillAttempt) (attempt : DrillAttempt)
    → IsClean attempt
    → interval_after attempts < interval_after (attempts ++ attempt ∷ [])
unfolding interval_after spaced
interval_after-grows attempts attempt clean = loop-grows attempts attempt 0 clean
