-- ===== src/Examples/Training.antt =====
-- The review intervals: the theorems at concrete attempts.
use plywise.Chess.Square.{codes, Text}
use plywise.Json.{text_lt, text_eq}
use plywise.Prelude.Int.{pos, ◌+ℤ◌}
use plywise.Prelude.{◌≡◌, ◌++◌, ◌⊎◌, refl, true, false, List, [], ◌∷◌, arith, length}
use plywise.Training.Answered.{answered, state_at-clean}
use plywise.Training.Queue.{
  group_in, group_all, insert_stably, stable_sort, is_before, sort_group, front_leads, leads,
  item_at, round_of, rounds, ordered_groups, review_queue,
}
use plywise.Training.Queue.Totals.{total, review_queue-total}
use plywise.Training.Schedule.{
  Drill, upcoming, mastered, at_most, schedule, state_at, priority_at, next_review, last_review,
  last_correct, count_correct, success, is_high, overdue_days, is_mastered, to_int, half, times,
}
use plywise.Training.Spacing.{interval_after-reset, spaced}
use plywise.Training.{
  DrillAttempt, interval_after, interval_loop, interval_of_streak, resets, is_told, lengthened,
}

abbrev solved : DrillAttempt
solved = record { attempted_at_ms = pos 1; correct = true; hint_level = pos 2 }

abbrev told : DrillAttempt
told = record { attempted_at_ms = pos 2; correct = true; hint_level = pos 3 }

interval_after-reset_example :
    interval_after ((solved ∷ []) ++ told ∷ (solved ∷ solved ∷ solved ∷ [])) ≡ spaced 3
unfolding resets is_told
interval_after-reset_example =
    interval_after-reset (solved ∷ []) told (solved ∷ solved ∷ solved ∷ []) refl
      (refl, (refl, (refl, tt)))

fifth_interval : spaced 5 ≡ 33
unfolding spaced lengthened
fifth_interval = refl

abbrev drill_of : Text → Text → List DrillAttempt → Drill
drill_of id category attempts = record {
  id = id;
  category = category;
  impact_cp = pos 150;
  created_at_ms = pos 0;
  attempts = attempts;
  session_hint_level = pos 0;
  session_started_at_ms = pos 0;
}

abbrev failed : DrillAttempt
failed = record { attempted_at_ms = pos 5; correct = false; hint_level = pos 0 }

abbrev solved_again : DrillAttempt
solved_again = record { attempted_at_ms = pos 5; correct = true; hint_level = pos 0 }

abbrev fork : Drill
fork = drill_of (codes "a") (codes "Fork") (solved ∷ solved ∷ [])

abbrev hanging : Drill
hanging = drill_of (codes "b") (codes "Hanging piece") []

abbrev second_fork : Drill
second_fork = drill_of (codes "c") (codes "Fork") []

-- The interval was three days.
state_at-clean_example :
    (state_at (answered fork solved_again) (pos 345600004) ≡ mastered)
    ⊎ (state_at (answered fork solved_again) (pos 345600004) ≡ upcoming)
unfolding resets at_most is_told interval_after interval_loop interval_of_streak
state_at-clean_example =
    state_at-clean fork solved_again 5 (refl, (refl, tt)) refl 345600004 refl (omega arith)

review_queue-total_example :
    total
      (λ drill. length drill.attempts)
      (review_queue (fork ∷ hanging ∷ second_fork ∷ []) (pos 6))
    ≡ 2
review_queue-total_example =
    review_queue-total (λ drill. length drill.attempts) (fork ∷ hanging ∷ second_fork ∷ []) (pos 6)

-- The new drills go before the one that was solved, and the categories take turns.
review_order :
    review_queue (fork ∷ hanging ∷ second_fork ∷ []) (pos 6) ≡ second_fork ∷ hanging ∷ fork ∷ []
unfolding review_queue rounds ordered_groups group_all group_in insert_stably stable_sort is_before
    sort_group front_leads leads item_at round_of text_lt text_eq schedule state_at priority_at
    next_review last_review last_correct count_correct success is_high overdue_days is_mastered
    at_most to_int half times is_told interval_after interval_loop interval_of_streak resets ◌+ℤ◌
review_order = refl
