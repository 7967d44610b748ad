-- ===== src/Training/Schedule.antt =====
-- When a drill is due and how urgent it is: `schedule` and the hint levels, src/training/training.cpp.
-- Times and priorities are unbounded integers; a ratio of doubles is a fraction.
use plywise.Chess.Square.{Text}
use plywise.Prelude.Int.{ℤ, pos, negsuc, ◌+ℤ◌}
use plywise.Prelude.{
  ℕ, zero, suc, ◌+◌, ◌-◌, ◌*◌, ◌/◌, ◌%◌, Bool, true, false, not, ◌&&◌, List, [], ◌∷◌, leb, ltb,
  ◌==◌, if◌then◌else◌, length,
}
use plywise.Training.{DrillAttempt, is_told, interval_after}

-- The fields that the schedule and the queue read, and the id.
pub record Drill : Type 0 where
  pub id : Text
  pub category : Text
  pub impact_cp : ℤ
  pub created_at_ms : ℤ
  pub attempts : List DrillAttempt
  pub session_hint_level : ℤ
  pub session_started_at_ms : ℤ

-- `new` is the state `New`.
pub data DrillState : Type 0 where
  new due upcoming mastered : DrillState

-- A ratio: the numerator, and the denominator.
pub record Rate : Type 0 where
  pub part : ℕ
  pub whole : ℕ

pub record Schedule : Type 0 where
  pub state : DrillState
  pub last_review_ms : ℤ
  pub next_review_ms : ℤ
  pub correct : ℕ
  pub total : ℕ
  pub success_rate : Rate
  pub retention : Rate
  pub interval_days : ℕ
  pub priority : ℤ

abbrev pub day_ms : ℕ
day_ms = 86400000

-- `a <= b`.
unfoldable pub at_most : ℤ → ℤ → Bool
at_most (pos m) (pos n) = leb m n
at_most (pos m) (negsuc n) = false
at_most (negsuc m) (pos n) = true
at_most (negsuc m) (negsuc n) = leb n m

abbrev pub greater : ℤ → ℤ → ℤ
greater a b = if at_most a b then b else a

abbrev pub lesser : ℤ → ℤ → ℤ
lesser a b = if at_most b a then b else a

abbrev pub opposite_of : ℤ → ℤ
opposite_of (pos zero) = pos 0
opposite_of (pos (suc n)) = negsuc n
opposite_of (negsuc n) = pos (suc n)

-- The conversion to `int`, modulo 2^32.
unfoldable pub to_int : ℕ → ℤ
to_int n =
    let word = n % 4294967296 in
    if ltb word 2147483648 then pos word else negsuc (4294967295 - word)

-- Division by 2, which rounds towards zero.
unfoldable pub half : ℤ → ℤ
half (pos n) = pos (n / 2)
half (negsuc n) = opposite_of (pos (suc n / 2))

unfoldable pub times : ℕ → ℤ → ℤ
times k (pos n) = pos (k * n)
times k (negsuc n) = opposite_of (pos (k * suc n))

unfoldable pub count_correct : List DrillAttempt → ℕ
count_correct [] = 0
count_correct (attempt ∷ attempts) =
    if attempt.correct then 1 + count_correct attempts else count_correct attempts

unfoldable pub last_review : ℤ → List DrillAttempt → ℤ
last_review last [] = last
last_review last (attempt ∷ attempts) = last_review (greater last attempt.attempted_at_ms) attempts

-- The last attempt is correct and was made without being told.
unfoldable pub last_correct : List DrillAttempt → Bool
last_correct [] = false
last_correct (attempt ∷ []) = attempt.correct && not (is_told attempt.hint_level)
last_correct (attempt ∷ attempt' ∷ attempts) = last_correct (attempt' ∷ attempts)

abbrev pub no_rate : Rate
no_rate = record { part = 0; whole = 1 }

-- `success_rate >= 0.8`; rounding tells no fraction with fewer than 2^50 attempts from another.
unfoldable pub is_high : Rate → Bool
is_high rate = leb (8 * rate.whole) (10 * rate.part)

unfoldable pub success : List DrillAttempt → Rate
success [] = no_rate
success (attempt ∷ attempts) = record {
  part = count_correct (attempt ∷ attempts);
  whole = length (attempt ∷ attempts);
}

unfoldable pub next_review : Drill → ℤ
next_review drill =
    if length drill.attempts == 0
    then drill.created_at_ms
    else last_review (pos 0) drill.attempts +ℤ pos (interval_after drill.attempts * day_ms)

unfoldable pub state_at : Drill → ℤ → DrillState
state_at drill now_ms =
    if length drill.attempts == 0
    then new
    else if leb 21 (interval_after drill.attempts)
        && is_high (success drill.attempts)
        && not (at_most (next_review drill) now_ms)
    then mastered
    else if at_most (next_review drill) now_ms
    then due
    else upcoming

unfoldable pub overdue_days : ℤ → ℤ → ℤ
overdue_days now_ms next =
    if at_most now_ms next
    then pos 0
    else elim (now_ms +ℤ opposite_of next) [ pos late ↦ to_int (late / day_ms) | negsuc n ↦ pos 0 ]

unfoldable pub is_mastered : DrillState → Bool
is_mastered mastered = true
is_mastered _ = false

unfoldable pub priority_at : Drill → ℤ → ℕ → ℤ
priority_at drill now_ms category_frequency =
    (if last_correct drill.attempts then pos 0 else pos 400)
    +ℤ times 30 (to_int category_frequency)
    +ℤ lesser (pos 300) (half drill.impact_cp)
    +ℤ lesser (pos 200) (times 10 (overdue_days now_ms (next_review drill)))
    +ℤ (if is_mastered (state_at drill now_ms) then opposite_of (pos 300) else pos 0)

unfoldable pub schedule : Drill → ℤ → ℕ → Schedule
schedule drill now_ms category_frequency = record {
  state = state_at drill now_ms;
  last_review_ms = last_review (pos 0) drill.attempts;
  next_review_ms = next_review drill;
  correct = count_correct drill.attempts;
  total = length drill.attempts;
  success_rate = success drill.attempts;
  retention = if last_correct drill.attempts then success drill.attempts else no_rate;
  interval_days = interval_after drill.attempts;
  priority = priority_at drill now_ms category_frequency;
}

unfoldable pub any_attempt : List DrillAttempt → Bool
any_attempt [] = false
any_attempt (attempt ∷ attempts) = true

-- The failures at the end of the list.
unfoldable pub failures_since : ℕ → List DrillAttempt → ℕ
failures_since failures [] = failures
failures_since failures (attempt ∷ attempts) =
    failures_since (if attempt.correct then 0 else failures + 1) attempts

unfoldable pub last_solved : List DrillAttempt → Bool
last_solved [] = true
last_solved (attempt ∷ []) = attempt.correct
last_solved (attempt ∷ attempt' ∷ attempts) = last_solved (attempt' ∷ attempts)

unfoldable pub next_hint_level : Drill → ℤ
next_hint_level drill =
    if last_solved drill.attempts
    then drill.session_hint_level
    else greater drill.session_hint_level
        (lesser (pos 3) (to_int (failures_since 0 drill.attempts)))

unfoldable pub failures_in_session : ℤ → List DrillAttempt → ℕ
failures_in_session started [] = 0
failures_in_session started (attempt ∷ attempts) =
    if at_most started attempt.attempted_at_ms && not attempt.correct
    then 1 + failures_in_session started attempts
    else failures_in_session started attempts

unfoldable pub is_zero : ℤ → Bool
is_zero (pos n) = n == 0
is_zero (negsuc n) = false

unfoldable pub available_hint_level : Drill → ℤ
available_hint_level drill =
    if is_zero drill.session_started_at_ms
    then pos 0
    else lesser (pos 3) (to_int (failures_in_session drill.session_started_at_ms drill.attempts))
