-- ===== src/Training.antt =====
-- The schedule of the training drills: src/training/training.cpp. A `Drill` keeps the fields that these
-- functions read; times are in milliseconds.
pub mod Spacing
pub mod Schedule
pub mod Queue
pub mod Answered
use plywise.Prelude.Int.{ℤ, pos, negsuc}
use plywise.Prelude.{
  ℕ, ◌+◌, ◌*◌, ◌/◌, ◌%◌, Bool, true, false, not, ◌&&◌, ◌||◌, List, [], ◌∷◌, ltb, leb, ◌==◌,
  if◌then◌else◌,
}

pub record DrillAttempt : Type 0 where
  pub attempted_at_ms : ℤ
  pub correct : Bool
  pub hint_level : ℤ

-- `hint_level >= 3`.
unfoldable pub is_told : ℤ → Bool
is_told (pos level) = leb 3 level
is_told (negsuc n) = false

abbrev pub max : ℕ → ℕ → ℕ
max m n = if ltb m n then n else m

-- `std::lround(interval * 2.2)`: 2.2 times a whole number is never half-way between two.
abbrev pub stretched : ℕ → ℕ
stretched interval = (22 * interval + 5) / 10

-- `std::max(interval + 1, static_cast<int>(...))`: the conversion to `int` is modulo 2^32, and what
-- becomes negative is below `interval + 1`.
unfoldable pub lengthened : ℕ → ℕ
lengthened interval =
    let narrowed = stretched interval % 4294967296 in
    if ltb narrowed 2147483648 then max (interval + 1) narrowed else interval + 1

unfoldable pub interval_of_streak : ℕ → ℕ → ℕ
interval_of_streak streak interval =
    if streak == 1 then 1 else if streak == 2 then 3 else lengthened interval

unfoldable pub resets : DrillAttempt → Bool
resets attempt = not attempt.correct || is_told attempt.hint_level

-- The loop of `interval_after`.
unfoldable pub interval_loop : List DrillAttempt → ℕ → ℕ → ℕ
interval_loop [] interval streak = interval
interval_loop (attempt ∷ attempts) interval streak =
    let reset = interval_loop attempts 0 0 in
    let longer = interval_loop attempts (interval_of_streak (streak + 1) interval) (streak + 1) in
    if resets attempt then reset else longer

unfoldable pub interval_after : List DrillAttempt → ℕ
interval_after attempts = interval_loop attempts 0 0
