-- ===== src/Training/Queue.antt =====
-- The order in which drills are reviewed: `review_queue`, src/training/training.cpp.
pub mod Totals
use plywise.Chess.Square.{Text}
use plywise.Json.{text_lt, text_eq}
use plywise.Prelude.Int.{ℤ}
use plywise.Prelude.{
  ℕ, zero, suc, ◌+◌, Bool, true, false, not, List, [], ◌∷◌, ◌++◌, map, leb, ltb, if◌then◌else◌,
  length, drop,
}
use plywise.Training.Schedule.{Drill, schedule, at_most}

-- One entry of `grouped`.
pub record Group : Type 0 where
  pub category : Text
  pub drills : List Drill

-- `grouped[drill.category].push_back(drill)`, on the map's entries in the order of their keys.
unfoldable pub group_in : Drill → List Group → List Group
group_in drill [] = record { category = drill.category; drills = drill ∷ [] } ∷ []
group_in drill (group ∷ groups) =
    let later = group_in drill groups in
    if text_eq group.category drill.category
    then record group { drills = group.drills ++ drill ∷ [] } ∷ groups
    else if text_lt drill.category group.category
    then record { category = drill.category; drills = drill ∷ [] } ∷ (group ∷ groups)
    else group ∷ later

unfoldable pub group_all : List Drill → List Group → List Group
group_all [] groups = groups
group_all (drill ∷ drills) groups = group_all drills (group_in drill groups)

-- `std::stable_sort`, by what goes strictly before what.
unfoldable pub insert_stably {ℓ} : {A : Type ℓ} → (A → A → Bool) → A → List A → List A
insert_stably before x [] = x ∷ []
insert_stably before x (y ∷ ys) =
    let rest = insert_stably before x ys in if before y x then y ∷ rest else x ∷ y ∷ ys

unfoldable pub stable_sort {ℓ} : {A : Type ℓ} → (A → A → Bool) → List A → List A
stable_sort before [] = []
stable_sort before (x ∷ xs) = insert_stably before x (stable_sort before xs)

-- The comparison of the drills of a category with this many drills.
unfoldable pub is_before : ℤ → ℕ → Drill → Drill → Bool
is_before now_ms frequency left right =
    not
      (at_most (schedule left now_ms frequency).priority (schedule right now_ms frequency).priority)

unfoldable pub sort_group : ℤ → Group → Group
sort_group now_ms group = record group {
  drills = stable_sort (is_before now_ms (length group.drills)) group.drills;
}

-- The comparison of the categories, by their first drills; no group is empty.
unfoldable pub front_leads : ℤ → List Drill → List Drill → Bool
front_leads now_ms (left ∷ ls) (right ∷ rs) = not (
    at_most (schedule left now_ms (suc (length ls))).priority
      (schedule right now_ms (suc (length rs))).priority)
front_leads now_ms _ _ = false

unfoldable pub leads : ℤ → Group → Group → Bool
leads now_ms left right = front_leads now_ms left.drills right.drills

-- The drill at this place of a group, if it has one.
unfoldable pub item_at : List Drill → ℕ → List Drill
item_at [] round = []
item_at (drill ∷ drills) zero = drill ∷ []
item_at (drill ∷ drills) (suc round) = item_at drills round

-- The inner loop: a drill of each category that has one left.
unfoldable pub round_of : List Group → ℕ → List Drill
round_of [] round = []
round_of (group ∷ groups) round = item_at group.drills round ++ round_of groups round

-- The outer loop, which runs while fewer drills than `size` have been pushed.
unfoldable pub rounds : ℕ → List Group → ℕ → ℕ → List Drill → List Drill
rounds zero groups size round result = result
rounds (suc fuel) groups size round result =
    let more = rounds fuel groups size (suc round) (result ++ round_of groups round) in
    if ltb (length result) size then more else result

unfoldable pub ordered_groups : List Drill → ℤ → List Group
ordered_groups drills now_ms =
    stable_sort (leads now_ms) (map (sort_group now_ms) (group_all drills []))

-- As many rounds as there are drills are enough.
unfoldable pub review_queue : List Drill → ℤ → List Drill
review_queue drills now_ms =
    rounds (length drills) (ordered_groups drills now_ms) (length drills) 0 []
