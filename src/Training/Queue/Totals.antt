-- ===== src/Training/Queue/Totals.antt =====
-- Every drill is in the review queue, once.
use plywise.Json.{text_lt, text_eq}
use plywise.Prelude.Int.{ℤ}
use plywise.Prelude.{
  ℕ, zero, suc, ◌+◌, ◌≤◌, ◌<◌, ◌⊎◌, ltb→lt, length-append, ◌≡◌, refl, sym, ap, ◌∙◌, Bool, false,
  List, [], ◌∷◌, ◌++◌, map, ltb, arith, inl, inr, if-cases, length, drop,
}
use plywise.Training.Queue.{
  Group, group_in, group_all, insert_stably, stable_sort, sort_group, leads, is_before, item_at,
  round_of, rounds, ordered_groups, review_queue,
}
use plywise.Training.Schedule.{Drill}

-- The sum of the weights of a list's items.
abbrev pub total {ℓ} : {A : Type ℓ} → (A → ℕ) → List A → ℕ
total weight [] = 0
total weight (x ∷ xs) = weight x + total weight xs

module _ {ℓ} {A : Type ℓ} (weight : A → ℕ) where
  total-append : (xs ys : List A) → total weight (xs ++ ys) ≡ total weight xs + total weight ys
  total-append [] ys = omega arith
  total-append (x ∷ xs) ys = omega (arith, total-append xs ys)

  total-insert :
      (before : A → A → Bool) (x : A) (ys : List A)
      → total weight (insert_stably before x ys) ≡ weight x + total weight ys
  unfolding insert_stably
  total-insert before x [] = refl
  total-insert before x (y ∷ ys) =
      if-cases (λ t. total weight t ≡ weight x + (weight y + total weight ys)) (before y x)
        (λ e. omega (arith, total-insert before x ys)) (λ e. omega arith)

  pub total-sort :
      (before : A → A → Bool) (xs : List A) → total weight (stable_sort before xs) ≡ total weight xs
  unfolding stable_sort
  total-sort before [] = refl
  total-sort before (x ∷ xs) =
      total-insert before x (stable_sort before xs) ∙ ap (λ n. weight x + n) (total-sort before xs)

abbrev one : Drill → ℕ
one drill = 1

length-total : (drills : List Drill) → length drills ≡ total one drills
length-total [] = refl
length-total (drill ∷ drills) = omega (arith, length-total drills)

module _ (weight : Drill → ℕ) where
  abbrev group_total : Group → ℕ
  group_total group = total weight group.drills

  group_in-total :
      (drill : Drill) (groups : List Group)
      → total group_total (group_in drill groups) ≡ weight drill + total group_total groups
  unfolding group_in
  group_in-total drill [] = omega arith
  group_in-total drill (group ∷ groups) =
      if-cases
        (λ t. total group_total t ≡ weight drill + (group_total group + total group_total groups))
        (text_eq group.category drill.category)
        (λ e. omega (arith, total-append weight group.drills (drill ∷ [])))
        (λ e.
          if-cases
            (λ t.
              total group_total t ≡ weight drill + (group_total group + total group_total groups))
            (text_lt drill.category group.category) (λ e'. omega arith)
            (λ e'. omega (arith, group_in-total drill groups)))

  group_all-total :
      (drills : List Drill) (groups : List Group)
      → total group_total (group_all drills groups) ≡ total weight drills + total group_total groups
  unfolding group_all
  group_all-total [] groups = omega arith
  group_all-total (drill ∷ drills) groups =
      omega (arith, group_all-total drills (group_in drill groups), group_in-total drill groups)

  sorted_total :
      (now_ms : ℤ) (groups : List Group)
      → total group_total (map (sort_group now_ms) groups) ≡ total group_total groups
  unfolding sort_group
  sorted_total now_ms [] = refl
  sorted_total now_ms (group ∷ groups) = omega (
    arith,
    total-sort weight (is_before now_ms (length group.drills)) group.drills,
    sorted_total now_ms groups,
  )

  ordered_total :
      (drills : List Drill) (now_ms : ℤ)
      → total group_total (ordered_groups drills now_ms) ≡ total weight drills
  unfolding ordered_groups
  ordered_total drills now_ms = omega (
    arith,
    total-sort group_total (leads now_ms) (map (sort_group now_ms) (group_all drills [])),
    sorted_total now_ms (group_all drills []),
    group_all-total drills [],
  )

  -- What the groups still hold when a round begins.
  abbrev held : List Group → ℕ → ℕ
  held [] round = 0
  held (group ∷ groups) round = total weight (drop round group.drills) + held groups round

  item_at-total :
      (drills : List Drill) (round : ℕ)
      → total weight (item_at drills round) + total weight (drop (suc round) drills)
        ≡ total weight (drop round drills)
  unfolding item_at drop
  item_at-total [] zero = refl
  item_at-total [] (suc round) = refl
  item_at-total (drill ∷ drills) zero = omega arith
  item_at-total (drill ∷ drills) (suc round) = item_at-total drills round

  round_of-total :
      (groups : List Group) (round : ℕ)
      → total weight (round_of groups round) + held groups (suc round) ≡ held groups round
  unfolding round_of
  round_of-total [] round = refl
  round_of-total (group ∷ groups) round = omega (
    arith,
    total-append weight (item_at group.drills round) (round_of groups round),
    item_at-total group.drills round,
    round_of-total groups round,
  )

  held_all : (groups : List Group) → held groups 0 ≡ total group_total groups
  unfolding drop
  held_all [] = refl
  held_all (group ∷ groups) = omega (arith, held_all groups)

item_at-one :
    (drills : List Drill) (round : ℕ)
    → total one (item_at drills round) ≡ 0
    → total one (drop round drills) ≡ 0
unfolding item_at drop
item_at-one [] zero h = refl
item_at-one [] (suc round) h = refl
item_at-one (drill ∷ drills) zero h = absurd (omega (arith, h))
item_at-one (drill ∷ drills) (suc round) h = item_at-one drills round h

-- A round adds a drill as long as one is left.
round_of-one :
    (groups : List Group) (round : ℕ)
    → total one (round_of groups round) ≡ 0
    → held one groups round ≡ 0
unfolding round_of
round_of-one [] round h = refl
round_of-one (group ∷ groups) round h =
    let split = total-append one (item_at group.drills round) (round_of groups round) in
    omega (
      arith,
      item_at-one group.drills round (omega (arith, h, split)),
      round_of-one groups round (omega (arith, h, split)),
    )

Nat-cases : (n : ℕ) → (n ≡ 0) ⊎ (0 < n)
Nat-cases n = ground arith

fewer :
    (groups : List Group) (round fuel : ℕ)
    → held one groups round ≤ suc fuel
    → 0 < held one groups round
    → held one groups (suc round) ≤ fuel
fewer groups round fuel enough some' =
    let counted = round_of-total one groups round in
    elim (Nat-cases (total one (round_of groups round))) [
      | inl none' ↦ absurd (omega (arith, round_of-one groups round none', some'))
      | inr positive ↦ omega (arith, counted, positive, enough)
    ]

below : (m n left : ℕ) → ltb m n ≡ false → m + left ≡ n → left ≡ 0
below m n left h e = ground arith

module _ (weight : Drill → ℕ) where
  total_none : (drills : List Drill) → total one drills ≡ 0 → total weight drills ≡ 0
  total_none [] h = refl
  total_none (drill ∷ drills) h = absurd (omega (arith, h))

  held_none :
      (groups : List Group) (round : ℕ) → held one groups round ≡ 0 → held weight groups round ≡ 0
  held_none [] round h = refl
  held_none (group ∷ groups) round h = omega (
    arith,
    total_none (drop round group.drills) (omega (arith, h)),
    held_none groups round (omega (arith, h)),
  )

  rounds-total :
      (fuel : ℕ) (groups : List Group) (size round : ℕ) (result : List Drill)
      → held one groups round ≤ fuel
      → length result + held one groups round ≡ size
      → total weight (rounds fuel groups size round result)
        ≡ total weight result + held weight groups round
  unfolding rounds
  rounds-total zero groups size round result enough all =
      omega (arith, held_none groups round (omega (arith, enough)))
  rounds-total (suc fuel) groups size round result enough all =
      if-cases (λ t. total weight t ≡ total weight result + held weight groups round)
        (ltb (length result) size)
        (λ more.
          let added = round_of groups round in
          let counted = round_of-total one groups round in
          let longer = length-append result added in
          let rest =
            rounds-total fuel groups size (suc round) (result ++ added)
              (fewer groups round fuel enough (omega (arith, ltb→lt _ _ more, all)))
              (omega (arith, counted, longer, length-total added, all)) in
          omega (arith, rest, total-append weight result added, round_of-total weight groups round))
        (λ over. omega (arith, held_none groups round (below _ _ _ over all)))

-- Whatever the drills are counted by, the queue has the same sum as the drills that it was made of: every
-- drill is in it, once.
pub review_queue-total :
    (weight : Drill → ℕ) (drills : List Drill) (now_ms : ℤ)
    → total weight (review_queue drills now_ms) ≡ total weight drills
unfolding review_queue
review_queue-total weight drills now_ms =
    let groups = ordered_groups drills now_ms in
    let all = held_all one groups ∙ (ordered_total one drills now_ms ∙ sym (length-total drills)) in
    let done =
      rounds-total weight (length drills) groups (length drills) 0 [] (omega (arith, all))
        (omega (arith, all)) in
    omega (arith, done, held_all weight groups, ordered_total weight drills now_ms)
