-- ===== src/Service/Keys/Guarded.antt =====
-- At most one refresh of the keys runs at a time, and the missing keys are bounded.
use plywise.Chess.Square.{Text}
use plywise.Prelude.{
  ℕ, suc, ◌≤◌, ◌<◌, ◌-◌, ◌≡◌, ◌⊎◌, inl, inr, refl, ap, Bool, false, ◌&&◌, List, [], ◌∷◌, ◌++◌,
  Option, none, some, arith, leb, ltb, if◌then◌else◌, if-cases, length, length-append,
}
use plywise.Service.Keys.{
  KeyCache, Lookup, find_kid, erase_kid, assign_kid, oldest_time, erase_time, erase_oldest,
  is_known, is_fresh, may_refresh, begin_lookup, after_miss, answer_loaded, note_missing, with_keys,
  finish_refresh, max_missing_kid_count, key_refresh_cooldown,
}
use plywise.Service.Keys.Steps.{
  Verifier, started, Step, asks, loads, Reachable, at_first, then_step,
}

length-erase_kid :
    (kid : Text) (entries : List (Text × ℕ)) → length (erase_kid kid entries) ≤ length entries
unfolding erase_kid
length-erase_kid kid [] = omega arith
length-erase_kid kid ((k, time) ∷ entries) = ground (arith, length-erase_kid kid entries)

length-assign_kid :
    (kid : Text) (time : ℕ) (entries : List (Text × ℕ))
    → length (assign_kid kid time entries) ≤ suc (length entries)
unfolding assign_kid
length-assign_kid kid time [] = omega arith
length-assign_kid kid time ((k, t) ∷ entries) = ground (arith, length-assign_kid kid time entries)

-- Either the time in front is the earliest, or an entry of the list is erased.
oldest_erased :
    (time : ℕ) (entries : List (Text × ℕ))
    → (time ≤ oldest_time time entries)
      ⊎ (suc (length (erase_time (oldest_time time entries) entries)) ≡ length entries)
unfolding oldest_time erase_time
oldest_erased time [] = inl (omega arith)
oldest_erased time ((k, t) ∷ entries) =
    if-cases
      (λ m.
        (time ≤ oldest_time m entries)
        ⊎ (suc (length (erase_time (oldest_time m entries) ((k, t) ∷ entries)))
            ≡ suc (length entries)))
      (ltb t time)
      (λ e. elim (oldest_erased t entries) [
        | inl h ↦ inr (ground arith)
        | inr h ↦ inr (ground arith)
      ])
      (λ e. elim (oldest_erased time entries) [ inl h ↦ inl h | inr h ↦ inr (ground arith) ])

length-erase_oldest :
    (entries : List (Text × ℕ))
    → 0 < length entries
    → length (erase_oldest entries) < length entries
unfolding erase_oldest erase_time
length-erase_oldest [] h = absurd (omega (arith, h))
length-erase_oldest ((k, t) ∷ entries) h = elim (oldest_erased t entries) [
  | inl first ↦ ground arith
  | inr later ↦ ground arith
]

one_thread :
    (front back : List (Text × Bool)) (x : Text × Bool) (refreshing : List (Text × Bool))
    (flag : Bool)
    → refreshing ≡ front ++ x ∷ back
    → length refreshing ≡ (if flag then 1 else 0)
    → length (front ++ back) ≡ 0
one_thread front back x refreshing flag e alone =
    let counted = ap length e in
    let whole = length-append front (x ∷ back) in
    let rest = length-append front back in ground arith

module _ {K : Type 0} where
  -- The threads that refresh, by the flag, and the bound of the missing keys.
  pub record IsGuarded (v : Verifier K) : Type 0 where
    pub alone : length v.refreshing ≡ (if v.cache.refresh_in_flight then 1 else 0)
    pub bounded : length v.cache.missing_kids ≤ max_missing_kid_count

  abbrev Begun : Text → List (Text × Bool) → KeyCache K × Lookup K → Type 0
  Begun kid refreshing (c, looked) =
      (length (started K kid looked refreshing) ≡ (if c.refresh_in_flight then 1 else 0))
      × (length c.missing_kids ≤ max_missing_kid_count)

  may_refresh-Begun :
      (c : KeyCache K) (now : ℕ) (kid : Text) (refreshing : List (Text × Bool))
      → length refreshing ≡ (if c.refresh_in_flight then 1 else 0)
      → length c.missing_kids ≤ max_missing_kid_count
      → Begun kid refreshing (may_refresh c now kid)
  unfolding may_refresh
  may_refresh-Begun c now kid refreshing alone bounded =
      if-cases (Begun kid refreshing) c.refresh_in_flight (λ e. (alone, bounded))
        (λ e.
          if-cases (Begun kid refreshing) (ltb (now - c.last_refresh_attempt) key_refresh_cooldown)
            (λ e'. (alone, bounded)) (λ e'. (ground arith, bounded)))

  after_miss-Begun :
      (c : KeyCache K) (now : ℕ) (kid : Text) (missed : Option ℕ) (refreshing : List (Text × Bool))
      → length refreshing ≡ (if c.refresh_in_flight then 1 else 0)
      → length c.missing_kids ≤ max_missing_kid_count
      → Begun kid refreshing (after_miss c now kid missed)
  unfolding after_miss
  after_miss-Begun c now kid none refreshing alone bounded =
      may_refresh-Begun c now kid refreshing alone bounded
  after_miss-Begun c now kid (some missed) refreshing alone bounded =
      if-cases (Begun kid refreshing) (ltb (now - missed) key_refresh_cooldown)
        (λ e. (alone, bounded))
        (λ e.
          may_refresh-Begun (record c { missing_kids = erase_kid kid c.missing_kids }) now kid
            refreshing alone (omega (arith, bounded, length-erase_kid kid c.missing_kids)))

  begin_lookup-Begun :
      (c : KeyCache K) (now : ℕ) (kid : Text) (refreshing : List (Text × Bool))
      → length refreshing ≡ (if c.refresh_in_flight then 1 else 0)
      → length c.missing_kids ≤ max_missing_kid_count
      → Begun kid refreshing (begin_lookup c now kid)
  unfolding begin_lookup
  begin_lookup-Begun c now kid refreshing alone bounded =
      if-cases (Begun kid refreshing) (is_fresh c now && is_known c kid) (λ e. (alone, bounded))
        (λ e. after_miss-Begun c now kid (find_kid kid c.missing_kids) refreshing alone bounded)

  abbrev Finished : KeyCache K × Option K → Type 0
  Finished (c, key) =
      (c.refresh_in_flight ≡ false) × (length c.missing_kids ≤ max_missing_kid_count)

  note_missing-Finished :
      (c : KeyCache K) (refreshed_at : ℕ) (kid : Text)
      → c.refresh_in_flight ≡ false
      → length c.missing_kids ≤ max_missing_kid_count
      → Finished (note_missing c refreshed_at kid)
  unfolding note_missing
  note_missing-Finished c refreshed_at kid e bounded = (
    e,
    if-cases (λ t. length (assign_kid kid refreshed_at t) ≤ max_missing_kid_count)
        (leb max_missing_kid_count (length c.missing_kids))
        (λ full. omega (
          arith,
          length-assign_kid kid refreshed_at (erase_oldest c.missing_kids),
          length-erase_oldest c.missing_kids (ground arith),
          bounded,
        ))
        (λ room. let assigned = length-assign_kid kid refreshed_at c.missing_kids in ground arith),
  )

  answer_loaded-Finished :
      (c : KeyCache K) (refreshed_at : ℕ) (kid : Text) (had : Bool) (loaded : List (Text × K))
      (found : Option K)
      → Finished (answer_loaded c refreshed_at kid had loaded found)
  unfolding answer_loaded with_keys
  answer_loaded-Finished c refreshed_at kid had loaded none =
      note_missing-Finished (with_keys c refreshed_at loaded) refreshed_at kid refl (omega arith)
  answer_loaded-Finished c refreshed_at kid had loaded (some key) =
      if-cases (λ d. Finished (d, some key)) had (λ e. (refl, omega arith))
        (λ e. (refl, omega arith))

  finish_refresh-Finished :
      (c : KeyCache K) (refreshed_at : ℕ) (kid : Text) (had : Bool)
      (loaded : Option (List (Text × K)))
      → length c.missing_kids ≤ max_missing_kid_count
      → Finished (finish_refresh c refreshed_at kid had loaded)
  unfolding finish_refresh
  finish_refresh-Finished c refreshed_at kid had none bounded =
      note_missing-Finished (record c { refresh_in_flight = false }) refreshed_at kid refl bounded
  finish_refresh-Finished c refreshed_at kid had (some loaded) bounded =
      answer_loaded-Finished c refreshed_at kid had loaded (find_kid kid loaded)

  Step-IsGuarded : {v w : Verifier K} → Step K v w → IsGuarded v → IsGuarded w
  Step-IsGuarded {v} (asks now kid) g =
      let begun = begin_lookup-Begun v.cache now kid v.refreshing g.alone g.bounded in
      record { alone = begun.0; bounded = begun.1 }
  Step-IsGuarded {v} (loads front back kid had refreshed_at loaded e) g =
      let finished = finish_refresh-Finished v.cache refreshed_at kid had loaded g.bounded in
      record {
        alone =
            rw finished.0
              (one_thread front back (kid, had) v.refreshing v.cache.refresh_in_flight e g.alone);
        bounded = finished.1;
      }

  -- However lookups interleave, at most one thread refreshes the keys, exactly while the flag is set, and
  -- at most 128 missing keys are remembered.
  pub Reachable-IsGuarded : {v : Verifier K} → Reachable K v → IsGuarded v
  Reachable-IsGuarded at_first = record { alone = refl; bounded = omega arith }
  Reachable-IsGuarded (then_step reached step) = Step-IsGuarded step (Reachable-IsGuarded reached)
