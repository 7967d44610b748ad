-- ===== src/Service/Keys/Steps.antt =====
-- The threads that look keys up, as steps: each runs the first critical section, and the second if it
-- refreshes.
use plywise.Chess.Square.{Text}
use plywise.Prelude.{ℕ, ◌≡◌, Bool, List, [], ◌∷◌, ◌++◌, Option}
use plywise.Service.Keys.{KeyCache, Lookup, answer, refresh, begin_lookup, finish_refresh, no_keys}

module _ (K : Type 0) where
  -- The cache, and the threads between their critical sections: the key asked for, and what
  -- `keys_loaded` was.
  pub record Verifier : Type 0 where
    pub cache : KeyCache K
    pub refreshing : List (Text × Bool)

  abbrev pub started : Text → Lookup K → List (Text × Bool) → List (Text × Bool)
  started kid (answer key) refreshing = refreshing
  started kid (refresh had_loaded_keys) refreshing = (kid, had_loaded_keys) ∷ refreshing

  abbrev pub ask : Verifier → ℕ → Text → Verifier
  ask v now kid = record {
    cache = (begin_lookup v.cache now kid).0;
    refreshing = started kid (begin_lookup v.cache now kid).1 v.refreshing;
  }

  pub data Step (v : Verifier) : Verifier → Type 0 where
    asks : (now : ℕ) (kid : Text) → Step v (ask v now kid)
    loads :
        (front back : List (Text × Bool)) (kid : Text) (had_loaded_keys : Bool) (refreshed_at : ℕ)
        (loaded : Option (List (Text × K)))
        → v.refreshing ≡ front ++ (kid, had_loaded_keys) ∷ back
        → Step v (record {
          cache = (finish_refresh v.cache refreshed_at kid had_loaded_keys loaded).0;
          refreshing = front ++ back;
        })

  pub data Reachable : Verifier → Type 0 where
    at_first : Reachable (record { cache = no_keys; refreshing = [] })
    then_step : {v w : Verifier} → Reachable v → Step v w → Reachable w
