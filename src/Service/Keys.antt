-- ===== src/Service/Keys.antt =====
-- The keys that tokens are verified with: `key_for` of src/service/oidc_token_verifier.cpp. Its two
-- critical sections are functions on the variables that the mutex guards; times are nanoseconds of the
-- steady clock. What `parse_jwks` makes of the provider's answer is an argument, and so is the type of
-- a key.
pub mod Steps
pub mod Guarded
pub mod Answered
use plywise.Chess.Square.{Text}
use plywise.Json.{text_eq, text_lt}
use plywise.Prelude.{
  ℕ, ◌-◌, Bool, true, false, ◌&&◌, List, [], ◌∷◌, Option, none, some, ltb, leb, if◌then◌else◌,
  length,
}

abbrev pub max_missing_kid_count : ℕ
max_missing_kid_count = 128

-- Ten minutes.
abbrev pub key_cache_ttl : ℕ
key_cache_ttl = 600000000000

-- Thirty seconds.
abbrev pub key_refresh_cooldown : ℕ
key_refresh_cooldown = 30000000000

pub record KeyCache (K : Type 0) : Type 0 where
  pub keys_loaded : Bool
  pub keys_loaded_at : ℕ
  pub last_refresh_attempt : ℕ
  pub refresh_in_flight : Bool
  pub missing_kids : List (Text × ℕ)
  pub keys : List (Text × K)

unfoldable pub find_kid {ℓ} : {A : Type ℓ} → Text → List (Text × A) → Option A
find_kid kid [] = none
find_kid kid ((k, value) ∷ entries) =
    let rest = find_kid kid entries in if text_eq k kid then some value else rest

-- `missing_kids.erase(missing)`.
unfoldable pub erase_kid : Text → List (Text × ℕ) → List (Text × ℕ)
erase_kid kid [] = []
erase_kid kid ((k, time) ∷ entries) =
    let rest = erase_kid kid entries in if text_eq k kid then entries else (k, time) ∷ rest

-- `missing_kids[kid] = time`, on the map's entries in the order of their keys.
unfoldable pub assign_kid : Text → ℕ → List (Text × ℕ) → List (Text × ℕ)
assign_kid kid time [] = (kid, time) ∷ []
assign_kid kid time ((k, t) ∷ entries) =
    let rest = assign_kid kid time entries in
    if text_eq k kid
    then (k, time) ∷ entries
    else if text_lt kid k
    then (kid, time) ∷ (k, t) ∷ entries
    else (k, t) ∷ rest

-- The earliest time, if there is an entry.
unfoldable pub oldest_time : ℕ → List (Text × ℕ) → ℕ
oldest_time time [] = time
oldest_time time ((k, t) ∷ entries) = oldest_time (if ltb t time then t else time) entries

-- Without the first entry of this time.
unfoldable pub erase_time : ℕ → List (Text × ℕ) → List (Text × ℕ)
erase_time time [] = []
erase_time time ((k, t) ∷ entries) =
    let rest = erase_time time entries in if leb t time then entries else (k, t) ∷ rest

-- `min_element` is the first of the earliest entries.
unfoldable pub erase_oldest : List (Text × ℕ) → List (Text × ℕ)
erase_oldest [] = []
erase_oldest ((k, t) ∷ entries) = erase_time (oldest_time t entries) ((k, t) ∷ entries)

-- What the first critical section decides: an answer, or a refresh, with what `keys_loaded` was.
pub data Lookup (K : Type 0) : Type 0 where
  answer : Option K → Lookup K
  refresh : Bool → Lookup K

module _ {K : Type 0} where
  unfoldable pub is_known : KeyCache K → Text → Bool
  is_known c kid = elim (find_kid kid c.keys) [ none ↦ false | some key ↦ true ]

  unfoldable pub is_fresh : KeyCache K → ℕ → Bool
  is_fresh c now = c.keys_loaded && leb (now - c.keys_loaded_at) key_cache_ttl

  -- The end of the first critical section, from `if (refresh_in_flight)` on.
  unfoldable pub may_refresh : KeyCache K → ℕ → Text → KeyCache K × Lookup K
  may_refresh c now kid =
      if c.refresh_in_flight
      then (c, answer (find_kid kid c.keys))
      else if ltb (now - c.last_refresh_attempt) key_refresh_cooldown
      then (c, answer (find_kid kid c.keys))
      else (
        record c { last_refresh_attempt = now; refresh_in_flight = true },
        refresh c.keys_loaded,
      )

  -- With the time at which the key was missed, if it was.
  unfoldable pub after_miss : KeyCache K → ℕ → Text → Option ℕ → KeyCache K × Lookup K
  after_miss c now kid none = may_refresh c now kid
  after_miss c now kid (some missed) =
      if ltb (now - missed) key_refresh_cooldown
      then (c, answer none)
      else may_refresh (record c { missing_kids = erase_kid kid c.missing_kids }) now kid

  unfoldable pub begin_lookup : KeyCache K → ℕ → Text → KeyCache K × Lookup K
  begin_lookup c now kid =
      if is_fresh c now && is_known c kid
      then (c, answer (find_kid kid c.keys))
      else after_miss c now kid (find_kid kid c.missing_kids)

  -- The end of the second critical section.
  unfoldable pub note_missing : KeyCache K → ℕ → Text → KeyCache K × Option K
  note_missing c refreshed_at kid =
      let entries =
        if leb max_missing_kid_count (length c.missing_kids)
        then erase_oldest c.missing_kids
        else c.missing_kids in
      (record c { missing_kids = assign_kid kid refreshed_at entries }, none)

  unfoldable pub with_keys : KeyCache K → ℕ → List (Text × K) → KeyCache K
  with_keys c refreshed_at loaded = record c {
    refresh_in_flight = false;
    keys = loaded;
    keys_loaded = true;
    keys_loaded_at = refreshed_at;
    missing_kids = [];
  }

  -- With the keys that were loaded, and the one that is asked for, if it is among them.
  unfoldable pub answer_loaded :
      KeyCache K → ℕ → Text → Bool → List (Text × K) → Option K → KeyCache K × Option K
  answer_loaded c refreshed_at kid had_loaded_keys loaded none =
      note_missing (with_keys c refreshed_at loaded) refreshed_at kid
  answer_loaded c refreshed_at kid had_loaded_keys loaded (some key) = (
    if had_loaded_keys
        then with_keys c refreshed_at loaded
        else record (with_keys c refreshed_at loaded) { last_refresh_attempt = 0 },
    some key,
  )

  -- The second critical section, with the keys that were loaded, if any.
  unfoldable pub finish_refresh :
      KeyCache K → ℕ → Text → Bool → Option (List (Text × K)) → KeyCache K × Option K
  finish_refresh c refreshed_at kid had_loaded_keys none =
      note_missing (record c { refresh_in_flight = false }) refreshed_at kid
  finish_refresh c refreshed_at kid had_loaded_keys (some loaded) =
      answer_loaded c refreshed_at kid had_loaded_keys loaded (find_kid kid loaded)

  abbrev pub no_keys : KeyCache K
  no_keys = record {
    keys_loaded = false;
    keys_loaded_at = 0;
    last_refresh_attempt = 0;
    refresh_in_flight = false;
    missing_kids = [];
    keys = [];
  }
