-- ===== src/Storage/EventLog/Compact.antt =====
-- `EventLog::compact`: which events it retains, and how it replaces the file. The stage hook is left out.
pub mod Retained
pub mod Replaced
use plywise.Chess.Fen.{decimal}
use plywise.Errors.{Result, ok, err, io_error, ◌>>=◌}
use plywise.Json.{Text, text_eq}
use plywise.Json.Access.{at, as_string}
use plywise.Json.Parser.{parse}
use plywise.Prelude.{
  ℕ, suc, ◌+◌, ◌%◌, Bool, true, false, not, ◌&&◌, ◌||◌, List, [], ◌∷◌, ◌++◌, length, Option, ltb,
  ◌==◌, if◌then◌else◌,
}
use plywise.Storage.Bytes.{Bytes}
use plywise.Storage.EventLog.{
  Event, EventLog, ReplayResult, replay, serialize, no_corruptions, current_schema_version,
}

abbrev pub game_id : Text
game_id = b'g' ∷ b'a' ∷ b'm' ∷ b'e' ∷ b'_' ∷ b'i' ∷ b'd' ∷ []

abbrev pub resource_id : Text
resource_id = b'r' ∷ b'e' ∷ b's' ∷ b'o' ∷ b'u' ∷ b'r' ∷ b'c' ∷ b'e' ∷ b'_' ∷ b'i' ∷ b'd' ∷ []

abbrev pub drill_id : Text
drill_id = b'd' ∷ b'r' ∷ b'i' ∷ b'l' ∷ b'l' ∷ b'_' ∷ b'i' ∷ b'd' ∷ []

abbrev pub username : Text
username = b'u' ∷ b's' ∷ b'e' ∷ b'r' ∷ b'n' ∷ b'a' ∷ b'm' ∷ b'e' ∷ []

abbrev pub month : Text
month = b'm' ∷ b'o' ∷ b'n' ∷ b't' ∷ b'h' ∷ []

abbrev pub variation_id : Text
variation_id = b'i' ∷ b'd' ∷ []

-- What an event asks of the loop. `latest` names a set of the loop by the type of its events, and the
-- key that is inserted; the key of a `kept_` flag is empty.
pub data Retention : Type 0 where
  always never : Retention
  completes shallow : Text → Retention
  latest : ℕ → Text → Retention

module _ {D : Type 0} (read : Text → Option D) where
  abbrev pub payload_text : Text → Event → Result Text
  payload_text key e = parse read e.payload >>= λ payload. at key payload >>= as_string

  -- The chain of tests on the type of an event; an exception stands for the handler's `keep = true`.
  unfoldable pub retention : Event → Result Retention
  retention e =
      if e.type == 7
      then (payload_text game_id e >>= λ g. ok (completes g))
      else if e.type == 20
      then (payload_text game_id e >>= λ g. ok (shallow g))
      else if e.type == 18
      then (payload_text game_id e >>= λ g. ok (latest 18 g))
      else if e.type == 11
      then (payload_text resource_id e >>= λ k. ok (latest 11 k))
      else if e.type == 19
      then (payload_text drill_id e >>= λ k. ok (latest 19 k))
      else if e.type == 13
          || e.type == 17
          || e.type == 14
          || e.type == 21
          || e.type == 28
          || e.type == 24
      then ok (latest e.type [])
      else if e.type == 23
      then (payload_text username e >>= λ u.
          payload_text month e >>= λ m. ok (latest 23 (u ++ 10 ∷ m)))
      else if e.type == 25 || e.type == 26
      then (payload_text variation_id e >>= λ k. ok (latest 25 k))
      else if e.type == 15
      then ok never
      else ok always

-- The sets and flags of the loop.
pub record Seen : Type 0 where
  pub completed_analyses : List Text
  pub shallow_analyses : List Text
  pub others : List (ℕ × Text)

unfoldable pub contains : Text → List Text → Bool
contains k [] = false
contains k (j ∷ js) = text_eq k j || contains k js

unfoldable pub contains_other : ℕ → Text → List (ℕ × Text) → Bool
contains_other n k [] = false
contains_other n k ((m, j) ∷ js) = n == m && text_eq k j || contains_other n k js

-- Whether one event is kept, and the sets after it.
unfoldable pub keep_event : Seen → Result Retention → Bool × Seen
keep_event seen (err thrown) = (true, seen)
keep_event seen (ok always) = (true, seen)
keep_event seen (ok never) = (false, seen)
keep_event seen (ok (completes g)) =
    (true, record seen { completed_analyses = g ∷ seen.completed_analyses })
keep_event seen (ok (shallow g)) = if contains g seen.completed_analyses then (false, seen) else (
  not (contains g seen.shallow_analyses),
  record seen { shallow_analyses = g ∷ seen.shallow_analyses },
)
keep_event seen (ok (latest n k)) =
    (not (contains_other n k seen.others), record seen { others = (n, k) ∷ seen.others })

abbrev pub nothing_seen : Seen
nothing_seen = record { completed_analyses = []; shallow_analyses = []; others = [] }

module _ {D : Type 0} (read : Text → Option D) where
  -- The loop, from the last event to the first; the events that are retained, in their order.
  unfoldable pub retain : List Event → List Event × Seen
  retain [] = ([], nothing_seen)
  retain (e ∷ es) =
      let later = retain es in
      let now = keep_event later.1 (retention read e) in
      (if now.0 then e ∷ later.0 else later.0, now.1)

unfoldable pub had_legacy_schema : List Event → Bool
had_legacy_schema [] = false
had_legacy_schema (e ∷ es) = ltb e.schema_version current_schema_version || had_legacy_schema es

abbrev pub next_number : ℕ → ℕ
next_number id = (id + 1) % 18446744073709551616

abbrev pub migrated_event : ℕ → ℕ → Event
migrated_event id time = record {
  schema_version = current_schema_version;
  type = 14;
  id = id;
  timestamp_ms = time;
  payload =
      (b'{' ∷ b'"' ∷ b'f' ∷ b'r' ∷ b'o' ∷ b'm' ∷ b'_' ∷ b's' ∷ b'c' ∷ b'h' ∷ b'e' ∷ b'm' ∷ b'a'
        ∷ b'"' ∷ b':' ∷ b'1' ∷ b',' ∷ b'"' ∷ b't' ∷ b'o' ∷ b'_' ∷ b's' ∷ b'c' ∷ b'h' ∷ b'e' ∷ b'm'
        ∷ b'a' ∷ b'"' ∷ b':' ∷ [])
      ++ (decimal current_schema_version ++ b'}' ∷ []);
}

abbrev pub compacted_event : ℕ → ℕ → ℕ → ℕ → Event
compacted_event id time source_events retained_events = record {
  schema_version = current_schema_version;
  type = 15;
  id = id;
  timestamp_ms = time;
  payload =
      (b'{' ∷ b'"' ∷ b's' ∷ b'o' ∷ b'u' ∷ b'r' ∷ b'c' ∷ b'e' ∷ b'_' ∷ b'e' ∷ b'v' ∷ b'e' ∷ b'n'
        ∷ b't' ∷ b's' ∷ b'"' ∷ b':' ∷ [])
      ++ (decimal source_events
          ++ ((b',' ∷ b'"' ∷ b'r' ∷ b'e' ∷ b't' ∷ b'a' ∷ b'i' ∷ b'n' ∷ b'e' ∷ b'd' ∷ b'_' ∷ b'e'
                ∷ b'v' ∷ b'e' ∷ b'n' ∷ b't' ∷ b's' ∷ b'"' ∷ b':' ∷ [])
              ++ (decimal retained_events ++ b'}' ∷ [])));
}

-- Each event is written with the current schema.
abbrev pub upgraded : Event → Event
upgraded e = record e { schema_version = current_schema_version }

unfoldable pub serialize_all : List Event → Result Bytes
serialize_all [] = ok []
serialize_all (e ∷ es) =
    serialize (upgraded e) >>= λ bytes. serialize_all es >>= λ more. ok (bytes ++ more)

-- The events of the compacted file, and the id of the last.
unfoldable pub compacted_events : ℕ → List Event → List Event → ℕ → ℕ → List Event × ℕ
compacted_events next_id source retained now later =
    let is_legacy = had_legacy_schema source in
    let events = if is_legacy then retained ++ migrated_event next_id now ∷ [] else retained in
    let id = if is_legacy then next_number next_id else next_id in
    (events ++ compacted_event id later (length source) (length events) ∷ [], id)

-- What the operating system does: a failure before the temporary file is whole, a directory that is not
-- synced after the file was replaced, or neither.
pub data Replacement : Type 0 where
  replaced not_written not_synced : Replacement

unfoldable pub finish_replacement :
    EventLog → Bytes → List Event × ℕ → Replacement → EventLog × Result ℕ
finish_replacement log bytes (events, id) replaced =
    (record { file = bytes; next_id = next_number id }, ok (length events))
finish_replacement log bytes (events, id) not_synced = (record log { file = bytes }, err io_error)
finish_replacement log bytes (events, id) not_written = (log, err io_error)

-- The temporary file is read back, and replaces the log's.
unfoldable pub replace_file :
    EventLog → List Event × ℕ → Replacement → Result Bytes → EventLog × Result ℕ
replace_file log after how (err thrown) = (log, err thrown)
replace_file log after how (ok bytes) =
    let verified = replay bytes in
    if not (no_corruptions verified.corruptions)
      || verified.truncated_tail
      || not (length verified.events == length after.0)
    then (log, err io_error)
    else finish_replacement log bytes after how

unfoldable pub compact :
    {D : Type 0} → (Text → Option D) → EventLog → ℕ → ℕ → Replacement → EventLog × Result ℕ
compact read log now later how =
    let state = replay log.file in
    let after = compacted_events log.next_id state.events (retain read state.events).0 now later in
    if not (no_corruptions state.corruptions) || state.truncated_tail
    then (log, err io_error)
    else replace_file log after how (serialize_all after.0)
