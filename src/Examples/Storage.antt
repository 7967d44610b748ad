-- ===== src/Examples/Storage.antt =====
-- The event log: the theorems at logs of a few events.
use plywise.Chess.Fen.{decimal, decimal_onto}
use plywise.Errors.{ok, err, io_error}
use plywise.Json.{Text, text_eq}
use plywise.Prelude.{
  ◌≡◌, ℕ, refl, sym, ap, ◌∙◌, ◌-◌, length-drop, length-append, take-drop, true, false, List, [],
  ◌∷◌, ◌++◌, Option, none, length, take, drop, All, map, arith,
}
use plywise.Storage.Bytes.{Bytes}
use plywise.Storage.EventLog.{
  Event, EventLog, record_bytes, replay, replay_loop, recover_trailing_record, append, next_event,
  synced, write_failed, sync_failed,
}
use plywise.Storage.EventLog.Compact.{
  compact, retain, replaced, not_synced, upgraded, had_legacy_schema, compacted_events, retention,
}
use plywise.Storage.EventLog.Compact.Replaced.{left_over, compact-replaced, compact-not_synced}
use plywise.Storage.EventLog.Compact.Retained.{
  not_superseded, retain-not_superseded, is_superseded, any,
}
use plywise.Storage.EventLog.Record.{IsRecordable, length-record_bytes}
use plywise.Storage.EventLog.Recover.{
  replay-log_bytes, replay-torn, recover-torn, append-synced, append-write_failed,
  append-sync_failed_reuses,
}
use plywise.Storage.EventLog.Whole.{log_bytes, so_far, reading, replay_loop-enough}

-- The state of the queue, in the older schema and in this one.
abbrev older : Event
older = record {
  schema_version = 1;
  type = 17;
  id = 1;
  timestamp_ms = 1000;
  payload = b'{' ∷ b'}' ∷ [];
}

abbrev newer : Event
newer = record { schema_version = 2; type = 17; id = 2; timestamp_ms = 1001; payload = [] }

older-IsRecordable : IsRecordable older
older-IsRecordable = record {
  schema_known = omega arith;
  schema_current = omega arith;
  type_fits = omega arith;
  id_fits = omega arith;
  time_fits = omega arith;
  payload_fits = omega arith;
}

newer-IsRecordable : IsRecordable newer
newer-IsRecordable = record {
  schema_known = omega arith;
  schema_current = omega arith;
  type_fits = omega arith;
  id_fits = omega arith;
  time_fits = omega arith;
  payload_fits = omega arith;
}

abbrev both : List Event
both = older ∷ newer ∷ []

both-IsRecordable : All IsRecordable both
both-IsRecordable = (older-IsRecordable, (newer-IsRecordable, tt))

replay_loop-enough_example :
    replay_loop 4 (reading (1 ∷ 2 ∷ 3 ∷ []) 0 []) ≡ replay_loop 9 (reading (1 ∷ 2 ∷ 3 ∷ []) 0 [])
replay_loop-enough_example =
    replay_loop-enough 4 9 (reading (1 ∷ 2 ∷ 3 ∷ []) 0 []) (omega arith) (omega arith)

replay-log_bytes_example : replay (log_bytes both) ≡ so_far both (length (log_bytes both)) false
replay-log_bytes_example = replay-log_bytes both both-IsRecordable

-- The first five bytes of a record, and the others.
abbrev torn : Bytes
torn = take 5 (record_bytes newer)

abbrev missing : Bytes
missing = drop 5 (record_bytes newer)

torn_parts : record_bytes newer ≡ torn ++ missing
torn_parts = sym (take-drop 5 (record_bytes newer))

length-missing : length missing ≡ 31
length-missing = length-drop 5 (record_bytes newer) ∙ ap (λ n. n - 5) (length-record_bytes newer)

length-torn : length torn ≡ 5
length-torn = omega (
  arith,
  length-append torn missing,
  ap length torn_parts,
  length-missing,
  length-record_bytes newer,
)

replay-torn_example : replay (log_bytes both ++ torn) ≡ so_far both (length (log_bytes both)) true
replay-torn_example =
    replay-torn both newer torn missing both-IsRecordable newer-IsRecordable torn_parts
      (omega (arith, length-torn)) (omega (arith, length-missing))

recover-torn_example :
    (recover_trailing_record (log_bytes both ++ torn) ≡ (log_bytes both, true))
    × (recover_trailing_record (log_bytes both) ≡ (log_bytes both, false))
recover-torn_example =
    recover-torn both newer torn missing both-IsRecordable newer-IsRecordable torn_parts
      (omega (arith, length-torn)) (omega (arith, length-missing))

abbrev log : EventLog
log = record { file = log_bytes both; next_id = 3 }

abbrev added : Event
added = next_event log 1 1002 (7 ∷ 8 ∷ [])

added-IsRecordable : IsRecordable added
added-IsRecordable = record {
  schema_known = omega arith;
  schema_current = omega arith;
  type_fits = omega arith;
  id_fits = omega arith;
  time_fits = omega arith;
  payload_fits = omega arith;
}

append-synced_example :
    (append log 1 1002 (7 ∷ 8 ∷ []) synced).1 ≡ ok added
    × ((append log 1 1002 (7 ∷ 8 ∷ []) synced).0.next_id ≡ 4)
    × (replay (append log 1 1002 (7 ∷ 8 ∷ []) synced).0.file
        ≡ so_far (both ++ added ∷ []) (length (log_bytes (both ++ added ∷ []))) false)
append-synced_example =
    append-synced log both 1 1002 (7 ∷ 8 ∷ []) refl both-IsRecordable added-IsRecordable

append-write_failed_example :
    ((append log 1 1002 (7 ∷ 8 ∷ []) (write_failed 9)).1 ≡ err io_error)
    × ((append log 1 1002 (7 ∷ 8 ∷ []) (write_failed 9)).0.next_id ≡ 3)
    × ((recover_trailing_record (append log 1 1002 (7 ∷ 8 ∷ []) (write_failed 9)).0.file).0
        ≡ log_bytes both)
append-write_failed_example =
    append-write_failed log both 1 1002 (7 ∷ 8 ∷ []) refl both-IsRecordable added-IsRecordable 9
      (omega arith)

abbrev failed : EventLog
failed = (append log 1 1002 (7 ∷ 8 ∷ []) sync_failed).0

append-sync_failed_reuses_example :
    ((append log 1 1002 (7 ∷ 8 ∷ []) sync_failed).1 ≡ err io_error)
    × ((append failed 1 1002 (7 ∷ 8 ∷ []) synced).1 ≡ ok added)
    × (replay (append failed 1 1002 (7 ∷ 8 ∷ []) synced).0.file
        ≡ so_far
            (both ++ added ∷ added ∷ [])
            (length (log_bytes (both ++ added ∷ added ∷ [])))
            false)
    × (added.id ≡ added.id)
append-sync_failed_reuses_example =
    append-sync_failed_reuses log both 1 1002 (7 ∷ 8 ∷ []) refl both-IsRecordable added-IsRecordable
      1 1002 (7 ∷ 8 ∷ []) added-IsRecordable

-- No text is a number.
abbrev no_number : Text → Option ℕ
no_number t = none

retain-not_superseded_example : (retain no_number both).0 ≡ not_superseded no_number both
retain-not_superseded_example = retain-not_superseded no_number both

left_over-fits : All IsRecordable (map upgraded (left_over no_number log both 1003 1004).0)
unfolding left_over compacted_events had_legacy_schema not_superseded is_superseded any retention
    decimal decimal_onto text_eq
left_over-fits = (
  newer-IsRecordable,
  (
    record {
      schema_known = omega arith;
      schema_current = omega arith;
      type_fits = omega arith;
      id_fits = omega arith;
      time_fits = omega arith;
      payload_fits = omega arith;
    },
    (
      record {
        schema_known = omega arith;
        schema_current = omega arith;
        type_fits = omega arith;
        id_fits = omega arith;
        time_fits = omega arith;
        payload_fits = omega arith;
      },
      tt,
    ),
  ),
)

compact-replaced_example :
    ((compact no_number log 1003 1004 replaced).1 ≡ ok 3)
    × ((replay (compact no_number log 1003 1004 replaced).0.file).events
        ≡ map upgraded (left_over no_number log both 1003 1004).0)
    × ((compact no_number log 1003 1004 replaced).0.next_id ≡ 5)
unfolding left_over compacted_events had_legacy_schema not_superseded is_superseded any retention
    decimal decimal_onto text_eq
compact-replaced_example =
    compact-replaced no_number log both 1003 1004 refl both-IsRecordable left_over-fits

compact-not_synced_example :
    ((compact no_number log 1003 1004 not_synced).1 ≡ err io_error)
    × ((replay (compact no_number log 1003 1004 not_synced).0.file).events
        ≡ map upgraded (left_over no_number log both 1003 1004).0)
    × ((compact no_number log 1003 1004 not_synced).0.next_id ≡ 3)
compact-not_synced_example =
    compact-not_synced no_number log both 1003 1004 refl both-IsRecordable left_over-fits
