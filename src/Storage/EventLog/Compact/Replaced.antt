-- ===== src/Storage/EventLog/Compact/Replaced.antt =====
-- What `compact` leaves of a log whose records are whole.
use plywise.Errors.{ok, err, io_error}
use plywise.Json.{Text}
use plywise.Prelude.{ℕ, ◌≡◌, refl, ap, ◌∙◌, List, [], ◌∷◌, length, Option, map, All, ==_iff}
use plywise.Storage.EventLog.{Event, EventLog, replay}
use plywise.Storage.EventLog.Compact.{
  compact, compacted_events, replace_file, finish_replacement, replaced, not_synced, Replacement,
  serialize_all, upgraded, next_number,
}
use plywise.Storage.EventLog.Compact.Retained.{not_superseded, retain-not_superseded}
use plywise.Storage.EventLog.Record.{IsRecordable, serialize-ok}
use plywise.Storage.EventLog.Recover.{replay-log_bytes}
use plywise.Storage.EventLog.Whole.{log_bytes}

serialize_all-ok :
    (es : List Event)
    → All IsRecordable (map upgraded es)
    → serialize_all es ≡ ok (log_bytes (map upgraded es))
unfolding serialize_all log_bytes
serialize_all-ok [] h = refl
serialize_all-ok (e ∷ es) h = rw (serialize-ok (upgraded e) h.0, serialize_all-ok es h.1) refl

length-map : (f : Event → Event) (es : List Event) → length (map f es) ≡ length es
length-map f [] = refl
length-map f (e ∷ es) = ap ℕ.suc (length-map f es)

-- The temporary file is accepted.
accepted :
    (log : EventLog) (after : List Event × ℕ) (how : Replacement)
    → All IsRecordable (map upgraded after.0)
    → replace_file log after how (ok (log_bytes (map upgraded after.0)))
      ≡ finish_replacement log (log_bytes (map upgraded after.0)) after how
unfolding replace_file
accepted log after how fits =
    rw
      (
        replay-log_bytes (map upgraded after.0) fits,
        length-map upgraded after.0,
        (==_iff (length after.0) (length after.0)).1 refl,
      )
      refl

module _ {D : Type 0} (read : Text → Option D) (log : EventLog) (es : List Event)
    (now later : ℕ) where
  -- What is left of the log: the events that no later one supersedes, the note of a migration where an
  -- event had the older schema, and the note of the compaction.
  unfoldable pub left_over : List Event × ℕ
  left_over = compacted_events log.next_id es (not_superseded read es) now later

module _ {D : Type 0} (read : Text → Option D) (log : EventLog) (es : List Event) (now later : ℕ)
    (whole : log.file ≡ log_bytes es) (recordable : All IsRecordable es) where
  abbrev rest : List Event × ℕ
  rest = left_over read log es now later

  compact-left_over :
      (how : Replacement)
      → All IsRecordable (map upgraded rest.0)
      → compact read log now later how
        ≡ finish_replacement log (log_bytes (map upgraded rest.0)) rest how
  unfolding compact left_over
  compact-left_over how fits =
      rw
        (
          ap replay whole ∙ replay-log_bytes es recordable,
          retain-not_superseded read es,
          serialize_all-ok (compacted_events log.next_id es (not_superseded read es) now later).0
              fits,
        )
        (accepted log (compacted_events log.next_id es (not_superseded read es) now later) how fits)

  -- From a log whose records are whole, where every event that is left over fits a record, `compact`
  -- returns their number; replay of the new file returns them, with the current schema; and the id after
  -- the last is the next one.
  pub compact-replaced :
      All IsRecordable (map upgraded rest.0)
      → ((compact read log now later replaced).1 ≡ ok (length rest.0))
        × ((replay (compact read log now later replaced).0.file).events ≡ map upgraded rest.0)
        × ((compact read log now later replaced).0.next_id ≡ next_number rest.1)
  unfolding finish_replacement
  compact-replaced fits =
      let same = compact-left_over replaced fits in
      (
        ap (λ r. r.1) same,
        ap (λ r. (replay r.0.file).events) same
            ∙ ap (λ r. r.events) (replay-log_bytes (map upgraded rest.0) fits),
        ap (λ r. r.0.next_id) same,
      )

  -- When the directory cannot be synced after the file was replaced, `compact` reports an I/O error; replay
  -- returns the events that are left over, but the next id is as before.
  pub compact-not_synced :
      All IsRecordable (map upgraded rest.0)
      → ((compact read log now later not_synced).1 ≡ err io_error)
        × ((replay (compact read log now later not_synced).0.file).events ≡ map upgraded rest.0)
        × ((compact read log now later not_synced).0.next_id ≡ log.next_id)
  unfolding finish_replacement
  compact-not_synced fits =
      let same = compact-left_over not_synced fits in
      (
        ap (λ r. r.1) same,
        ap (λ r. (replay r.0.file).events) same
            ∙ ap (λ r. r.events) (replay-log_bytes (map upgraded rest.0) fits),
        ap (λ r. r.0.next_id) same,
      )
