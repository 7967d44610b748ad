-- ===== src/Storage/EventLog/Recover.antt =====
-- Replay, recovery and appending, on the file of a log whose records are whole but for the last.
use mathlib.Core.List.{append_assoc, append-nil}
use plywise.Errors.{ok, err, io_error}
use plywise.Prelude.{
  ℕ, zero, suc, ◌+◌, ◌-◌, ◌%◌, ◌<◌, ◌≡◌, refl, sym, ap, ◌∙◌, arith, List, [], ◌∷◌, ◌++◌, length,
  length-append, take, drop, take-append, take-drop, length-drop, true, false, All, All-append,
}
use plywise.Storage.Bytes.{Bytes}
use plywise.Storage.EventLog.{
  Event, EventLog, record_bytes, replay_round, after_round, replay_loop, replay, ReplayResult,
  recover_trailing_record, append, append_serialized, write_record, next_event, synced,
  write_failed, sync_failed, truncated,
}
use plywise.Storage.EventLog.Record.{
  IsRecordable, length-record_bytes, replay_round-torn, serialize-ok,
}
use plywise.Storage.EventLog.Whole.{log_bytes, so_far, reading, loop-log_bytes, replay_loop-enough}

replay-reading :
    (es : List Event) (tail : Bytes)
    → All IsRecordable es
    → replay (log_bytes es ++ tail)
      ≡ replay_loop (length tail) (reading tail (length (log_bytes es)) es)
unfolding replay
replay-reading es tail h =
    let whole = log_bytes es ++ tail in
    replay_loop-enough (length whole) (length es + length whole) (reading whole 0 []) (omega arith)
      (omega arith)
    ∙ loop-log_bytes es tail (length whole) 0 [] h
    ∙ ap (λ n. replay_loop (length whole) (reading tail n es)) (omega arith)
    ∙ replay_loop-enough (length whole) (length tail) (reading tail (length (log_bytes es)) es)
        (omega (arith, length-append (log_bytes es) tail)) (omega arith)

-- A file of whole records is replayed as its events, in order, with nothing corrupt or cut short, and
-- all of its bytes valid.
pub replay-log_bytes :
    (es : List Event)
    → All IsRecordable es
    → replay (log_bytes es) ≡ so_far es (length (log_bytes es)) false
unfolding replay_loop
replay-log_bytes es h = ap replay (sym (append-nil (log_bytes es))) ∙ replay-reading es [] h

loop_end :
    (n offset : ℕ) (result : ReplayResult)
    → replay_loop n (record { left = []; offset = offset; prefix_intact = true; result = result })
      ≡ result
unfolding replay_loop
loop_end zero offset result = refl
loop_end (suc n) offset result = refl

loop_torn :
    (b n offset : ℕ) (front : Bytes) (es : List Event)
    → replay_round (b ∷ front) ≡ truncated
    → replay_loop (suc n) (reading (b ∷ front) offset es) ≡ so_far es offset true
unfolding replay_loop after_round
loop_torn b n offset front es h = rw h (loop_end n offset (so_far es offset true))

-- With a record at the end that was cut short, the whole records are replayed as their events, the
-- tail is reported as truncated and nothing as corrupt, and the valid bytes are those of the whole
-- records.
pub replay-torn :
    (es : List Event) (e : Event) (front back : Bytes)
    → All IsRecordable es
    → IsRecordable e
    → record_bytes e ≡ front ++ back
    → 0 < length front
    → 0 < length back
    → replay (log_bytes es ++ front) ≡ so_far es (length (log_bytes es)) true
replay-torn es e [] back h r cut some more = absurd (omega (arith, some))
replay-torn es e (b ∷ front) back h r cut some more =
    replay-reading es (b ∷ front) h
    ∙ loop_torn b (length front) (length (log_bytes es)) front es
        (replay_round-torn e (b ∷ front) back r cut more)

recover_whole :
    (es : List Event)
    → All IsRecordable es
    → recover_trailing_record (log_bytes es) ≡ (log_bytes es, false)
unfolding recover_trailing_record
recover_whole es h = rw (replay-log_bytes es h) refl

-- When whole records, each of them recordable, are followed by a part of one more, not empty and not all of
-- it, recovery cuts off that part and nothing else; a file of these whole records alone it leaves as it is.
pub recover-torn :
    (es : List Event) (e : Event) (front back : Bytes)
    → All IsRecordable es
    → IsRecordable e
    → record_bytes e ≡ front ++ back
    → 0 < length front
    → 0 < length back
    → (recover_trailing_record (log_bytes es ++ front) ≡ (log_bytes es, true))
      × (recover_trailing_record (log_bytes es) ≡ (log_bytes es, false))
unfolding recover_trailing_record
recover-torn es e front back h r cut some more = (
  rw (replay-torn es e front back h r cut some more)
      (ap (λ bytes. (bytes, true)) (take-append (length (log_bytes es)) (log_bytes es) front refl)),
  recover_whole es h,
)

log_bytes-append : (es fs : List Event) → log_bytes (es ++ fs) ≡ log_bytes es ++ log_bytes fs
unfolding log_bytes
log_bytes-append [] fs = refl
log_bytes-append (e ∷ es) fs =
    ap (◌++◌ (record_bytes e)) (log_bytes-append es fs)
    ∙ sym (append_assoc (record_bytes e) (log_bytes es) (log_bytes fs))

recover-cut :
    (es : List Event) (e : Event) (n : ℕ)
    → All IsRecordable es
    → IsRecordable e
    → n < 36 + length e.payload
    → (recover_trailing_record (log_bytes es ++ take n (record_bytes e))).0 ≡ log_bytes es
unfolding take
recover-cut es e zero h r short =
    ap (λ (f : Bytes). (recover_trailing_record f).0) (append-nil (log_bytes es))
    ∙ ap (λ x. x.0) (recover_whole es h)
recover-cut es e (suc n) h r short =
    let front = take (suc n) (record_bytes e) in
    let back = drop (suc n) (record_bytes e) in
    let parts = take-drop (suc n) (record_bytes e) in
    let sizes : length front + length back ≡ 36 + length e.payload =
      sym (length-append front back) ∙ ap length parts ∙ length-record_bytes e in
    let rest : length back ≡ 36 + length e.payload - suc n =
      length-drop (suc n) (record_bytes e) ∙ ap (λ k. k - suc n) (length-record_bytes e) in
    ap (λ x. x.0)
      (recover-torn es e front back h r (sym parts) (omega (arith, sizes, rest, short))
        (omega (arith, rest, short))).0

-- What an `append` writes, from a log whose records are whole.
module _ (log : EventLog) (es : List Event) (type timestamp_ms : ℕ) (payload : Bytes)
    (whole : log.file ≡ log_bytes es) (recordable : All IsRecordable es)
    (fits : IsRecordable (next_event log type timestamp_ms payload)) where
  abbrev pub e : Event
  e = next_event log type timestamp_ms payload

  log_bytes_next : log_bytes (es ++ e ∷ []) ≡ log.file ++ record_bytes e
  unfolding log_bytes
  log_bytes_next =
      log_bytes-append es (e ∷ [])
      ∙ ap (◌++◌ (log_bytes es)) (append-nil (record_bytes e))
      ∙ ap (λ (f : Bytes). f ++ record_bytes e) (sym whole)

  two_more :
      (e2 : Event) → log_bytes (es ++ e ∷ e2 ∷ []) ≡ log.file ++ record_bytes e ++ record_bytes e2
  unfolding log_bytes
  two_more e2 =
      log_bytes-append es (e ∷ e2 ∷ [])
      ∙ ap (λ (f : Bytes). log_bytes es ++ (record_bytes e ++ f)) (append-nil (record_bytes e2))
      ∙ sym (append_assoc (log_bytes es) (record_bytes e) (record_bytes e2))
      ∙ ap (λ (f : Bytes). f ++ record_bytes e ++ record_bytes e2) (sym whole)

  -- When the file of the log is whole, recordable records, the new event is recordable, and the writes are
  -- synced, `append` adds the event to what replay returns, with the log's next id, and the id after it is
  -- the next one.
  pub append-synced :
      (append log type timestamp_ms payload synced).1 ≡ ok e
      × ((append log type timestamp_ms payload synced).0.next_id
          ≡ (log.next_id + 1) % 18446744073709551616)
      × (replay (append log type timestamp_ms payload synced).0.file
          ≡ so_far (es ++ e ∷ []) (length (log_bytes (es ++ e ∷ []))) false)
  unfolding append append_serialized write_record
  append-synced = rw (serialize-ok e fits) (
    refl,
    refl,
    ap replay (sym log_bytes_next)
        ∙ replay-log_bytes (es ++ e ∷ [])
            (All-append IsRecordable es (e ∷ []) recordable (fits, tt)),
  )

  -- When the file of the log is whole, recordable records, the new event is recordable, and a write fails
  -- before its record is whole, `append` reports an I/O error and keeps the id, and recovery gives back the
  -- file as it was before.
  pub append-write_failed :
      (n : ℕ)
      → n < 36 + length payload
      → ((append log type timestamp_ms payload (write_failed n)).1 ≡ err io_error)
        × ((append log type timestamp_ms payload (write_failed n)).0.next_id ≡ log.next_id)
        × ((recover_trailing_record
              (append log type timestamp_ms payload (write_failed n)).0.file).0
            ≡ log.file)
  unfolding append append_serialized write_record
  append-write_failed n h = rw (serialize-ok e fits) (
    refl,
    refl,
    ap (λ (f : Bytes). (recover_trailing_record (f ++ take n (record_bytes e))).0) whole
        ∙ recover-cut es e n recordable fits h
        ∙ sym whole,
  )

  -- When the file of the log is whole, recordable records, both new events are recordable, and the sync fails
  -- after the writes of the first, `append` reports an I/O error and keeps its id, but once the second has
  -- been appended and synced replay finds both, with the same id.
  pub append-sync_failed_reuses :
      (later_type later_ms : ℕ) (later_payload : Bytes)
      → IsRecordable (next_event log later_type later_ms later_payload)
      → let failed = append log type timestamp_ms payload sync_failed in
        let again = append failed.0 later_type later_ms later_payload synced in
        let e2 = next_event log later_type later_ms later_payload in
        (failed.1 ≡ err io_error)
        × (again.1 ≡ ok e2)
        × (replay again.0.file
            ≡ so_far (es ++ e ∷ e2 ∷ []) (length (log_bytes (es ++ e ∷ e2 ∷ []))) false)
        × (e.id ≡ e2.id)
  unfolding append append_serialized write_record
  append-sync_failed_reuses later_type later_ms later_payload later_fits =
      let e2 : Event = next_event log later_type later_ms later_payload in
      rw (serialize-ok e fits, serialize-ok e2 later_fits)
        (
          refl,
          refl,
          ap replay (sym (two_more e2))
              ∙ replay-log_bytes (es ++ e ∷ e2 ∷ [])
                  (All-append IsRecordable es (e ∷ e2 ∷ []) recordable (fits, (later_fits, tt))),
          refl,
        )
