-- ===== src/Storage/EventLog.antt =====
-- `EventLog`: include/pct/storage/event_log.hpp, src/storage/event_log.cpp. The file is the list of its
-- bytes. A signed time stamp is its 64-bit pattern, and a type is its 16-bit number, which need not be
-- one of the enumeration. Directories, permissions and `fsync` are the operating system's.
pub mod Record
pub mod Whole
pub mod Recover
pub mod Compact
use plywise.Errors.{Result, ok, err, invalid_argument, io_error, ◌>>=◌}
use plywise.Prelude.{
  ℕ, zero, suc, ◌+◌, ◌-◌, ◌%◌, Bool, true, false, not, ◌&&◌, ◌||◌, List, [], ◌∷◌, ◌++◌, length,
  take, drop, ltb, leb, ◌==◌, if◌then◌else◌,
}
use plywise.Storage.Bytes.{Bytes, append_little_endian, read_little_endian, checksum}

abbrev pub magic : ℕ
magic = 0x45544350

abbrev pub header_size : ℕ
header_size = 32

abbrev pub checksum_size : ℕ
checksum_size = 4

abbrev pub minimum_record_size : ℕ
minimum_record_size = 36

abbrev pub maximum_record_size : ℕ
maximum_record_size = 16777216

abbrev pub current_schema_version : ℕ
current_schema_version = 2

pub record Event : Type 0 where
  pub schema_version : ℕ
  pub type : ℕ
  pub id : ℕ
  pub timestamp_ms : ℕ
  pub payload : Bytes

-- Why a record is corrupt, for the message of the source.
pub data Reason : Type 0 where
  bad_magic bad_length bad_checksum bad_schema : Reason

pub record Corruption : Type 0 where
  pub offset : ℕ
  pub reason : Reason

pub record ReplayResult : Type 0 where
  pub events : List Event
  pub corruptions : List Corruption
  pub valid_prefix_bytes : ℕ
  pub truncated_tail : Bool

-- The part of a record that its checksum covers.
unfoldable pub record_body : Event → Bytes
record_body e =
    append_little_endian 4 magic
    ++ (append_little_endian 2 e.schema_version
        ++ (append_little_endian 2 e.type
            ++ (append_little_endian 4 (minimum_record_size + length e.payload)
                ++ (append_little_endian 8 e.id
                    ++ (append_little_endian 8 e.timestamp_ms
                        ++ (append_little_endian 4 (length e.payload) ++ e.payload))))))

unfoldable pub record_bytes : Event → Bytes
record_bytes e = record_body e ++ append_little_endian 4 (checksum (record_body e))

unfoldable pub serialize : Event → Result Bytes
serialize e =
    if ltb (maximum_record_size - minimum_record_size) (length e.payload)
    then err invalid_argument
    else ok (record_bytes e)

unfoldable pub starts_magic : Bytes → Bool
starts_magic (a ∷ b ∷ c ∷ d ∷ bytes) = a == 0x50 && b == 0x43 && c == 0x54 && d == 0x45
starts_magic _ = false

-- `find_magic`, as the distance from where the search starts.
unfoldable pub find_magic : Bytes → ℕ
find_magic [] = 0
find_magic (b ∷ bytes) =
    let further = suc (find_magic bytes) in if starts_magic (b ∷ bytes) then 0 else further

-- One round of the loop of `replay_unlocked`, on what is left of the file.
pub data Round : Type 0 where
  truncated : Round
  -- What is corrupt, and how many bytes are passed over.
  corrupt : Reason → ℕ → Round
  found : Event → ℕ → Round

abbrev pub record_size_of : Bytes → ℕ
record_size_of left = read_little_endian 4 (drop 8 left)

abbrev pub payload_size_of : Bytes → ℕ
payload_size_of left = read_little_endian 4 (drop 28 left)

abbrev pub schema_of : Bytes → ℕ
schema_of left = read_little_endian 2 (drop 4 left)

unfoldable pub is_bad_length : Bytes → Bool
is_bad_length left =
    ltb (record_size_of left) minimum_record_size
    || ltb maximum_record_size (record_size_of left)
    || not (payload_size_of left == record_size_of left - minimum_record_size)

unfoldable pub is_bad_checksum : Bytes → Bool
is_bad_checksum left =
    let covered = record_size_of left - checksum_size in
    not (checksum (take covered left) == read_little_endian 4 (drop covered left))

unfoldable pub event_of : Bytes → Event
event_of left = record {
  schema_version = schema_of left;
  type = read_little_endian 2 (drop 6 left);
  id = read_little_endian 8 (drop 12 left);
  timestamp_ms = read_little_endian 8 (drop 20 left);
  payload = take (payload_size_of left) (drop header_size left);
}

unfoldable pub replay_round : Bytes → Round
replay_round left =
    if ltb (length left) minimum_record_size
    then truncated
    else if not (read_little_endian 4 left == magic)
    then corrupt bad_magic (suc (find_magic (drop 1 left)))
    else if is_bad_length left
    then corrupt bad_length (suc (find_magic (drop 1 left)))
    else if ltb (length left) (record_size_of left)
    then truncated
    else if is_bad_checksum left
    then corrupt bad_checksum (record_size_of left)
    else if schema_of left == 0 || ltb current_schema_version (schema_of left)
    then corrupt bad_schema (record_size_of left)
    else found (event_of left) (record_size_of left)

-- The variables of the loop: what is left of the file, and the offset that it starts at.
pub record Replay : Type 0 where
  pub left : Bytes
  pub offset : ℕ
  pub prefix_intact : Bool
  pub result : ReplayResult

unfoldable pub after_round : Replay → Round → Replay
after_round s truncated = record s {
  left = [];
  result = record (s.result) { truncated_tail = true };
}
after_round s (corrupt why size) = record s {
  left = drop size s.left;
  offset = s.offset + size;
  prefix_intact = false;
  result = record (s.result) {
    corruptions = s.result.corruptions ++ record { offset = s.offset; reason = why } ∷ [];
  };
}
after_round s (found e size) = record s {
  left = drop size s.left;
  offset = s.offset + size;
  result = record (s.result) {
    events = s.result.events ++ e ∷ [];
    valid_prefix_bytes = if s.prefix_intact then s.offset + size else s.result.valid_prefix_bytes;
  };
}

abbrev pub is_end : Bytes → Bool
is_end [] = true
is_end (b ∷ bytes) = false

-- The loop; a round that breaks leaves nothing to read.
unfoldable pub replay_loop : ℕ → Replay → ReplayResult
replay_loop zero s = s.result
replay_loop (suc fuel) s =
    let next = replay_loop fuel (after_round s (replay_round s.left)) in
    if is_end s.left then s.result else next

abbrev pub no_result : ReplayResult
no_result = record { events = []; corruptions = []; valid_prefix_bytes = 0; truncated_tail = false }

-- `replay_unlocked`; each round passes over a byte or ends the loop.
unfoldable pub replay : Bytes → ReplayResult
replay bytes =
    replay_loop (length bytes)
      (record { left = bytes; offset = 0; prefix_intact = true; result = no_result })

abbrev pub no_corruptions : List Corruption → Bool
no_corruptions [] = true
no_corruptions (c ∷ cs) = false

-- `recover_trailing_record` on the bytes of the file; the file that it leaves, and what it returns.
unfoldable pub recover_trailing_record : Bytes → Bytes × Bool
recover_trailing_record file =
    let result = replay file in
    if not result.truncated_tail || not (no_corruptions result.corruptions)
    then (file, false)
    else (take result.valid_prefix_bytes file, true)

-- The file, and the id of the next event.
pub record EventLog : Type 0 where
  pub file : Bytes
  pub next_id : ℕ

unfoldable pub max_next_id : ℕ → List Event → ℕ
max_next_id next_id [] = next_id
max_next_id next_id (e ∷ es) =
    let id = (e.id + 1) % 18446744073709551616 in
    max_next_id (if ltb next_id id then id else next_id) es

-- The constructor, on a file that has been opened.
unfoldable pub open_log : Bytes → EventLog
open_log file = record { file = file; next_id = max_next_id 1 (replay file).events }

-- How the writes of `append` end: the bytes that were written before one failed, or a failed sync.
pub data Writes : Type 0 where
  synced : Writes
  write_failed : ℕ → Writes
  sync_failed : Writes

abbrev pub next_event : EventLog → ℕ → ℕ → Bytes → Event
next_event log type timestamp_ms payload = record {
  schema_version = current_schema_version;
  type = type;
  id = log.next_id;
  timestamp_ms = timestamp_ms;
  payload = payload;
}

unfoldable pub write_record : EventLog → Event → Writes → Bytes → EventLog × Result Event
write_record log e synced bytes = (
  record log { file = log.file ++ bytes; next_id = (log.next_id + 1) % 18446744073709551616 },
  ok e,
)
write_record log e (write_failed n) bytes =
    (record log { file = log.file ++ take n bytes }, err io_error)
write_record log e sync_failed bytes = (record log { file = log.file ++ bytes }, err io_error)

unfoldable pub append_serialized :
    EventLog → Event → Writes → Result Bytes → EventLog × Result Event
append_serialized log e writes (ok bytes) = write_record log e writes bytes
append_serialized log e writes (err code) = (log, err code)

-- `EventLog::append`, with what the operating system does as an argument.
unfoldable pub append : EventLog → ℕ → ℕ → Bytes → Writes → EventLog × Result Event
append log type timestamp_ms payload writes =
    let e = next_event log type timestamp_ms payload in append_serialized log e writes (serialize e)
