-- ===== src/Storage/EventLog/Record.antt =====
-- What a round of replay sees of a record that `serialize` has written.
use mathlib.Core.List.{append_assoc}
use plywise.Prelude.{
  ℕ, zero, suc, ◌+◌, ◌-◌, ◌*◌, ◌<◌, ◌≤◌, ◌≡◌, refl, sym, ap, ◌∙◌, arith, [], ◌∷◌, ◌++◌, length,
  length-append, take, drop, take-append, drop-append, Bool-cases, inl, inr, false, ltb,
}
use plywise.Errors.{ok}
use plywise.Storage.Bytes.{Bytes, append_little_endian, read_little_endian, checksum}
use plywise.Storage.Bytes.Words.{
  length-append_little_endian, read-append_little_endian, checksum-lt,
}
use plywise.Storage.EventLog.{
  Event, magic, record_body, record_bytes, serialize, is_bad_length, is_bad_checksum, event_of,
  replay_round, truncated, found, record_size_of, payload_size_of, schema_of,
}

-- The fields fit their widths, the schema is known, and the payload keeps to the limit.
pub record IsRecordable (e : Event) : Type 0 where
  pub schema_known : 0 < e.schema_version
  pub schema_current : e.schema_version ≤ 2
  pub type_fits : e.type < 65536
  pub id_fits : e.id < 18446744073709551616
  pub time_fits : e.timestamp_ms < 18446744073709551616
  pub payload_fits : length e.payload ≤ 16777180

pub serialize-ok : (e : Event) → IsRecordable e → serialize e ≡ ok (record_bytes e)
unfolding serialize
serialize-ok e h = ground (arith, h.payload_fits)

pub length-record_body : (e : Event) → length (record_body e) ≡ 32 + length e.payload
unfolding record_body append_little_endian
length-record_body e = omega arith

pub length-record_bytes : (e : Event) → length (record_bytes e) ≡ 36 + length e.payload
unfolding record_bytes
length-record_bytes e = omega (
  arith,
  length-append (record_body e) (append_little_endian 4 (checksum (record_body e))),
  length-record_body e,
  length-append_little_endian 4 (checksum (record_body e)),
)

module _ (e : Event) (h : IsRecordable e) (after : Bytes) where
  abbrev left : Bytes
  left = record_body e ++ after

  magic-left : read_little_endian 4 left ≡ magic
  unfolding record_body append_little_endian read_little_endian
  magic-left = omega arith

  schema-left : schema_of left ≡ e.schema_version
  unfolding record_body append_little_endian read_little_endian drop
  schema-left = omega (arith, h.schema_current)

  type-left : read_little_endian 2 (drop 6 left) ≡ e.type
  unfolding record_body append_little_endian read_little_endian drop
  type-left = omega (arith, h.type_fits)

  record_size-left : record_size_of left ≡ 36 + length e.payload
  unfolding record_body append_little_endian read_little_endian drop
  record_size-left = omega (arith, h.payload_fits)

  payload_size-left : payload_size_of left ≡ length e.payload
  unfolding record_body append_little_endian read_little_endian drop
  payload_size-left = omega (arith, h.payload_fits)

  id-left : read_little_endian 8 (drop 12 left) ≡ e.id
  unfolding record_body append_little_endian read_little_endian drop
  id-left = omega (arith, h.id_fits)

  timestamp-left : read_little_endian 8 (drop 20 left) ≡ e.timestamp_ms
  unfolding record_body append_little_endian read_little_endian drop
  timestamp-left = omega (arith, h.time_fits)

  payload-left : take (length e.payload) (drop 32 left) ≡ e.payload
  unfolding record_body append_little_endian drop
  payload-left = take-append (length e.payload) e.payload after refl

  event-left : event_of left ≡ e
  unfolding event_of
  event-left = rw payload_size-left λ i. record {
    schema_version = schema-left i;
    type = type-left i;
    id = id-left i;
    timestamp_ms = timestamp-left i;
    payload = payload-left i;
  }

-- The record up to its checksum, and what follows.
body_first :
    (e : Event) (rest : Bytes)
    → record_bytes e ++ rest
      ≡ record_body e ++ (append_little_endian 4 (checksum (record_body e)) ++ rest)
unfolding record_bytes
body_first e rest =
    append_assoc (record_body e) (append_little_endian 4 (checksum (record_body e))) rest

-- The tests of a round, on a record whose fields are these.
round-found :
    (left : Bytes) (n : ℕ)
    → 36 + n ≤ length left
    → n ≤ 16777180
    → read_little_endian 4 left ≡ magic
    → record_size_of left ≡ 36 + n
    → payload_size_of left ≡ n
    → is_bad_checksum left ≡ false
    → 0 < schema_of left
    → schema_of left ≤ 2
    → replay_round left ≡ found (event_of left) (36 + n)
unfolding replay_round is_bad_length
round-found left n size small m r p c lo hi = ground arith

round-truncated :
    (left : Bytes) (n : ℕ)
    → length left < 36 + n
    → n ≤ 16777180
    → read_little_endian 4 left ≡ magic
    → record_size_of left ≡ 36 + n
    → payload_size_of left ≡ n
    → replay_round left ≡ truncated
unfolding replay_round is_bad_length
round-truncated left n short small m r p = ground arith

round-short : (left : Bytes) → length left < 36 → replay_round left ≡ truncated
unfolding replay_round
round-short left short = ground arith

checksum-body :
    (e : Event) (rest : Bytes)
    → IsRecordable e
    → is_bad_checksum (record_body e ++ (append_little_endian 4 (checksum (record_body e)) ++ rest))
      ≡ false
unfolding is_bad_checksum
checksum-body e rest h =
    let sum = append_little_endian 4 (checksum (record_body e)) in
    let covered : 36 + length e.payload - 4 ≡ length (record_body e) =
      omega (arith, length-record_body e) in
    rw
      (
        record_size-left e h (sum ++ rest),
        covered,
        take-append (length (record_body e)) (record_body e) (sum ++ rest) refl,
        drop-append (length (record_body e)) (record_body e) (sum ++ rest) refl,
        read-append_little_endian 4 (checksum (record_body e)) rest
            (omega (arith, checksum-lt (record_body e))),
      )
      (ground arith)

-- A record is read as its event, whatever follows it.
pub replay_round-record_bytes :
    (e : Event) (rest : Bytes)
    → IsRecordable e
    → replay_round (record_bytes e ++ rest) ≡ found e (36 + length e.payload)
replay_round-record_bytes e rest h =
    let sum = append_little_endian 4 (checksum (record_body e)) in
    let left = record_body e ++ (sum ++ rest) in
    let whole : length left ≡ 36 + length e.payload + length rest = omega (
      arith,
      length-append (record_body e) (sum ++ rest),
      length-append sum rest,
      length-append_little_endian 4 (checksum (record_body e)),
      length-record_body e,
    ) in
    ap replay_round (body_first e rest)
    ∙ round-found left (length e.payload) (omega (arith, whole)) h.payload_fits
        (magic-left e h (sum ++ rest)) (record_size-left e h (sum ++ rest))
        (payload_size-left e h (sum ++ rest)) (checksum-body e rest h)
        (omega (arith, schema-left e h (sum ++ rest), h.schema_known))
        (omega (arith, schema-left e h (sum ++ rest), h.schema_current))
    ∙ ap (λ x. found x (36 + length e.payload)) (event-left e h (sum ++ rest))

read-front :
    (k : ℕ) (front back : Bytes)
    → k ≤ length front
    → read_little_endian k (front ++ back) ≡ read_little_endian k front
unfolding read_little_endian
read-front zero front back h = refl
read-front (suc k) [] back h = absurd (omega (arith, h))
read-front (suc k) (b ∷ front) back h =
    ap (λ n. b + 256 * n) (read-front k front back (omega (arith, h)))

read-drop_front :
    (n k : ℕ) (front back : Bytes)
    → n + k ≤ length front
    → read_little_endian k (drop n (front ++ back)) ≡ read_little_endian k (drop n front)
unfolding drop
read-drop_front zero k front back h = read-front k front back (omega (arith, h))
read-drop_front (suc n) k [] back h = absurd (omega (arith, h))
read-drop_front (suc n) k (b ∷ front) back h = read-drop_front n k front back (omega (arith, h))

-- A record that has been cut short is a truncated tail.
pub replay_round-torn :
    (e : Event) (front back : Bytes)
    → IsRecordable e
    → record_bytes e ≡ front ++ back
    → 0 < length back
    → replay_round front ≡ truncated
replay_round-torn e front back h cut more =
    let sum = append_little_endian 4 (checksum (record_body e)) in
    let same : record_body e ++ sum ≡ front ++ back = (unfold record_bytes in cut) in
    elim (Bool-cases (ltb (length front) 36)) [
      | inl short ↦ round-short front (ground arith)
      | inr long ↦
          let enough : 36 ≤ length front = ground arith in
          round-truncated front (length e.payload)
            (omega (arith, length-record_bytes e, ap length cut, length-append front back))
            h.payload_fits
            (sym (read-front 4 front back (omega arith))
              ∙ ap (read_little_endian 4) (sym same)
              ∙ magic-left e h sum)
            (sym (read-drop_front 8 4 front back (omega arith))
              ∙ ap record_size_of (sym same)
              ∙ record_size-left e h sum)
            (sym (read-drop_front 28 4 front back (omega arith))
              ∙ ap payload_size_of (sym same)
              ∙ payload_size-left e h sum)
    ]
