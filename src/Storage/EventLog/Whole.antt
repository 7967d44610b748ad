-- ===== src/Storage/EventLog/Whole.antt =====
-- What `replay` makes of a log whose records are whole, but for the last.
use mathlib.Core.List.{append_assoc, append-nil}
use plywise.Prelude.{
  ℕ, zero, suc, ◌+◌, ◌<◌, ◌≤◌, ◌≡◌, refl, sym, ap, ◌∙◌, arith, List, [], ◌∷◌, ◌++◌, length,
  length-append, drop, drop-append, length-drop, Bool-cases, inl, inr, Bool, true, false, All,
}
use plywise.Storage.Bytes.{Bytes}
use plywise.Storage.EventLog.{
  Event, record_bytes, replay_round, Round, Replay, ReplayResult, after_round, is_end, replay_loop,
  is_bad_length, truncated, corrupt, found,
}
use plywise.Storage.EventLog.Record.{IsRecordable, length-record_bytes, replay_round-record_bytes}

-- The bytes of these events, in order.
unfoldable pub log_bytes : List Event → Bytes
log_bytes [] = []
log_bytes (e ∷ es) = record_bytes e ++ log_bytes es

-- What a replay without corruption has found so far.
abbrev pub so_far : List Event → ℕ → Bool → ReplayResult
so_far events offset torn = record {
  events = events;
  corruptions = [];
  valid_prefix_bytes = offset;
  truncated_tail = torn;
}

abbrev pub reading : Bytes → ℕ → List Event → Replay
reading left offset events = record {
  left = left;
  offset = offset;
  prefix_intact = true;
  result = so_far events offset false;
}

is_end-append : (bytes rest : Bytes) → 0 < length bytes → is_end (bytes ++ rest) ≡ false
is_end-append [] rest h = absurd (omega (arith, h))
is_end-append (b ∷ bytes) rest h = refl

loop-record :
    (e : Event) (rest : Bytes) (n offset : ℕ) (events : List Event)
    → IsRecordable e
    → replay_loop (suc n) (reading (record_bytes e ++ rest) offset events)
      ≡ replay_loop n (reading rest (offset + (36 + length e.payload)) (events ++ e ∷ []))
unfolding replay_loop after_round
loop-record e rest n offset events h =
    rw
      (
        is_end-append (record_bytes e) rest (omega (arith, length-record_bytes e)),
        replay_round-record_bytes e rest h,
        drop-append (36 + length e.payload) (record_bytes e) rest (sym (length-record_bytes e)),
      )
      refl

more_rounds : (m n : ℕ) → suc m + n ≡ suc (m + n)
more_rounds m n = omega arith

pub loop-log_bytes :
    (es : List Event) (tail : Bytes) (n offset : ℕ) (events : List Event)
    → All IsRecordable es
    → replay_loop (length es + n) (reading (log_bytes es ++ tail) offset events)
      ≡ replay_loop n (reading tail (offset + length (log_bytes es)) (events ++ es))
unfolding log_bytes
loop-log_bytes [] tail n offset events h =
    λ i. replay_loop (no_rounds i) (reading tail (offset_nil i) (append-nil_sym i))
  where
    no_rounds : 0 + n ≡ n
    no_rounds = omega arith

    offset_nil : offset ≡ offset + 0
    offset_nil = omega arith

    append-nil_sym : events ≡ events ++ []
    append-nil_sym = sym (append-nil events)
loop-log_bytes (e ∷ es) tail n offset events (h, hs) =
    ap (replay_loop (length (e ∷ es) + n))
      (λ i. reading (append_assoc (record_bytes e) (log_bytes es) tail i) offset events)
    ∙ ap (λ k. replay_loop k (reading (record_bytes e ++ (log_bytes es ++ tail)) offset events))
        (more_rounds (length es) n)
    ∙ loop-record e (log_bytes es ++ tail) (length es + n) offset events h
    ∙ loop-log_bytes es tail n (offset + (36 + length e.payload)) (events ++ e ∷ []) hs
    ∙ ap (replay_loop n) (λ i. reading tail (further i) (append_assoc events (e ∷ []) es i))
  where
    further :
        offset + (36 + length e.payload) + length (log_bytes es)
        ≡ offset + length (record_bytes e ++ log_bytes es)
    further = omega (arith, length-append (record_bytes e) (log_bytes es), length-record_bytes e)

nothing_left : (bytes : Bytes) → length bytes ≤ 0 → is_end bytes ≡ true
nothing_left [] h = refl
nothing_left (b ∷ bytes) h = absurd (omega (arith, h))

-- What a round passes over; the last leaves nothing.
passed : Round → ℕ
passed truncated = 1
passed (corrupt why size) = size
passed (found e size) = size

passed_pos : (left : Bytes) → 0 < passed (replay_round left)
unfolding passed replay_round is_bad_length
passed_pos left = ground arith

after_round-shorter :
    (s : Replay) (r : Round)
    → 0 < passed r
    → is_end s.left ≡ false
    → length (after_round s r).left < length s.left
unfolding passed after_round
after_round-shorter s truncated h e = not_end s.left e
  where
    not_end : (bytes : Bytes) → is_end bytes ≡ false → 0 < length bytes
    not_end [] e = cc
    not_end (b ∷ bytes) e = omega arith
after_round-shorter s (corrupt why size) h e = shorter s.left e
  where
    shorter : (bytes : Bytes) → is_end bytes ≡ false → length (drop size bytes) < length bytes
    shorter [] e = cc
    shorter (b ∷ bytes) e = omega (arith, h, length-drop size (b ∷ bytes))
after_round-shorter s (found e size) h end = shorter s.left end
  where
    shorter : (bytes : Bytes) → is_end bytes ≡ false → length (drop size bytes) < length bytes
    shorter [] e = cc
    shorter (b ∷ bytes) e = omega (arith, h, length-drop size (b ∷ bytes))

-- As many rounds as there are bytes are enough: more give the same result.
pub replay_loop-enough :
    (n m : ℕ) (s : Replay)
    → length s.left ≤ n
    → length s.left ≤ m
    → replay_loop n s ≡ replay_loop m s
unfolding replay_loop
replay_loop-enough zero zero s h k = refl
replay_loop-enough zero (suc m) s h k = ground (arith, nothing_left s.left (omega (arith, h)))
replay_loop-enough (suc n) zero s h k = ground (arith, nothing_left s.left (omega (arith, k)))
replay_loop-enough (suc n) (suc m) s h k = elim (Bool-cases (is_end s.left)) [
  | inl e ↦ rw e refl
  | inr more ↦
      let shorter = after_round-shorter s (replay_round s.left) (passed_pos s.left) more in
      simp more (
        replay_loop-enough n m (after_round s (replay_round s.left)) (omega (arith, h, shorter))
          (omega (arith, k, shorter)))
]
