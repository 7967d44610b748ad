-- ===== src/Chess/Fen/Accepts.antt =====
-- What `from_fen` accepts is a well-formed position, but for the en passant target, which it does not
-- look at.
use Prim.Native.Nat.{bit_or}
use plywise.Chess.Board.{Board, read, king_square}
use plywise.Chess.Fen.{
  Placement, add_rights, is_dash, place_symbol, place, parse_placement, parse_side, parse_rights,
  parse_target, parse_uint, has_kings, finish_board, with_hash, board_of_fields, parse_fields,
  split, from_fen, empty_squares,
}
use plywise.Chess.Attack.{holds}
use plywise.Chess.Hash.{compute_hash, hash_en_passant}
use plywise.Chess.Make.Keeps.{Canonical}
use plywise.Chess.Piece.{white, black, Piece, is_empty, no_piece, piece_from_symbol}
use plywise.Chess.Shape.{IsWellFormed, HasTarget}
use plywise.Chess.Square.{Text, no_square}
use plywise.Chess.Square.Names.{square_name-parse_square}
use plywise.Errors.{Result, ok, err, parse_error, >>=-through}
use plywise.Prelude.{
  ℕ, zero, suc, ◌+◌, ◌*◌, ◌<◌, ◌≡◌, ◌≢◌, ◌⊎◌, inl, inr, refl, true, not, ◌||◌, List, [], ◌∷◌, arith,
  length, length-set, get_or, get_or-set, if◌then◌else◌, ltb, ◌==◌, Bool-cases, all_below,
  all_below_sound, ltb→lt, ap, sym, subst,
}

-- A board's worth of squares, the empty ones all `Piece{}`.
record IsPlaced (xs : List Piece) : Type 0 where
  size : length xs ≡ 64
  canonical : Canonical xs

place_symbol-IsPlaced :
    (p : Placement) (c : ℕ) {q : Placement}
    → IsPlaced p.squares
    → place_symbol p c ≡ ok q
    → IsPlaced q.squares
unfolding place_symbol
place_symbol-IsPlaced p c {q} v h = record {
  size = ground (arith, v.size, length-set p.squares (p.rank * 8 + p.file) (piece_from_symbol c));
  canonical = λ i e. ground (
    arith,
    v.canonical i,
    get_or-set p.squares (p.rank * 8 + p.file) i (piece_from_symbol c) no_piece,
  );
}

place-IsPlaced :
    (t : Text) (p : Placement) {q : Placement}
    → IsPlaced p.squares
    → place p t ≡ ok q
    → IsPlaced q.squares
unfolding place
place-IsPlaced [] p v h = ground (arith, v.size)
place-IsPlaced (c ∷ cs) p v h =
    let (q, first, later) = >>=-through (place_symbol p c) (λ q. place q cs) h in
    place-IsPlaced cs q (place_symbol-IsPlaced p c v first) later

empty_squares-IsPlaced :
    (n i : ℕ) → (length (empty_squares n) ≡ n) × (read (empty_squares n) i ≡ no_piece)
unfolding empty_squares get_or
empty_squares-IsPlaced zero i = (refl, refl)
empty_squares-IsPlaced (suc n) zero = (ap suc (empty_squares-IsPlaced n 0).0, refl)
empty_squares-IsPlaced (suc n) (suc i) =
    (ap suc (empty_squares-IsPlaced n i).0, (empty_squares-IsPlaced n i).1)

parse_placement-IsPlaced : (t : Text) {xs : List Piece} → parse_placement t ≡ ok xs → IsPlaced xs
unfolding parse_placement
parse_placement-IsPlaced t {xs} h =
    let (q, placed, done) = >>=-through (place start t) finish h in
    subst IsPlaced (ends q done) (
      place-IsPlaced t start
        (record {
          size = (empty_squares-IsPlaced 64 0).0;
          canonical = λ i e. (empty_squares-IsPlaced 64 i).1;
        })
        placed)
  where
    start : Placement
    start = record { squares = empty_squares 64; rank = 7; file = 0 }

    finish : Placement → Result (List Piece)
    finish p = if not (p.rank == 0) || not (p.file == 8) then err parse_error else ok p.squares

    ends : (q : Placement) → finish q ≡ ok xs → q.squares ≡ xs
    ends q e = ground arith

parse_uint-le : (t : Text) {n : ℕ} → parse_uint t ≡ ok n → n < 65536
unfolding parse_uint
parse_uint-le [] h = cc
parse_uint-le (c ∷ cs) h = ground arith

parse_target-le : (t : Text) {n : ℕ} → parse_target t ≡ ok n → (n ≡ no_square) ⊎ (n < 64)
unfolding parse_target
parse_target-le t {n} h = elim (Bool-cases (is_dash t)) [
  | inl d ↦ inl (ground arith)
  | inr w ↦ elim (square_name-parse_square t) [
    | inl (square, e, lt, _) ↦ inr (ground arith)
    | inr e ↦ absurd (ground arith)
  ]
]

or_table :
    (bit : ℕ)
    → (bit ≡ 1) ⊎ (bit ≡ 2) ⊎ (bit ≡ 4) ⊎ (bit ≡ 8)
    → all_below 16 (λ r. ltb (bit_or r bit) 16) ≡ true
unfolding all_below
or_table bit (inl e) = rw e refl
or_table bit (inr (inl e)) = rw e refl
or_table bit (inr (inr (inl e))) = rw e refl
or_table bit (inr (inr (inr e))) = rw e refl

bit_or-lt : (r bit : ℕ) → (bit ≡ 1) ⊎ (bit ≡ 2) ⊎ (bit ≡ 4) ⊎ (bit ≡ 8) → r < 16 → bit_or r bit < 16
bit_or-lt r bit k h =
    ltb→lt _ _ (all_below_sound 16 (λ x. ltb (bit_or x bit) 16) r (or_table bit k) h)

add_rights-lt : (t : Text) (r n : ℕ) → r < 16 → add_rights r t ≡ ok n → n < 16
unfolding add_rights
add_rights-lt [] r n l h = ground arith
add_rights-lt (c ∷ cs) r n l h = ground (
  arith,
  add_rights-lt cs (bit_or r 1) n (bit_or-lt r 1 (inl refl) l),
  add_rights-lt cs (bit_or r 2) n (bit_or-lt r 2 (inr (inl refl)) l),
  add_rights-lt cs (bit_or r 4) n (bit_or-lt r 4 (inr (inr (inl refl))) l),
  add_rights-lt cs (bit_or r 8) n (bit_or-lt r 8 (inr (inr (inr refl))) l),
)

parse_rights-lt : (t : Text) {n : ℕ} → parse_rights t ≡ ok n → n < 16
unfolding parse_rights
parse_rights-lt t {n} h = ground (arith, add_rights-lt t 0 n (omega arith))

-- What a board read from a FEN satisfies.
pub record IsParsed (b : Board) : Type 0 where
  pub size : length b.squares ≡ 64
  pub canonical : (i : ℕ) → is_empty (read b.squares i) ≡ true → read b.squares i ≡ no_piece
  pub kings : (king_square b white ≢ no_square) × (king_square b black ≢ no_square)
  pub rights : b.castling_rights < 16
  pub target : (b.en_passant ≡ no_square) ⊎ (b.en_passant < 64)
  pub halfmove : b.halfmove_clock < 65536
  pub fullmove : (0 < b.fullmove_number) × (b.fullmove_number < 65536)
  pub hashed : b.hash ≡ compute_hash b
  pub history : b.repetition_history ≡ b.hash ∷ []

with_hash-hash : (b : Board) → compute_hash (with_hash b) ≡ compute_hash b
unfolding with_hash compute_hash hash_en_passant holds
with_hash-hash b = refl

module _ (c : Board) (placed : IsPlaced c.squares) (rights : c.castling_rights < 16)
    (target : (c.en_passant ≡ no_square) ⊎ (c.en_passant < 64))
    (halfmove : c.halfmove_clock < 65536) (fullmove : c.fullmove_number < 65536) where
  with_hash-IsParsed : 0 < c.fullmove_number → has_kings c ≡ true → IsParsed (with_hash c)
  unfolding with_hash has_kings king_square
  with_hash-IsParsed f k = record {
    size = placed.size;
    canonical = placed.canonical;
    kings = (λ e. ground arith, λ e. ground arith);
    rights = rights;
    target = target;
    halfmove = halfmove;
    fullmove = (f, fullmove);
    hashed = sym (with_hash-hash c);
    history = refl;
  }

  finish_board-IsParsed : {b : Board} → finish_board c ≡ ok b → IsParsed b
  unfolding finish_board
  finish_board-IsParsed {b} h = elim (Bool-cases (c.fullmove_number == 0)) [
    | inl z ↦ absurd (ground arith)
    | inr n ↦ elim (Bool-cases (has_kings c)) [
      | inr none ↦ absurd (ground arith)
      | inl both ↦ subst IsParsed (ok_eq (ground arith)) (with_hash-IsParsed (ground arith) both)
    ]
  ]
    where
      ok_eq : {x y : Board} → ok x ≡ ok y → x ≡ y
      ok_eq e = cc

parse_fields-IsParsed : (fields : List Text) {b : Board} → parse_fields fields ≡ ok b → IsParsed b
unfolding parse_fields board_of_fields
parse_fields-IsParsed [] h = absurd (cc)
parse_fields-IsParsed (f0 ∷ []) h = absurd (cc)
parse_fields-IsParsed (f0 ∷ f1 ∷ []) h = absurd (cc)
parse_fields-IsParsed (f0 ∷ f1 ∷ f2 ∷ []) h = absurd (cc)
parse_fields-IsParsed (f0 ∷ f1 ∷ f2 ∷ f3 ∷ []) h = absurd (cc)
parse_fields-IsParsed (f0 ∷ f1 ∷ f2 ∷ f3 ∷ f4 ∷ []) h = absurd (cc)
parse_fields-IsParsed (f0 ∷ f1 ∷ f2 ∷ f3 ∷ f4 ∷ f5 ∷ f6 ∷ fs) h = absurd (cc)
parse_fields-IsParsed (f0 ∷ f1 ∷ f2 ∷ f3 ∷ f4 ∷ f5 ∷ []) h0 =
    let (squares, e0, h1) = >>=-through (parse_placement f0) _ h0 in
    let (side, e1, h2) = >>=-through (parse_side f1) _ h1 in
    let (rights, e2, h3) = >>=-through (parse_rights f2) _ h2 in
    let (target, e3, h4) = >>=-through (parse_target f3) _ h3 in
    let (halfmove, e4, h5) = >>=-through (parse_uint f4) _ h4 in
    let (fullmove, e5, h6) = >>=-through (parse_uint f5) _ h5 in
    finish_board-IsParsed (board_of_fields squares side rights target halfmove fullmove)
      (parse_placement-IsPlaced f0 e0) (parse_rights-lt f2 e2) (parse_target-le f3 e3)
      (parse_uint-le f4 e4) (parse_uint-le f5 e5) h6

-- A board that `from_fen` returns has 64 squares with its empty ones blank, both kings, four bits of
-- rights, a target that is none or a square, clocks of 16 bits, a full-move number from one up, its
-- own hash, and that hash as its history.
pub from_fen-IsParsed : (fen : Text) {b : Board} → from_fen fen ≡ ok b → IsParsed b
unfolding from_fen
from_fen-IsParsed fen h = parse_fields-IsParsed (split fen) h

-- With no target, or one that a pawn has just passed, such a board is well-formed.
pub IsParsed-IsWellFormed :
    {b : Board} → IsParsed b → (b.en_passant ≡ no_square) ⊎ HasTarget b → IsWellFormed b
IsParsed-IsWellFormed p t = record {
  size = p.size;
  canonical = p.canonical;
  target = t;
  history = omega (arith, ap length p.history);
}
