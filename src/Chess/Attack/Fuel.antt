-- ===== src/Chess/Attack/Fuel.antt =====
-- Eight rounds take a line off the board.
use plywise.Chess.Attack.{Offset, line_attacks, king_offsets}
use plywise.Chess.Board.{Board}
use plywise.Chess.Piece.{Color}
use plywise.Chess.Square.{on_board}
use plywise.Prelude.Int.{ℤ, pos, negsuc, ◌+ℤ◌}
use plywise.Prelude.{
  Bool, ℕ, zero, suc, ◌+◌, ◌≤◌, ◌<◌, ◌≡◌, refl, sym, ◌∙◌, subst, true, false, inl, inr, arith,
  Bool-cases, ltb, All,
}

-- The line is off the board after this many steps at most.
unfoldable pub Leaves : ℕ → Offset → ℤ → ℤ → Type 0
Leaves zero d file rank = on_board file rank ≡ false
Leaves (suc k) d file rank = (on_board file rank ≡ true) → Leaves k d (file +ℤ d.0) (rank +ℤ d.1)

off-Leaves :
    (k : ℕ) (d : Offset) (file rank : ℤ) → on_board file rank ≡ false → Leaves k d file rank
unfolding Leaves
off-Leaves zero d file rank h = h
off-Leaves (suc k) d file rank h = λ on. absurd (ground (arith, h, on))

next_up : (x : ℕ) → pos x +ℤ pos 1 ≡ pos (x + 1)
unfolding ◌+ℤ◌
next_up x = ground arith

next_down : (x : ℕ) → pos (suc x) +ℤ negsuc 0 ≡ pos x
unfolding ◌+ℤ◌
next_down x = ground arith

below_off : (rank : ℤ) → on_board (pos 0 +ℤ negsuc 0) rank ≡ false
unfolding on_board ◌+ℤ◌
below_off rank = refl

under_off : (file : ℤ) → on_board file (pos 0 +ℤ negsuc 0) ≡ false
unfolding on_board ◌+ℤ◌
under_off file = ground arith

right_off : (x : ℕ) (rank : ℤ) → 8 ≤ x → on_board (pos x) rank ≡ false
unfolding on_board
right_off x rank h = ground arith

over_off : (x : ℕ) (file : ℤ) → 8 ≤ x → on_board file (pos x) ≡ false
unfolding on_board
over_off x file h = ground arith

file_up : (k x : ℕ) (dy rank : ℤ) → 8 ≤ k + x → Leaves k (pos 1, dy) (pos x) rank
unfolding Leaves
file_up zero x dy rank h = right_off x rank (omega arith)
file_up (suc k) x dy rank h = λ on.
    subst (λ f. Leaves k (pos 1, dy) f (rank +ℤ dy)) (sym (next_up x))
      (file_up k (x + 1) dy (rank +ℤ dy) (omega arith))

file_down : (k x : ℕ) (dy rank : ℤ) → x < k → Leaves k (negsuc 0, dy) (pos x) rank
unfolding Leaves
file_down zero x dy rank h = absurd (omega arith)
file_down (suc k) zero dy rank h =
    λ on. off-Leaves k (negsuc 0, dy) (pos 0 +ℤ negsuc 0) (rank +ℤ dy) (below_off (rank +ℤ dy))
file_down (suc k) (suc x) dy rank h = λ on.
    subst (λ f. Leaves k (negsuc 0, dy) f (rank +ℤ dy)) (sym (next_down x))
      (file_down k x dy (rank +ℤ dy) (omega arith))

rank_up : (k x : ℕ) (dx file : ℤ) → 8 ≤ k + x → Leaves k (dx, pos 1) file (pos x)
unfolding Leaves
rank_up zero x dx file h = over_off x file (omega arith)
rank_up (suc k) x dx file h = λ on.
    subst (Leaves k (dx, pos 1) (file +ℤ dx)) (sym (next_up x))
      (rank_up k (x + 1) dx (file +ℤ dx) (omega arith))

rank_down : (k x : ℕ) (dx file : ℤ) → x < k → Leaves k (dx, negsuc 0) file (pos x)
unfolding Leaves
rank_down zero x dx file h = absurd (omega arith)
rank_down (suc k) zero dx file h =
    λ on. off-Leaves k (dx, negsuc 0) (file +ℤ dx) (pos 0 +ℤ negsuc 0) (under_off (file +ℤ dx))
rank_down (suc k) (suc x) dx file h = λ on.
    subst (Leaves k (dx, negsuc 0) (file +ℤ dx)) (sym (next_down x))
      (rank_down k x dx (file +ℤ dx) (omega arith))

off_attacks :
    (n : ℕ) (b : Board) (by : Color) (diagonal : Bool) (d : Offset) (file rank : ℤ) (distance : ℕ)
    → on_board file rank ≡ false
    → line_attacks n b by diagonal d file rank distance ≡ false
unfolding line_attacks
off_attacks zero b by diagonal d file rank distance h = refl
off_attacks (suc n) b by diagonal d file rank distance h = rw h refl

-- Two amounts of fuel that are both enough give the same.
line_attacks-Leaves :
    (k n m : ℕ) (b : Board) (by : Color) (diagonal : Bool) (d : Offset) (file rank : ℤ)
    (distance : ℕ)
    → Leaves k d file rank
    → k ≤ n
    → k ≤ m
    → line_attacks n b by diagonal d file rank distance
      ≡ line_attacks m b by diagonal d file rank distance
unfolding line_attacks Leaves
line_attacks-Leaves zero n m b by diagonal d file rank distance l p q =
    off_attacks n b by diagonal d file rank distance l
    ∙ sym (off_attacks m b by diagonal d file rank distance l)
line_attacks-Leaves (suc k) zero m b by diagonal d file rank distance l p q = absurd (omega arith)
line_attacks-Leaves (suc k) (suc n) zero b by diagonal d file rank distance l p q =
    absurd (omega arith)
line_attacks-Leaves (suc k) (suc n) (suc m) b by diagonal d file rank distance l p q =
    elim (Bool-cases (on_board file rank)) [
      | inl on ↦
          rw
            (
              on,
              line_attacks-Leaves k n m b by diagonal d (file +ℤ d.0) (rank +ℤ d.1) (distance + 1)
                  (l on) (omega arith) (omega arith),
            )
            refl
      | inr off ↦ rw off refl
    ]

-- A step to the next file or rank, as each of the eight directions is.
pub data IsUnit : Offset → Type 0 where
  to_right : {dy : ℤ} → IsUnit (pos 1, dy)
  to_left : {dy : ℤ} → IsUnit (negsuc 0, dy)
  upwards : {dx : ℤ} → IsUnit (dx, pos 1)
  downwards : {dx : ℤ} → IsUnit (dx, negsuc 0)

negative_file : (n : ℕ) (rank : ℤ) → on_board (negsuc n) rank ≡ false
unfolding on_board
negative_file n rank = refl

negative_rank : (n : ℕ) (file : ℤ) → on_board file (negsuc n) ≡ false
unfolding on_board
negative_rank n file = ground arith

pub unit-Leaves : (d : Offset) (file rank : ℤ) → IsUnit d → Leaves 8 d file rank
unit-Leaves d (negsuc n) rank u = off-Leaves 8 d (negsuc n) rank (negative_file n rank)
unit-Leaves d (pos x) (negsuc n) u = off-Leaves 8 d (pos x) (negsuc n) (negative_rank n (pos x))
unit-Leaves d (pos x) (pos y) (to_right {dy}) = file_up 8 x dy (pos y) (omega arith)
unit-Leaves d (pos x) (pos y) (to_left {dy}) = elim (Bool-cases (ltb x 8)) [
  | inl on ↦ file_down 8 x dy (pos y) (ground arith)
  | inr off ↦ off-Leaves 8 (negsuc 0, dy) (pos x) (pos y) (right_off x (pos y) (ground arith))
]
unit-Leaves d (pos x) (pos y) (upwards {dx}) = rank_up 8 y dx (pos x) (omega arith)
unit-Leaves d (pos x) (pos y) (downwards {dx}) = elim (Bool-cases (ltb y 8)) [
  | inl on ↦ rank_down 8 y dx (pos x) (ground arith)
  | inr off ↦ off-Leaves 8 (dx, negsuc 0) (pos x) (pos y) (over_off y (pos x) (ground arith))
]

-- Along each of the eight directions, from anywhere, eight rounds of the loop of `is_square_attacked`
-- are enough: more give the same answer.
pub line_attacks-enough :
    (n : ℕ) (b : Board) (by : Color) (diagonal : Bool) (d : Offset) (file rank : ℤ) (distance : ℕ)
    → IsUnit d
    → 8 ≤ n
    → line_attacks n b by diagonal d file rank distance
      ≡ line_attacks 8 b by diagonal d file rank distance
line_attacks-enough n b by diagonal d file rank distance u h =
    line_attacks-Leaves 8 n 8 b by diagonal d file rank distance (unit-Leaves d file rank u) h
      (omega arith)

pub king_offsets-All : All IsUnit king_offsets
king_offsets-All =
    (to_right, (to_left, (upwards, (downwards, (to_right, (to_right, (to_left, (to_left, tt))))))))
