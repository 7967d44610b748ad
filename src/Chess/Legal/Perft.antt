-- ===== src/Chess/Legal/Perft.antt =====
-- `perft` counts the leaves of the tree of legal moves, modulo 2^64, and leaves the board as it was.
use plywise.Chess.Board.{Board, Move}
use plywise.Chess.Hash.{word}
use plywise.Chess.Legal.{perft, perft_loop}
use plywise.Chess.Legal.Filter.{after_move, safe_moves, safe_moves-All, legal_moves-safe_moves}
use plywise.Chess.Make.Keeps.{moved-IsWellFormed}
use plywise.Chess.Make.Restore.{make_move-ok, unmake-moved}
use plywise.Chess.Moves.{pseudo_legal_moves}
use plywise.Chess.Moves.Shapes.{pseudo_legal_moves-Fits}
use plywise.Chess.Moves.Steps.{Fits}
use plywise.Chess.Shape.{IsWellFormed}
use plywise.Errors.{Result, ok}
use plywise.Prelude.{ℕ, zero, suc, ◌+◌, ◌%◌, ◌≡◌, refl, List, [], ◌∷◌, arith, All, ◌∙◌, ap}

-- The legal moves of a position, as a value.
abbrev pub legal_list : Board → List Move
legal_list b = safe_moves b (pseudo_legal_moves b)

-- The sum of f over the positions after these moves.
unfoldable pub sum_after : (Board → ℕ) → Board → List Move → ℕ
sum_after f b [] = 0
sum_after f b (m ∷ ms) = f (after_move b m) + sum_after f b ms

-- The number of lines of this many legal moves.
unfoldable pub leaf_count : ℕ → Board → ℕ
leaf_count zero b = 1
leaf_count (suc depth) b = sum_after (leaf_count depth) b (legal_list b)

pub legal_list-Fits : (b : Board) → IsWellFormed b → All (Fits b) (legal_list b)
legal_list-Fits b w = safe_moves-All b (Fits b) (pseudo_legal_moves b) (pseudo_legal_moves-Fits b w)

module _ (visit : Board → Result (Board × ℕ)) (f : Board → ℕ)
    (visits : (c : Board) → IsWellFormed c → visit c ≡ ok (c, f c % word)) where
  perft_loop-sum_after :
      (b : Board)
      → IsWellFormed b
      → (ms : List Move) (nodes : ℕ) → All (Fits b) ms
      → perft_loop visit ms b (nodes % word) ≡ ok (b, (nodes + sum_after f b ms) % word)
  unfolding perft_loop sum_after
  perft_loop-sum_after b w [] nodes h = ap (λ n. ok (b, n % word)) (omega arith)
  perft_loop-sum_after b w (m ∷ ms) nodes ((mv, s), h) =
      rw
        (
          make_move-ok b m mv,
          visits (after_move b m) (moved-IsWellFormed b m w mv s),
          unmake-moved b m w mv s,
        )
        (ap (perft_loop visit ms b) (omega arith)
          ∙ perft_loop-sum_after b w ms (nodes + f (after_move b m)) h
          ∙ ap (λ n. ok (b, n % word)) (omega arith))

-- At any depth `perft` throws nothing on a well-formed position, returns the number of lines of that
-- many legal moves, wrapped to 64 bits, and leaves the board as it was.
pub perft-leaf_count :
    (depth : ℕ) (b : Board) → IsWellFormed b → perft depth b ≡ ok (b, leaf_count depth b % word)
unfolding perft leaf_count
perft-leaf_count zero b w = refl
perft-leaf_count (suc depth) b w = rw (legal_moves-safe_moves b w) (
    perft_loop-sum_after (perft depth) (leaf_count depth) (perft-leaf_count depth) b w
      (legal_list b) 0 (legal_list-Fits b w)
    ∙ ap (λ n. ok (b, n % word)) (omega arith))
