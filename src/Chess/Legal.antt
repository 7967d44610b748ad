-- ===== src/Chess/Legal.antt =====
-- `Board::legal_moves`, `find_legal_move`, `perft` and `perft_stats`: src/chess/board.cpp.
-- They make and take back moves on the one board, so each returns the board with its result.
pub mod Filter
pub mod Restored
pub mod Find
pub mod Stats
pub mod Perft
use plywise.Chess.Attack.{in_check}
use plywise.Chess.Board.{Board, Move, has}
use plywise.Chess.Hash.{word}
use plywise.Chess.Make.{make_move, unmake_move}
use plywise.Chess.MoveFlag
use plywise.Chess.Moves.{pseudo_legal_moves}
use plywise.Chess.Piece.{PieceType, type_eq, opposite}
use plywise.Errors.{Result, ok, ◌>>=◌}
use plywise.Prelude.{
  Bool, true, false, ℕ, zero, suc, ◌+◌, ◌%◌, not, ◌&&◌, ◌||◌, List, [], ◌∷◌, ◌++◌, Option, none,
  some, ◌==◌, if◌then◌else◌,
}

-- The loop over the pseudo-legal moves; `legal` is the vector so far.
unfoldable pub legal_loop : List Move → Board → List Move → Result (Board × List Move)
legal_loop [] b legal = ok (b, legal)
legal_loop (m ∷ ms) b legal = do
  (made, undo) ← make_move b m
  let keep = not (in_check made (opposite made.side_to_move))
  legal_loop ms (unmake_move made m undo) (if keep then legal ++ m ∷ [] else legal)

unfoldable pub legal_moves : Board → Result (Board × List Move)
legal_moves b = legal_loop (pseudo_legal_moves b) b []

unfoldable pub find_move : ℕ → ℕ → PieceType → List Move → Option Move
find_move from to promotion [] = none
find_move from to promotion (m ∷ ms) =
    if m.from == from
      && m.to == to
      && (not (has m MoveFlag.promotion) || type_eq m.promotion promotion)
    then some m
    else find_move from to promotion ms

unfoldable pub find_legal_move : Board → ℕ → ℕ → PieceType → Result (Board × Option Move)
find_legal_move b from to promotion = do
  (after, moves) ← legal_moves b
  ok (after, find_move from to promotion moves)

-- The loop of `perft` over the legal moves; `visit` is `perft(depth - 1)`.
unfoldable pub perft_loop :
    (Board → Result (Board × ℕ)) → List Move → Board → ℕ → Result (Board × ℕ)
perft_loop visit [] b nodes = ok (b, nodes)
perft_loop visit (m ∷ ms) b nodes = do
  (made, undo) ← make_move b m
  (after, below) ← visit made
  perft_loop visit ms (unmake_move after m undo) ((nodes + below) % word)

unfoldable pub perft : ℕ → Board → Result (Board × ℕ)
perft zero b = ok (b, 1)
perft (suc depth) b = do (after, moves) ← legal_moves b; perft_loop (perft depth) moves after 0

pub record PerftStats : Type 0 where
  pub nodes : ℕ
  pub captures : ℕ
  pub en_passant : ℕ
  pub castles : ℕ
  pub promotions : ℕ
  pub checks : ℕ
  pub checkmates : ℕ

abbrev pub no_stats : PerftStats
no_stats = record {
  nodes = 0;
  captures = 0;
  en_passant = 0;
  castles = 0;
  promotions = 0;
  checks = 0;
  checkmates = 0;
}

-- `std::uint64_t` addition.
abbrev pub add64 : ℕ → ℕ → ℕ
add64 a b = (a + b) % word

unfoldable pub bump : Bool → ℕ → ℕ
bump test n = if test then add64 n 1 else n

unfoldable pub add_stats : PerftStats → PerftStats → PerftStats
add_stats r c = record {
  nodes = add64 r.nodes c.nodes;
  captures = add64 r.captures c.captures;
  en_passant = add64 r.en_passant c.en_passant;
  castles = add64 r.castles c.castles;
  promotions = add64 r.promotions c.promotions;
  checks = add64 r.checks c.checks;
  checkmates = add64 r.checkmates c.checkmates;
}

-- What a move adds at the last depth but the checks.
unfoldable pub count_move : PerftStats → Move → PerftStats
count_move r m = record r {
  nodes = add64 r.nodes 1;
  captures = bump (has m MoveFlag.capture) r.captures;
  en_passant = bump (has m MoveFlag.en_passant) r.en_passant;
  castles = bump (has m MoveFlag.king_castle || has m MoveFlag.queen_castle) r.castles;
  promotions = bump (has m MoveFlag.promotion) r.promotions;
}

abbrev pub is_nil : List Move → Bool
is_nil [] = true
is_nil (m ∷ ms) = false

-- The checks and mates at the last depth; only here are the replies generated.
unfoldable pub count_check : PerftStats → Board → Result (Board × PerftStats)
count_check r b =
    if in_check b b.side_to_move
    then (do
      (after, replies) ← legal_moves b
      ok (
        after,
        record r { checks = add64 r.checks 1; checkmates = bump (is_nil replies) r.checkmates },
      ))
    else ok (b, r)

unfoldable pub stats_leaf : PerftStats → Move → Board → Result (Board × PerftStats)
stats_leaf r m made = count_check (count_move r m) made

-- The loop of `perft_stats`; `visit` is the body of the branch on the depth.
unfoldable pub stats_loop :
    (PerftStats → Move → Board → Result (Board × PerftStats))
    → List Move
    → Board
    → PerftStats
    → Result (Board × PerftStats)
stats_loop visit [] b r = ok (b, r)
stats_loop visit (m ∷ ms) b r = do
  (made, undo) ← make_move b m
  (after, r') ← visit r m made
  stats_loop visit ms (unmake_move after m undo) r'

-- `else` branch: add the counts of the child.
unfoldable pub stats_node :
    (Board → Result (Board × PerftStats)) → PerftStats → Move → Board → Result (Board × PerftStats)
stats_node child r m made = do (after, c) ← child made; ok (after, add_stats r c)

unfoldable pub perft_stats : ℕ → Board → Result (Board × PerftStats)
perft_stats zero b = ok (b, record no_stats { nodes = 1 })
perft_stats (suc zero) b = do
  (after, moves) ← legal_moves b
  stats_loop stats_leaf moves after no_stats
perft_stats (suc (suc depth)) b = do
  (after, moves) ← legal_moves b
  stats_loop (stats_node (perft_stats (suc depth))) moves after no_stats
