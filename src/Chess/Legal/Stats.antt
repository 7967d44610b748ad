-- ===== src/Chess/Legal/Stats.antt =====
-- `perft_stats` counts, among the lines of legal moves, those whose last move captures, castles,
-- promotes, gives check or mates.
use plywise.Chess.Attack.{in_check}
use plywise.Chess.Board.{Board, Move, has}
use plywise.Chess.Hash.{word}
use plywise.Chess.Legal.{
  perft, PerftStats, no_stats, add64, bump, add_stats, count_move, count_check, is_nil, stats_leaf,
  stats_loop, stats_node, perft_stats,
}
use plywise.Chess.Legal.Filter.{after_move, legal_moves-safe_moves}
use plywise.Chess.Legal.Perft.{legal_list, legal_list-Fits, leaf_count, sum_after, perft-leaf_count}
use plywise.Chess.Make.Keeps.{moved-IsWellFormed}
use plywise.Chess.Make.Restore.{make_move-ok, unmake-moved}
use plywise.Chess.MoveFlag
use plywise.Chess.Moves.Steps.{Fits}
use plywise.Chess.Shape.{IsWellFormed}
use plywise.Errors.{Result, ok}
use plywise.Prelude.{
  ℕ, zero, suc, ◌+◌, ◌%◌, Bool, true, false, ◌&&◌, ◌||◌, ◌≡◌, refl, List, [], ◌∷◌, arith, All,
  if◌then◌else◌, ◌∙◌, ap, sym, inl, inr, Bool-cases,
}

-- Counts without the wrap to 64 bits.
pub plus_stats : PerftStats → PerftStats → PerftStats
plus_stats r c = record {
  nodes = r.nodes + c.nodes;
  captures = r.captures + c.captures;
  en_passant = r.en_passant + c.en_passant;
  castles = r.castles + c.castles;
  promotions = r.promotions + c.promotions;
  checks = r.checks + c.checks;
  checkmates = r.checkmates + c.checkmates;
}

pub wrap : PerftStats → PerftStats
wrap r = record {
  nodes = r.nodes % word;
  captures = r.captures % word;
  en_passant = r.en_passant % word;
  castles = r.castles % word;
  promotions = r.promotions % word;
  checks = r.checks % word;
  checkmates = r.checkmates % word;
}

abbrev one_if : Bool → ℕ
one_if test = if test then 1 else 0

-- What one last move counts for, from the move and the position that it leads to.
pub leaf_stats : Move → Board → PerftStats
leaf_stats m after = record {
  nodes = 1;
  captures = one_if (has m MoveFlag.capture);
  en_passant = one_if (has m MoveFlag.en_passant);
  castles = one_if (has m MoveFlag.king_castle || has m MoveFlag.queen_castle);
  promotions = one_if (has m MoveFlag.promotion);
  checks = one_if (in_check after after.side_to_move);
  checkmates = one_if (in_check after after.side_to_move && is_nil (legal_list after));
}

pub sum_stats : (Move → PerftStats) → List Move → PerftStats
sum_stats f [] = no_stats
sum_stats f (m ∷ ms) = plus_stats (f m) (sum_stats f ms)

-- The counts over all lines of this many legal moves.
pub line_stats : ℕ → Board → PerftStats
line_stats zero b = record no_stats { nodes = 1 }
line_stats (suc zero) b = sum_stats (λ m. leaf_stats m (after_move b m)) (legal_list b)
line_stats (suc (suc depth)) b =
    sum_stats (λ m. line_stats (suc depth) (after_move b m)) (legal_list b)

add_stats-wrap : (r c : PerftStats) → add_stats (wrap r) (wrap c) ≡ wrap (plus_stats r c)
unfolding add_stats wrap plus_stats
add_stats-wrap r c = ground arith

plus_assoc : (r c d : PerftStats) → plus_stats (plus_stats r c) d ≡ plus_stats r (plus_stats c d)
unfolding plus_stats
plus_assoc r c d = ground arith

plus-no_stats : (r : PerftStats) → plus_stats r no_stats ≡ r
unfolding plus_stats
plus-no_stats r = ground arith

no_stats-plus : (r : PerftStats) → plus_stats no_stats r ≡ r
unfolding plus_stats
no_stats-plus r = ground arith

module _ (b : Board) (w : IsWellFormed b)
    (visit : PerftStats → Move → Board → Result (Board × PerftStats)) (f : Move → PerftStats)
    (visits : (r : PerftStats) (m : Move)
      → Fits b m
      → visit (wrap r) m (after_move b m) ≡ ok (after_move b m, wrap (plus_stats r (f m)))) where
  stats_loop-sum_stats :
      (ms : List Move) (r : PerftStats)
      → All (Fits b) ms
      → stats_loop visit ms b (wrap r) ≡ ok (b, wrap (plus_stats r (sum_stats f ms)))
  unfolding stats_loop sum_stats
  stats_loop-sum_stats [] r h = rw (plus-no_stats r)
  stats_loop-sum_stats (m ∷ ms) r (fits, h) =
      rw (make_move-ok b m fits.0, visits r m fits, unmake-moved b m w fits.0 fits.1)
        (stats_loop-sum_stats ms (plus_stats r (f m)) h
          ∙ ap (λ s. ok (b, wrap s)) (plus_assoc r (f m) (sum_stats f ms)))

bump-wrap : (t : Bool) (n : ℕ) → bump t (n % word) ≡ (n + one_if t) % word
unfolding bump
bump-wrap true n = omega arith
bump-wrap false n = omega arith

add64-wrap : (n k : ℕ) → add64 (n % word) k ≡ (n + k) % word
add64-wrap n k = omega arith

wrap_zero : (n : ℕ) → n % word ≡ (n + 0) % word
wrap_zero n = omega arith

count_move-wrap :
    (r : PerftStats) (m : Move) (c : Board)
    → in_check c c.side_to_move ≡ false
    → count_move (wrap r) m ≡ wrap (plus_stats r (leaf_stats m c))
unfolding count_move wrap plus_stats leaf_stats
count_move-wrap r m c e = rw e λ i. record {
  nodes = add64-wrap r.nodes 1 i;
  captures = bump-wrap (has m MoveFlag.capture) r.captures i;
  en_passant = bump-wrap (has m MoveFlag.en_passant) r.en_passant i;
  castles = bump-wrap (has m MoveFlag.king_castle || has m MoveFlag.queen_castle) r.castles i;
  promotions = bump-wrap (has m MoveFlag.promotion) r.promotions i;
  checks = wrap_zero r.checks i;
  checkmates = wrap_zero r.checkmates i;
}

count_check-wrap :
    (r : PerftStats) (m : Move) (c : Board)
    → in_check c c.side_to_move ≡ true
    → record (count_move (wrap r) m) {
      checks = add64 (count_move (wrap r) m).checks 1;
      checkmates = bump (is_nil (legal_list c)) (count_move (wrap r) m).checkmates;
    }
      ≡ wrap (plus_stats r (leaf_stats m c))
unfolding count_move wrap plus_stats leaf_stats
count_check-wrap r m c e = rw e λ i. record {
  nodes = add64-wrap r.nodes 1 i;
  captures = bump-wrap (has m MoveFlag.capture) r.captures i;
  en_passant = bump-wrap (has m MoveFlag.en_passant) r.en_passant i;
  castles = bump-wrap (has m MoveFlag.king_castle || has m MoveFlag.queen_castle) r.castles i;
  promotions = bump-wrap (has m MoveFlag.promotion) r.promotions i;
  checks = add64-wrap r.checks 1 i;
  checkmates = bump-wrap (is_nil (legal_list c)) r.checkmates i;
}

stats_leaf-leaf_stats :
    (r : PerftStats) (m : Move) (c : Board)
    → IsWellFormed c
    → stats_leaf (wrap r) m c ≡ ok (c, wrap (plus_stats r (leaf_stats m c)))
unfolding stats_leaf count_check
stats_leaf-leaf_stats r m c w = elim (Bool-cases (in_check c c.side_to_move)) [
  | inl e ↦ rw (e, legal_moves-safe_moves c w) (ap (λ s. ok (c, s)) (count_check-wrap r m c e))
  | inr e ↦ rw e (ap (λ s. ok (c, s)) (count_move-wrap r m c e))
]

stats_node-line_stats :
    (child : Board → Result (Board × PerftStats)) (f : Board → PerftStats) (r : PerftStats)
    (m : Move) (c : Board)
    → child c ≡ ok (c, wrap (f c))
    → stats_node child (wrap r) m c ≡ ok (c, wrap (plus_stats r (f c)))
unfolding stats_node
stats_node-line_stats child f r m c e = rw (e, add_stats-wrap r (f c)) refl

wrap-no_stats : wrap no_stats ≡ no_stats
unfolding wrap
wrap-no_stats = refl

-- At any depth `perft_stats` throws nothing on a well-formed position and leaves the board as it was;
-- each counter is, modulo 2^64, the number of lines of that many legal moves whose last move captures,
-- captures en passant, castles, promotes, checks, or checks with no legal reply.
pub perft_stats-line_stats :
    (depth : ℕ) (b : Board)
    → IsWellFormed b
    → perft_stats depth b ≡ ok (b, wrap (line_stats depth b))
unfolding perft_stats line_stats
perft_stats-line_stats zero b w = unfold wrap in refl
perft_stats-line_stats (suc zero) b w = rw (legal_moves-safe_moves b w) (
    ap (stats_loop stats_leaf (legal_list b) b) (sym wrap-no_stats)
    ∙ stats_loop-sum_stats b w stats_leaf (λ m. leaf_stats m (after_move b m))
        (λ r m h. stats_leaf-leaf_stats r m (after_move b m) (moved-IsWellFormed b m w h.0 h.1))
        (legal_list b) no_stats (legal_list-Fits b w)
    ∙ ap (λ s. ok (b, wrap s)) (no_stats-plus _))
perft_stats-line_stats (suc (suc depth)) b w = rw (legal_moves-safe_moves b w) (
    ap (stats_loop child (legal_list b) b) (sym wrap-no_stats)
    ∙ stats_loop-sum_stats b w child (λ m. line_stats (suc depth) (after_move b m))
        (λ r m h.
          stats_node-line_stats (perft_stats (suc depth)) (line_stats (suc depth)) r m
            (after_move b m)
            (perft_stats-line_stats (suc depth) (after_move b m)
              (moved-IsWellFormed b m w h.0 h.1)))
        (legal_list b) no_stats (legal_list-Fits b w)
    ∙ ap (λ s. ok (b, wrap s)) (no_stats-plus _))
  where
    child : PerftStats → Move → Board → Result (Board × PerftStats)
    child = stats_node (perft_stats (suc depth))

nodes-sum_stats :
    (f : Move → PerftStats) (g : Board → ℕ) (b : Board) (ms : List Move)
    → ((m : Move) → (f m).nodes ≡ g (after_move b m))
    → (sum_stats f ms).nodes ≡ sum_after g b ms
unfolding sum_stats sum_after plus_stats
nodes-sum_stats f g b [] h = refl
nodes-sum_stats f g b (m ∷ ms) h = omega (arith, h m, nodes-sum_stats f g b ms h)

-- The two counters of lines agree.
pub nodes-line_stats : (depth : ℕ) (b : Board) → (line_stats depth b).nodes ≡ leaf_count depth b
unfolding line_stats leaf_count
nodes-line_stats zero b = refl
nodes-line_stats (suc zero) b =
    nodes-sum_stats _ (leaf_count 0) b (legal_list b) (λ m. unfold leaf_stats leaf_count in refl)
nodes-line_stats (suc (suc depth)) b =
    nodes-sum_stats _ (leaf_count (suc depth)) b (legal_list b)
      (λ m. nodes-line_stats (suc depth) (after_move b m))

-- On a well-formed position, `perft_stats` and `perft` return the same number of nodes.
pub perft-perft_stats :
    (depth : ℕ) (b : Board) (c : Board) (n : ℕ) (d : Board) (s : PerftStats)
    → IsWellFormed b
    → perft depth b ≡ ok (c, n)
    → perft_stats depth b ≡ ok (d, s)
    → s.nodes ≡ n
unfolding wrap
perft-perft_stats depth b c n d s w p q =
    ground (
      arith,
      perft-leaf_count depth b w,
      perft_stats-line_stats depth b w,
      nodes-line_stats depth b,
    )
