-- ===== src/Examples/Chess.antt =====
-- The chess core: tests, and the theorems at concrete positions.
use plywise.Chess.Board.{Move, has, king_square, king_from, read}
use plywise.Chess.Fen.Accepts.{IsParsed, from_fen-IsParsed}
use plywise.Chess.Fen.RoundTrip.{from_fen-to_fen, from_fen-to_fen-from_fen, IsPrintable}
use plywise.Chess.Fen.{from_fen, to_fen, has_kings, with_hash}
use plywise.Chess.Legal.Filter.{legal_moves-safe_moves, safe_moves}
use plywise.Chess.Legal.Find.{find_legal_move-FirstAsked, FirstAsked}
use plywise.Chess.Legal.Perft.{perft-leaf_count, leaf_count, legal_list}
use plywise.Chess.Legal.Restored.{pseudo_legal_moves-IsRestored, IsRestored}
use plywise.Chess.Legal.Stats.{perft_stats-line_stats, line_stats, wrap}
use plywise.Chess.Legal.{legal_moves, find_legal_move, perft, perft_stats}
use plywise.Chess.Make.Loses.{unmake_move_loses}
use plywise.Chess.Make.Rights.{rights_after-right, holds_right}
use plywise.Chess.Make.{make_move, unmake_move, rights_after, moved, record_hash, undo_of, behind}
use plywise.Chess.Material.Counts.{count_pieces, material-weighed}
use plywise.Chess.Material.{material}
use plywise.Chess.Moves.{pseudo_legal_moves, mk_move}
use plywise.Chess.Piece.{
  white, black, none, pawn, knight, bishop, rook, queen, king, no_piece, is_empty, color_eq,
  piece_eq, type_eq, type_index,
}
use plywise.Chess.Shape.{IsMover}
use plywise.Chess.Square.{Text}
use plywise.Errors.{ok}
use plywise.Examples.Positions.{
  b, start, start-IsWellFormed, lost, passed, passed_fen, passed-from_fen, passed-IsWellFormed,
}
use plywise.Prelude.{
  ◌+◌, ◌*◌, ◌%◌, ◌<◌, ◌≡◌, ◌≢◌, refl, true, not, ◌&&◌, ◌||◌, arith, All, get_or, Option, ◌==◌,
}

legal_moves-safe_moves_example :
    legal_moves passed ≡ ok (passed, safe_moves passed (pseudo_legal_moves passed))
legal_moves-safe_moves_example = legal_moves-safe_moves passed passed-IsWellFormed

pseudo_legal_moves-IsRestored_example : All (IsRestored passed) (pseudo_legal_moves passed)
pseudo_legal_moves-IsRestored_example = pseudo_legal_moves-IsRestored passed passed-IsWellFormed

perft-leaf_count_example : perft 3 start ≡ ok (start, leaf_count 3 start % 18446744073709551616)
perft-leaf_count_example = perft-leaf_count 3 start start-IsWellFormed

perft_stats-line_stats_example : perft_stats 2 passed ≡ ok (passed, wrap (line_stats 2 passed))
perft_stats-line_stats_example = perft_stats-line_stats 2 passed passed-IsWellFormed

find_legal_move-FirstAsked_example :
    (found : Option Move) × (find_legal_move passed 27 20 queen ≡ ok (passed, found))
    × FirstAsked 27 20 queen (legal_list passed) found
find_legal_move-FirstAsked_example =
    find_legal_move-FirstAsked passed 27 20 queen passed-IsWellFormed

from_fen-IsParsed_example : IsParsed passed
from_fen-IsParsed_example = from_fen-IsParsed passed_fen passed-from_fen

from_fen-to_fen-from_fen_example :
    (text : Text) × (to_fen passed ≡ ok text) × (from_fen text ≡ ok passed)
from_fen-to_fen-from_fen_example = from_fen-to_fen-from_fen passed_fen passed-from_fen

passed-IsPrintable : IsPrintable passed
unfolding has_kings king_square king_from piece_eq color_eq type_eq type_index
passed-IsPrintable =
    let p = from_fen-IsParsed passed_fen passed-from_fen in
    record {
      size = p.size;
      canonical = p.canonical;
      kings = refl;
      rights = p.rights;
      target = p.target;
      halfmove = p.halfmove;
      fullmove = p.fullmove;
    }

from_fen-to_fen_example :
    (fen : Text) × (to_fen passed ≡ ok fen) × (from_fen fen ≡ ok (with_hash passed))
from_fen-to_fen_example = from_fen-to_fen passed passed-IsPrintable

-- White's king rook is taken on h1.
rights_after-right_example :
    (rights_after (mk_move 31 7 none 1) (b queen) 15 < 16)
    × (holds_right (rights_after (mk_move 31 7 none 1) (b queen) 15) 1 ≡ (
        holds_right 15 1
        && not (type_eq queen king && color_eq black white)
        && not (31 == 7 || 7 == 7)))
rights_after-right_example =
    rights_after-right (mk_move 31 7 none 1) (b queen) white true 15 (omega arith)

-- The pawn on c3 captures the knight of its own side on d4.
abbrev losing : Move
losing = mk_move 18 27 none 17

losing-IsMover : IsMover lost losing
unfolding get_or is_empty type_index color_eq
losing-IsMover = record { from_on = omega arith; to_on = omega arith; held = refl; own = refl }

unmake_move_loses_example :
    (make_move lost losing ≡ ok (record_hash (moved lost losing), undo_of lost losing))
    × (read (unmake_move (record_hash (moved lost losing)) losing (undo_of lost losing)).squares 27
        ≡ no_piece)
    × (unmake_move (record_hash (moved lost losing)) losing (undo_of lost losing) ≢ lost)
unfolding has get_or is_empty type_index behind
unmake_move_loses_example =
    unmake_move_loses lost losing refl losing-IsMover refl (refl, refl) refl refl

material-weighed_example :
    material start white
    ≡ 100 * count_pieces white pawn start.squares
      + 320 * count_pieces white knight start.squares
      + 330 * count_pieces white bishop start.squares
      + 500 * count_pieces white rook start.squares
      + 900 * count_pieces white queen start.squares
material-weighed_example = material-weighed start white
