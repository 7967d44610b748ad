-- ===== src/Chess/Legal/Restored.antt =====
-- Each pseudo-legal move of a well-formed position is accepted, leads to a well-formed position, and is
-- taken back exactly.
use plywise.Chess.Board.{Board, Move, Undo}
use plywise.Chess.Make.Keeps.{moved-IsWellFormed}
use plywise.Chess.Make.Restore.{make_move-ok, unmake-moved}
use plywise.Chess.Make.{make_move, unmake_move, moved, record_hash, undo_of}
use plywise.Chess.Moves.Shapes.{pseudo_legal_moves-Fits}
use plywise.Chess.Moves.Steps.{Fits}
use plywise.Chess.Moves.{pseudo_legal_moves}
use plywise.Chess.Shape.{IsWellFormed}
use plywise.Errors.{ok}
use plywise.Prelude.{◌≡◌, List, [], ◌∷◌, All}

-- The move is accepted, what it leads to is well-formed, and taking it back gives the board.
abbrev pub IsRestored : Board → Move → Type 0
IsRestored b m =
    (made : Board) × (undo : Undo) × (make_move b m ≡ ok (made, undo))
    × IsWellFormed made
    × (unmake_move made m undo ≡ b)

All-map : (P Q : Move → Type 0) (ms : List Move) → ((m : Move) → P m → Q m) → All P ms → All Q ms
All-map P Q [] f h = tt
All-map P Q (m ∷ ms) f h = (f m h.0, All-map P Q ms f h.1)

-- On a well-formed position, `make_move` accepts every pseudo-legal move; the position after it is
-- well-formed, and `unmake_move` gives back the board it was made on, in every field.
pub pseudo_legal_moves-IsRestored :
    (b : Board) → IsWellFormed b → All (IsRestored b) (pseudo_legal_moves b)
pseudo_legal_moves-IsRestored b w =
    All-map (Fits b) (IsRestored b) (pseudo_legal_moves b)
      (λ m f. (
        record_hash (moved b m),
        undo_of b m,
        make_move-ok b m f.0,
        moved-IsWellFormed b m w f.0 f.1,
        unmake-moved b m w f.0 f.1,
      ))
      (pseudo_legal_moves-Fits b w)
