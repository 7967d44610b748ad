-- ===== src/Chess/Piece/Symbols.antt =====
-- The symbols of pieces.
use plywise.Chess.Piece.{
  Color, white, black, Piece, PieceType, none, pawn, knight, bishop, rook, queen, king, is_empty,
  piece_symbol, piece_from_symbol, type_index,
}
use plywise.Prelude.{ℕ, ◌≡◌, refl, false, arith}

-- The symbol of a piece, which is not the empty one, is read back as that piece.
pub piece_from_symbol-piece_symbol :
    (p : Piece) → is_empty p ≡ false → piece_from_symbol (piece_symbol p) ≡ p
unfolding piece_symbol piece_from_symbol is_empty type_index
piece_from_symbol-piece_symbol p h = by_cases p.color p.type h
  where
    by_cases :
        (c : Color) (t : PieceType)
        → is_empty (record { color = c; type = t }) ≡ false
        → piece_from_symbol (piece_symbol (record { color = c; type = t }))
          ≡ record { color = c; type = t }
    by_cases white pawn h = refl
    by_cases white knight h = refl
    by_cases white bishop h = refl
    by_cases white rook h = refl
    by_cases white queen h = refl
    by_cases white king h = refl
    by_cases black pawn h = refl
    by_cases black knight h = refl
    by_cases black bishop h = refl
    by_cases black rook h = refl
    by_cases black queen h = refl
    by_cases black king h = refl
    by_cases white none h = cc
    by_cases black none h = cc

-- A character that is read as a piece is that piece's symbol.
pub piece_symbol-piece_from_symbol :
    (c : ℕ) → is_empty (piece_from_symbol c) ≡ false → piece_symbol (piece_from_symbol c) ≡ c
unfolding piece_symbol piece_from_symbol is_empty type_index
piece_symbol-piece_from_symbol c h = ground arith
