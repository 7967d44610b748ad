-- ===== src/Chess/Uci.antt =====
-- A move in the notation of the engines: `uci` of src/chess/board.cpp.
use plywise.Chess.Board.{Move, has}
use plywise.Chess.MoveFlag
use plywise.Chess.Piece.{
  PieceType, white, black, none, pawn, knight, bishop, rook, queen, king, piece_symbol,
  piece_from_symbol, to_lower, type_eq, type_index, is_upper, to_upper,
}
use plywise.Chess.Square.{Text, square_name, parse_square}
use plywise.Chess.Square.Names.{parse_square-square_name}
use plywise.Errors.{Result, ok, ◌>>=◌}
use plywise.Prelude.{
  ℕ, ◌<◌, ◌≡◌, ◌⊎◌, inl, inr, refl, false, [], ◌∷◌, ◌++◌, if◌then◌else◌, Bool-cases,
}

unfoldable pub promotion_text : Move → Text
promotion_text m =
    if has m MoveFlag.promotion
    then to_lower (piece_symbol (record { color = white; type = m.promotion })) ∷ []
    else []

unfoldable pub uci : Move → Result Text
uci m = do
  from_name ← square_name m.from
  to_name ← square_name m.to
  ok (from_name ++ to_name ++ promotion_text m)

pub promotion-lower :
    (t : PieceType)
    → type_eq t none ≡ false
    → piece_from_symbol (to_lower (piece_symbol (record { color = white; type = t })))
      ≡ record { color = black; type = t }
unfolding piece_from_symbol to_lower piece_symbol type_index type_eq is_upper to_upper
promotion-lower pawn h = refl
promotion-lower knight h = refl
promotion-lower bishop h = refl
promotion-lower rook h = refl
promotion-lower queen h = refl
promotion-lower king h = refl
promotion-lower none h = cc

-- No symbol for a move that does not promote, else the symbol of the piece, in lower case.
abbrev pub IsPromotionText : Move → Text → Type 0
IsPromotionText m text =
    ((has m MoveFlag.promotion ≡ false) × (text ≡ []))
    ⊎ ((symbol : ℕ) × (text ≡ symbol ∷ [])
        × ((type_eq m.promotion none ≡ false)
            → piece_from_symbol symbol ≡ record { color = black; type = m.promotion }))

promotion_text-IsPromotionText : (m : Move) → IsPromotionText m (promotion_text m)
unfolding promotion_text
promotion_text-IsPromotionText m = elim (Bool-cases (has m MoveFlag.promotion)) [
  | inl promotes ↦ inr (
    to_lower (piece_symbol (record { color = white; type = m.promotion })),
    rw promotes refl,
    promotion-lower m.promotion,
  )
  | inr not_so ↦ inl (not_so, rw not_so refl)
]

-- A move between squares of the board has a notation: the names of its two squares, which are read back
-- as those squares, and then nothing, or for a promotion to a piece the symbol of that piece as a black
-- one.
pub uci-squares :
    (m : Move)
    → m.from < 64
    → m.to < 64
    → (from_name : Text) × (to_name : Text) × (uci m
        ≡ ok (from_name ++ to_name ++ promotion_text m))
      × (parse_square from_name ≡ ok m.from)
      × (parse_square to_name ≡ ok m.to)
      × IsPromotionText m (promotion_text m)
unfolding uci
uci-squares m h k =
    let (from_name, e, f) = parse_square-square_name m.from h in
    let (to_name, g, r) = parse_square-square_name m.to k in
    (from_name, to_name, rw (e, g) refl, f, r, promotion_text-IsPromotionText m)
