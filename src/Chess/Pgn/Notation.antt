-- ===== src/Chess/Pgn/Notation.antt =====
-- What the texts look like that `to_san` writes: no white space, no sign that PGN gives a meaning, and a
-- letter in front.
use plywise.Chess.Attack.{in_check}
use plywise.Chess.Board.{Board, Move, has, piece_at}
use plywise.Chess.Fen.{is_space}
use plywise.Chess.Legal.{legal_moves, is_nil}
use plywise.Chess.Make.{make_move}
use plywise.Chess.MoveFlag
use plywise.Chess.Piece.{
  Piece, PieceType, none, pawn, knight, bishop, rook, queen, king, is_empty, type_eq, type_index,
}
use plywise.Chess.San.{
  san_piece, origin, symbol_text, plain_text, san_body, check_sign, san_of_piece, to_san,
}
use plywise.Chess.Square.{Text, square_name}
use plywise.Errors.{ok, >>=-split}
use plywise.Prelude.{
  ◌≡◌, refl, subst, if-cases, true, false, [], ◌∷◌, ◌++◌, ◌==◌, All-append, if◌then◌else◌,
  Bool-cases, inl, inr, then_taken, else_taken,
}
use plywise.Chess.Pgn.Marks.{
  is_plain, is_letter, IsPlain, IsLed, AreLetters, IsPlain-append, IsLed-append, IsLed-append_left,
  IsName, square_name-IsName, name-IsPlain, name-IsLed, origin-IsPlain, text_injective,
}

san_piece-IsPlain : (t : PieceType) → is_plain (san_piece t) ≡ true
unfolding san_piece is_plain is_space
san_piece-IsPlain knight = refl
san_piece-IsPlain bishop = refl
san_piece-IsPlain rook = refl
san_piece-IsPlain queen = refl
san_piece-IsPlain king = refl
san_piece-IsPlain pawn = refl
san_piece-IsPlain none = refl

symbol-IsPlain : (t : PieceType) → IsPlain (symbol_text (san_piece t))
symbol-IsPlain t = if-cases IsPlain (san_piece t == 0) (λ e. tt) (λ e. (san_piece-IsPlain t, tt))

-- All pieces but pawns have a letter.
symbol-IsLed :
    (t : PieceType)
    → type_eq t none ≡ false
    → type_eq t pawn ≡ false
    → IsLed (symbol_text (san_piece t))
unfolding san_piece is_letter type_eq type_index
symbol-IsLed knight h k = refl
symbol-IsLed bishop h k = refl
symbol-IsLed rook h k = refl
symbol-IsLed queen h k = refl
symbol-IsLed king h k = refl
symbol-IsLed pawn h k = cc
symbol-IsLed none h k = cc

pawn_symbol : (t : PieceType) → type_eq t pawn ≡ true → symbol_text (san_piece t) ≡ []
unfolding san_piece type_eq type_index
pawn_symbol knight k = cc
pawn_symbol bishop k = cc
pawn_symbol rook k = cc
pawn_symbol queen k = cc
pawn_symbol king k = cc
pawn_symbol pawn k = refl
pawn_symbol none k = cc

-- A text that PGN takes for a move.
abbrev pub IsNotation : Text → Type 0
IsNotation text = IsPlain text × IsLed text

module _ (m : Move) (moving : Piece) (mark target : Text) (n : IsName target) where
  abbrev capture_sign : Text
  capture_sign = if has m MoveFlag.capture then b'x' ∷ [] else []

  capture-IsPlain : IsPlain capture_sign × AreLetters capture_sign
  unfolding is_plain is_letter is_space
  capture-IsPlain =
      if-cases (λ t. IsPlain t × AreLetters t) (has m MoveFlag.capture)
        (λ e. ((refl, tt), (refl, tt))) (λ e. (tt, tt))

  promotion-IsPlain :
      IsPlain (if has m MoveFlag.promotion then b'=' ∷ san_piece m.promotion ∷ [] else [])
  promotion-IsPlain =
      if-cases IsPlain (has m MoveFlag.promotion)
        (λ e. (unfold is_plain is_space in refl, (san_piece-IsPlain m.promotion, tt))) (λ e. tt)

  plain_text-IsNotation :
      type_eq moving.type none ≡ false
      → IsPlain mark
      → ((type_eq moving.type pawn ≡ true) → AreLetters mark)
      → IsNotation (plain_text m moving mark target)
  plain_text-IsNotation some' p letters = (
    IsPlain-append _ _
        (IsPlain-append _ target
          (IsPlain-append _ capture_sign (IsPlain-append _ mark (symbol-IsPlain moving.type) p)
            capture-IsPlain.0)
          (name-IsPlain n))
        promotion-IsPlain,
    elim (Bool-cases (type_eq moving.type pawn)) [
      | inl is_pawn ↦ rw (pawn_symbol moving.type is_pawn) (
          IsLed-append_left _ _ (
            IsLed-append (mark ++ capture_sign) target
              (All-append (λ c. is_letter c ≡ true) mark capture_sign (letters is_pawn)
                capture-IsPlain.1)
              (name-IsLed n)))
      | inr is_piece ↦ IsLed-append_left _ _ (
          IsLed-append_left _ target (
            IsLed-append_left _ capture_sign
              (IsLed-append_left _ mark (symbol-IsLed moving.type some' is_piece))))
    ],
  )

-- The text up to the check sign.
body-IsNotation :
    (b : Board) (m : Move) (moving : Piece) {after : Board} {text : Text}
    → is_empty moving ≡ false
    → san_body b m moving ≡ ok (after, text)
    → IsNotation text
unfolding san_body is_plain is_letter is_space is_empty
body-IsNotation b m moving {after} {text} held h = elim (Bool-cases (has m MoveFlag.king_castle)) [
  | inl short ↦
      subst IsNotation (text_injective (then_taken _ short h)) ((refl, (refl, (refl, tt))), refl)
  | inr not_short ↦ elim (Bool-cases (has m MoveFlag.queen_castle)) [
    | inl long ↦
        subst IsNotation (text_injective (then_taken _ long (else_taken _ not_short h)))
          ((refl, (refl, (refl, (refl, (refl, tt))))), refl)
    | inr not_long ↦
        >>=-split (origin b m moving) (else_taken _ not_long (else_taken _ not_short h))
          (λ found e k. >>=-split (square_name m.to) k (λ target e' k'.
            let (p, letters) = origin-IsPlain b m moving e in
            subst IsNotation (text_injective k') (
              plain_text-IsNotation m moving found.1 target (square_name-IsName m.to e') held p
                letters)))
  ]
]

sign-IsPlain :
    (made : Board) {after : Board} {sign : Text} → check_sign made ≡ ok (after, sign) → IsPlain sign
unfolding check_sign is_plain is_space
sign-IsPlain made h = elim (Bool-cases (in_check made made.side_to_move)) [
  | inl check ↦ >>=-split (legal_moves made) (then_taken _ check h) (λ found e k.
      subst IsPlain (text_injective k)
        (if-cases (λ c. IsPlain (c ∷ [])) (is_nil found.1) (λ e'. (refl, tt)) (λ e'. (refl, tt))))
  | inr calm ↦ subst IsPlain (text_injective (else_taken _ calm h)) tt
]

-- What `to_san` writes is free of white space, dots, brackets and semicolons, and begins with a letter.
pub to_san-IsNotation :
    (b : Board) (m : Move) {after : Board} {text : Text}
    → to_san b m ≡ ok (after, text)
    → IsNotation text
unfolding to_san san_of_piece
to_san-IsNotation b m h = >>=-split (piece_at b m.from) h (λ moving e k.
    elim (Bool-cases (is_empty moving)) [
      | inl nothing ↦ let refused = then_taken _ nothing k in cc
      | inr held ↦ >>=-split (san_body b m moving) (else_taken _ held k) (λ body e1 k1.
          >>=-split (make_move body.0 m) k1 (λ made e2 k2.
            >>=-split (check_sign made.0) k2 (λ sign e3 k3.
              let (plain, led) = body-IsNotation b m moving held e1 in
              subst IsNotation (text_injective k3) (
                IsPlain-append body.1 sign.1 plain (sign-IsPlain made.0 e3),
                IsLed-append_left body.1 sign.1 led,
              ))))
    ])
