-- ===== src/Chess/San/Named.antt =====
-- What `to_san` and `parse_san` do on a well-formed position.
use plywise.Chess.Attack.{in_check}
use plywise.Chess.Board.{Board, Move, has, piece_at, read}
use plywise.Chess.Legal.Filter.{after_move, legal_moves-safe_moves}
use plywise.Chess.Legal.Perft.{legal_list, legal_list-Fits}
use plywise.Chess.Make.Keeps.{moved-IsWellFormed}
use plywise.Chess.Make.Restore.{make_move-ok, unmake-moved}
use plywise.Chess.MoveFlag
use plywise.Chess.Moves.Steps.{Fits}
use plywise.Chess.Piece.{Piece, pawn, type_eq}
use plywise.Chess.San.{
  Ambiguity, no_ambiguity, note_rival, note_candidate, note_candidates, coordinates, disambiguation,
  origin, san_body, check_sign, to_san, san_of_piece, plain_text, sign_of, short_castle,
  long_castle,
}
use plywise.Chess.Shape.{IsWellFormed}
use plywise.Chess.Square.{Text, square_name}
use plywise.Errors.{Result, ok}
use plywise.Prelude.{
  ℕ, ◌<◌, ◌+◌, ◌%◌, ◌/◌, ◌≡◌, inl, inr, refl, false, List, [], ◌∷◌, ◌++◌, arith, All, Bool-cases,
  leb, not, ◌||◌, get_or, ◌==◌,
}

-- The call returns, and leaves the board as it was.
abbrev pub Writes : Board → Result (Board × Text) → Type 0
Writes b r = (text : Text) × (r ≡ ok (b, text))

pub named : (square : ℕ) → square < 64 → (name : Text) × (square_name square ≡ ok name)
unfolding square_name
named square h = ((b'a' + square % 8) ∷ (b'1' + square / 8) ∷ [], ground arith)

candidate_noted :
    (b : Board) (m : Move) (moving : Piece) (c : Move) (a : Ambiguity)
    → c.from < 64
    → (noted : Ambiguity) × (note_candidate b m moving c a ≡ ok noted)
unfolding note_candidate piece_at
candidate_noted b m moving c a h = elim (Bool-cases (c.from == m.from || not (c.to == m.to))) [
  | inl skipped ↦ (a, rw skipped refl)
  | inr met ↦ (note_rival m moving c (read b.squares c.from) a, ground arith)
]

candidates_noted :
    (b : Board) (m : Move) (moving : Piece) (ms : List Move) (a : Ambiguity)
    → All (Fits b) ms
    → (noted : Ambiguity) × (note_candidates b m moving ms a ≡ ok noted)
unfolding note_candidates
candidates_noted b m moving [] a h = (a, refl)
candidates_noted b m moving (c ∷ cs) a ((mover, shape), h) =
    let (x, e) = candidate_noted b m moving c a mover.from_on in
    let (noted, f) = candidates_noted b m moving cs x h in (noted, rw e f)

lt→leb : {square : ℕ} → square < 64 → leb 64 square ≡ false
lt→leb h = ground arith

module _ (b : Board) (w : IsWellFormed b) (m : Move) (f : Fits b m) where
  disambiguated : (a : Ambiguity) → (text : Text) × (disambiguation a m ≡ ok text)
  unfolding disambiguation
  disambiguated a =
      let (name, e) = named m.from (f.0).from_on in
      elim (Bool-cases a.conflict) [
        | inl yes' ↦ (coordinates a name, rw (yes', e) refl)
        | inr no' ↦ ([], rw no' refl)
      ]

  origin-Writes : (moving : Piece) → Writes b (origin b m moving)
  unfolding origin
  origin-Writes moving =
      let (name, e) = named m.from (f.0).from_on in
      let (a, noted) =
        candidates_noted b m moving (legal_list b) no_ambiguity (legal_list-Fits b w) in
      let (mark, d) = disambiguated a in
      elim (Bool-cases (type_eq moving.type pawn)) [
        | inl is_pawn ↦ elim (Bool-cases (has m MoveFlag.capture)) [
          | inl takes ↦ (get_or name 0 0 ∷ [], rw (is_pawn, takes, e) refl)
          | inr moves ↦ ([], rw (is_pawn, moves) refl)
        ]
        | inr is_piece ↦ (mark, rw (is_piece, legal_moves-safe_moves b w, noted, d) refl)
      ]

  body-Writes : (moving : Piece) → Writes b (san_body b m moving)
  unfolding san_body
  body-Writes moving =
      let (mark, o) = origin-Writes moving in
      let (target, e) = named m.to (f.0).to_on in
      elim (Bool-cases (has m MoveFlag.king_castle)) [
        | inl short ↦ (short_castle, rw short refl)
        | inr not_short ↦ elim (Bool-cases (has m MoveFlag.queen_castle)) [
          | inl long ↦ (long_castle, rw (not_short, long) refl)
          | inr not_long ↦ (plain_text m moving mark target, rw (not_short, not_long, o, e) refl)
        ]
      ]

  sign-Writes : Writes (after_move b m) (check_sign (after_move b m))
  unfolding check_sign
  sign-Writes = elim (Bool-cases (in_check (after_move b m) (after_move b m).side_to_move)) [
    | inl check ↦ (
      sign_of (legal_list (after_move b m)),
      rw (check, legal_moves-safe_moves (after_move b m) (moved-IsWellFormed b m w f.0 f.1)) refl,
    )
    | inr calm ↦ ([], rw calm refl)
  ]

  pub to_san-Writes : Writes b (to_san b m)
  unfolding to_san piece_at san_of_piece
  to_san-Writes =
      let (body, e) = body-Writes (read b.squares m.from) in
      let (sign, s) = sign-Writes in
      (
        body ++ sign,
        rw
            (
              lt→leb (f.0).from_on,
              (f.0).held,
              e,
              make_move-ok b m f.0,
              s,
              unmake-moved b m w f.0 f.1,
            )
            refl,
      )
