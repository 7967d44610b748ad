-- ===== src/Chess/Fen/Placed.antt =====
-- The placement field: reading what `to_fen` writes gives the squares back.
use plywise.Chess.Board.{read}
use plywise.Chess.Fen.{
  Placement, place_symbol, place, parse_placement, empty_squares, is_digit, show_empty, show_files,
  show_ranks, is_space,
}
use plywise.Chess.Fen.Words.{decimal_small, IsWord, decimal-IsWord}
use plywise.Chess.Make.RoundTrip.{read-set}
use plywise.Chess.Piece.{
  Color, white, black, Piece, PieceType, none, pawn, knight, bishop, rook, queen, king, is_empty,
  no_piece, piece_symbol,
}
use plywise.Chess.Piece.Symbols.{piece_from_symbol-piece_symbol}
use plywise.Chess.Square.{Text}
use plywise.Errors.{ok}
use plywise.Prelude.{
  ℕ, zero, suc, ◌+◌, ◌*◌, ◌<◌, ◌≤◌, ◌≡◌, refl, Bool, true, false, not, ◌&&◌, List, [], ◌∷◌, ◌++◌,
  arith, All-append, if◌then◌else◌, ltb, leb, ◌==◌, ap, sym, ◌∙◌, Bool-cases, inl, inr, length, set,
  length-set, list_ext, get_or,
}
use mathlib.Core.List.{append-nil, append_assoc}

-- A piece's symbol is a letter.
record IsLetter (c : ℕ) : Type 0 where
  no_slash : (c == b'/') ≡ false
  no_digit : is_digit c ≡ false
  no_space : is_space c ≡ false

piece_symbol-IsLetter : (p : Piece) → is_empty p ≡ false → IsLetter (piece_symbol p)
unfolding piece_symbol is_digit is_space is_empty
piece_symbol-IsLetter p h = by_cases p.color p.type h
  where
    by_cases :
        (c : Color) (t : PieceType)
        → is_empty (record { color = c; type = t }) ≡ false
        → IsLetter (piece_symbol (record { color = c; type = t }))
    by_cases white pawn h = record { no_slash = refl; no_digit = refl; no_space = refl }
    by_cases white knight h = record { no_slash = refl; no_digit = refl; no_space = refl }
    by_cases white bishop h = record { no_slash = refl; no_digit = refl; no_space = refl }
    by_cases white rook h = record { no_slash = refl; no_digit = refl; no_space = refl }
    by_cases white queen h = record { no_slash = refl; no_digit = refl; no_space = refl }
    by_cases white king h = record { no_slash = refl; no_digit = refl; no_space = refl }
    by_cases black pawn h = record { no_slash = refl; no_digit = refl; no_space = refl }
    by_cases black knight h = record { no_slash = refl; no_digit = refl; no_space = refl }
    by_cases black bishop h = record { no_slash = refl; no_digit = refl; no_space = refl }
    by_cases black rook h = record { no_slash = refl; no_digit = refl; no_space = refl }
    by_cases black queen h = record { no_slash = refl; no_digit = refl; no_space = refl }
    by_cases black king h = record { no_slash = refl; no_digit = refl; no_space = refl }
    by_cases white none h = absurd (cc)
    by_cases black none h = absurd (cc)

abbrev at_file : List Piece → ℕ → ℕ → Placement
at_file squares rank file = record { squares = squares; rank = rank; file = file }

place_piece :
    (xs : List Piece) (rank file : ℕ) (p : Piece) (rest : Text)
    → is_empty p ≡ false
    → file < 8
    → place (at_file xs rank file) (piece_symbol p ∷ rest)
      ≡ place (at_file (set xs (rank * 8 + file) p) rank (file + 1)) rest
unfolding place place_symbol
place_piece xs rank file p rest h k =
    let l = piece_symbol-IsLetter p h in
    rw (l.no_slash, l.no_digit, piece_from_symbol-piece_symbol p h, h) (ground arith)

place_empty :
    (xs : List Piece) (rank file empty : ℕ) (rest : Text)
    → file + empty ≤ 8
    → place (at_file xs rank file) (show_empty empty ++ rest)
      ≡ place (at_file xs rank (file + empty)) rest
unfolding place place_symbol is_digit show_empty
place_empty xs rank file empty rest h = elim (Bool-cases (empty == 0)) [
  | inl none' ↦ rw none' (ap (λ f. place (at_file xs rank f) rest) (ground arith))
  | inr some' ↦ rw (some', decimal_small empty (omega arith)) (ground arith)
]

-- The squares that a written row puts on a board, this many files to go.
fill_files : ℕ → List Piece → ℕ → ℕ → List Piece → List Piece
fill_files zero xs rank file ys = ys
fill_files (suc n) xs rank file ys =
    let p = read xs (rank * 8 + file) in
    fill_files n xs rank (file + 1) (if is_empty p then ys else set ys (rank * 8 + file) p)

fill_ranks : ℕ → List Piece → List Piece → List Piece
fill_ranks zero xs ys = fill_files 8 xs 0 0 ys
fill_ranks (suc rank) xs ys = fill_ranks rank xs (fill_files 8 xs (suc rank) 0 ys)

place-show_files :
    (n : ℕ) (xs : List Piece) (rank file empty start : ℕ) (ys : List Piece) (rest : Text)
    → file + n ≡ 8
    → start + empty ≡ file
    → place (at_file ys rank start) (show_files n xs rank file empty ++ rest)
      ≡ place (at_file (fill_files n xs rank file ys) rank 8) rest
unfolding show_files fill_files
place-show_files zero xs rank file empty start ys rest h e =
    place_empty ys rank start empty rest (omega arith)
    ∙ ap (λ f. place (at_file ys rank f) rest) (omega arith)
place-show_files (suc n) xs rank file empty start ys rest h e =
    elim (Bool-cases (is_empty (read xs (rank * 8 + file)))) [
      | inl free ↦ rw free (
          place-show_files n xs rank (file + 1) (empty + 1) start ys rest (omega arith)
            (omega arith))
      | inr held ↦
          rw (held, append_assoc)
            (place_empty ys rank start empty _ (omega arith)
              ∙ ap
                  (λ f. place (at_file ys rank f) (
                    piece_symbol (read xs (rank * 8 + file))
                    ∷ (show_files n xs rank (file + 1) 0 ++ rest)))
                  e
              ∙ place_piece ys rank file (read xs (rank * 8 + file)) _ held (omega arith)
              ∙ place-show_files n xs rank (file + 1) 0 (file + 1) _ rest (omega arith)
                  (omega arith))
    ]

place_slash :
    (ys : List Piece) (rank : ℕ) (rest : Text)
    → place (at_file ys (suc rank) 8) (b'/' ∷ rest) ≡ place (at_file ys rank 0) rest
unfolding place place_symbol
place_slash ys rank rest = ground arith

place-show_ranks :
    (rank : ℕ) (xs ys : List Piece)
    → place (at_file ys rank 0) (show_ranks rank xs) ≡ ok (at_file (fill_ranks rank xs ys) 0 8)
unfolding show_ranks fill_ranks
place-show_ranks zero xs ys =
    ap (place (at_file ys 0 0)) (sym (append-nil (show_files 8 xs 0 0 0)))
    ∙ place-show_files 8 xs 0 0 0 0 ys [] (omega arith) (omega arith)
    ∙ unfold place in refl
place-show_ranks (suc rank) xs ys =
    place-show_files 8 xs (suc rank) 0 0 0 ys (b'/' ∷ show_ranks rank xs) (omega arith)
      (omega arith)
    ∙ place_slash (fill_files 8 xs (suc rank) 0 ys) rank (show_ranks rank xs)
    ∙ place-show_ranks rank xs (fill_files 8 xs (suc rank) 0 ys)

length-fill_files :
    (n : ℕ) (xs : List Piece) (rank file : ℕ) (ys : List Piece)
    → length (fill_files n xs rank file ys) ≡ length ys
unfolding fill_files
length-fill_files zero xs rank file ys = refl
length-fill_files (suc n) xs rank file ys =
    length-fill_files n xs rank (file + 1) _
    ∙ ground (arith, length-set ys (rank * 8 + file) (read xs (rank * 8 + file)))

length-fill_ranks : (rank : ℕ) (xs ys : List Piece) → length (fill_ranks rank xs ys) ≡ length ys
unfolding fill_ranks
length-fill_ranks zero xs ys = length-fill_files 8 xs 0 0 ys
length-fill_ranks (suc rank) xs ys =
    length-fill_ranks rank xs _ ∙ length-fill_files 8 xs (suc rank) 0 ys

abbrev over : Bool → Piece → Piece → Piece
over here p q = if here && not (is_empty p) then p else q

read-fill_files :
    (n : ℕ) (xs : List Piece) (rank file : ℕ) (ys : List Piece) (j : ℕ)
    → length ys ≡ 64
    → rank * 8 + file + n ≤ 64
    → read (fill_files n xs rank file ys) j
      ≡ over (leb (rank * 8 + file) j && ltb j (rank * 8 + file + n)) (read xs j) (read ys j)
unfolding fill_files
read-fill_files zero xs rank file ys j s h = ground arith
read-fill_files (suc n) xs rank file ys j s h =
    elim (Bool-cases (is_empty (read xs (rank * 8 + file)))) [
      | inl free ↦
          rw free (read-fill_files n xs rank (file + 1) ys j s (omega arith) ∙ ground arith)
      | inr held ↦ rw held (
          read-fill_files n xs rank (file + 1) _ j (length-set ys _ _ ∙ s) (omega arith)
          ∙ ground (arith, read-set ys (rank * 8 + file) j (read xs (rank * 8 + file)) s))
    ]

read-fill_ranks :
    (rank : ℕ) (xs ys : List Piece) (j : ℕ)
    → length ys ≡ 64
    → rank < 8
    → read (fill_ranks rank xs ys) j ≡ over (ltb j (rank * 8 + 8)) (read xs j) (read ys j)
unfolding fill_ranks
read-fill_ranks zero xs ys j s h = read-fill_files 8 xs 0 0 ys j s (omega arith) ∙ ground arith
read-fill_ranks (suc rank) xs ys j s h =
    read-fill_ranks rank xs (fill_files 8 xs (suc rank) 0 ys) j
      (length-fill_files 8 xs (suc rank) 0 ys ∙ s) (omega arith)
    ∙ ground (arith, read-fill_files 8 xs (suc rank) 0 ys j s (omega arith))

read-empty_squares : (n i : ℕ) → read (empty_squares n) i ≡ no_piece
unfolding empty_squares get_or
read-empty_squares zero i = refl
read-empty_squares (suc n) zero = refl
read-empty_squares (suc n) (suc i) = read-empty_squares n i

length-empty_squares : (n : ℕ) → length (empty_squares n) ≡ n
unfolding empty_squares
length-empty_squares zero = refl
length-empty_squares (suc n) = ap suc (length-empty_squares n)

-- A blank board filled from all ranks is the board.
fill_blank :
    (xs : List Piece)
    → length xs ≡ 64
    → ((i : ℕ) → is_empty (read xs i) ≡ true → read xs i ≡ no_piece)
    → fill_ranks 7 xs (empty_squares 64) ≡ xs
fill_blank xs s k =
    list_ext no_piece _ xs (length-fill_ranks 7 xs _ ∙ length-empty_squares 64 ∙ sym s) λ i h.
      read-fill_ranks 7 xs (empty_squares 64) i (length-empty_squares 64) (omega arith)
      ∙ ground (
        arith,
        k i,
        read-empty_squares 64 i,
        length-fill_ranks 7 xs (empty_squares 64),
        length-empty_squares 64,
      )

-- 64 squares, the empty ones blank, are read back from the placement field.
pub parse_placement-show_ranks :
    (xs : List Piece)
    → length xs ≡ 64
    → ((i : ℕ) → is_empty (read xs i) ≡ true → read xs i ≡ no_piece)
    → parse_placement (show_ranks 7 xs) ≡ ok xs
unfolding parse_placement
parse_placement-show_ranks xs s k =
    rw (place-show_ranks 7 xs (empty_squares 64)) (ap ok (fill_blank xs s k))

show_empty-IsWord : (n : ℕ) → IsWord (show_empty n)
unfolding show_empty
show_empty-IsWord n = elim (Bool-cases (n == 0)) [
  | inl none' ↦ rw none' tt
  | inr some' ↦ rw some' (decimal-IsWord n)
]

show_files-IsWord :
    (n : ℕ) (xs : List Piece) (rank file empty : ℕ) → IsWord (show_files n xs rank file empty)
unfolding show_files
show_files-IsWord zero xs rank file empty = show_empty-IsWord empty
show_files-IsWord (suc n) xs rank file empty =
    elim (Bool-cases (is_empty (read xs (rank * 8 + file)))) [
      | inl free ↦ rw free (show_files-IsWord n xs rank (file + 1) (empty + 1))
      | inr held ↦ rw held (
          All-append _ (show_empty empty) _ (show_empty-IsWord empty) (
            (piece_symbol-IsLetter (read xs (rank * 8 + file)) held).no_space,
            show_files-IsWord n xs rank (file + 1) 0,
          ))
    ]

pub show_ranks-IsWord : (rank : ℕ) (xs : List Piece) → IsWord (show_ranks rank xs)
unfolding show_ranks is_space
show_ranks-IsWord zero xs = show_files-IsWord 8 xs 0 0 0
show_ranks-IsWord (suc rank) xs =
    All-append _ (show_files 8 xs (suc rank) 0 0) _ (show_files-IsWord 8 xs (suc rank) 0 0)
      (refl, show_ranks-IsWord rank xs)
