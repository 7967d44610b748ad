-- ===== src/Chess/Fen/RoundTrip.antt =====
-- `from_fen` reads back what `to_fen` writes.
use plywise.Chess.Board.{Board, read, king_square}
use plywise.Chess.Fen.Accepts.{IsParsed, from_fen-IsParsed}
use plywise.Chess.Fen.Placed.{parse_placement-show_ranks, show_ranks-IsWord}
use plywise.Chess.Fen.Words.{
  IsWord, split_onto-space, split_onto_end, decimal-IsWord, decimal-ne_nil, parse_uint-decimal,
}
use plywise.Chess.Fen.{
  is_space, finish_word, split_onto, split, parse_side, parse_rights, parse_target, is_dash,
  add_rights, parse_fields, finish_board, board_of_fields, with_hash, has_kings, from_fen,
  show_ranks, show_files, show_rights, show_right, show_target, show_side, decimal, to_fen,
}
use plywise.Chess.Attack.{holds}
use plywise.Chess.Hash.{compute_hash, hash_en_passant}
use plywise.Chess.Piece.{Color, white, black, Piece, is_empty, no_piece}
use plywise.Chess.Square.{Text, no_square, square_name, parse_square, make_square}
use plywise.Errors.{Result, ok, err}
use plywise.Prelude.{
  ℕ, ◌+◌, ◌/◌, ◌%◌, ◌<◌, ◌≡◌, ◌≢◌, ◌⊎◌, refl, Bool, true, false, not, ◌&&◌, List, [], ◌∷◌, ◌++◌,
  arith, ◌==◌, ap, sym, ◌∙◌, inl, inr, length, all_below, all_below_sound,
}

append-cons_ne_nil : (xs : Text) (c : ℕ) (ys : Text) → xs ++ (c ∷ ys) ≢ []
append-cons_ne_nil [] c ys e = cc
append-cons_ne_nil (x ∷ xs) c ys e = cc

finish_word-ne_nil : (w : Text) (ws : List Text) → w ≢ [] → finish_word w ws ≡ w ∷ ws
unfolding finish_word
finish_word-ne_nil [] ws n = absurd (n refl)
finish_word-ne_nil (c ∷ cs) ws n = refl

-- One field and the space behind it.
field_off :
    (w rest : Text) → IsWord w → w ≢ [] → split_onto [] (w ++ (32 ∷ rest)) ≡ w ∷ split_onto [] rest
field_off w rest h n = split_onto-space w [] rest h ∙ finish_word-ne_nil w _ n

-- What `from_fen` must be told about the castling field, for each of its sixteen texts.
all_words : Text → Bool
all_words [] = true
all_words (c ∷ cs) = not (is_space c) && all_words cs

all_words-IsWord : (t : Text) → all_words t ≡ true → IsWord t
unfolding all_words
all_words-IsWord [] h = tt
all_words-IsWord (c ∷ cs) h = (ground arith, all_words-IsWord cs (ground arith))

is_some_text : Text → Bool
is_some_text [] = false
is_some_text (c ∷ cs) = true

reads_number : ℕ → Result ℕ → Bool
reads_number n (ok m) = m == n
reads_number n (err e) = false

reads_number-eq : (n : ℕ) (r : Result ℕ) → reads_number n r ≡ true → r ≡ ok n
unfolding reads_number
reads_number-eq n (ok m) h = ground arith
reads_number-eq n (err e) h = absurd (cc)

rights_test : ℕ → Bool
rights_test r =
    all_words (show_rights r)
    && is_some_text (show_rights r)
    && reads_number r (parse_rights (show_rights r))

rights_table : all_below 16 rights_test ≡ true
unfolding all_below rights_test all_words is_some_text reads_number show_rights show_right
    parse_rights is_dash add_rights is_space
rights_table = refl

record RightsField (r : ℕ) : Type 0 where
  word : IsWord (show_rights r)
  some_text : show_rights r ≢ []
  back : parse_rights (show_rights r) ≡ ok r

rights_field : (r : ℕ) → r < 16 → RightsField r
unfolding rights_test is_some_text
rights_field r h = record {
  word = all_words-IsWord (show_rights r) (ground (arith, test));
  some_text = λ e. ground (arith, test, e);
  back = reads_number-eq r (parse_rights (show_rights r)) (ground (arith, test));
}
  where
    test : rights_test r ≡ true
    test = all_below_sound 16 rights_test r rights_table h

record TargetField (target : ℕ) : Type 0 where
  text : Text
  shown : show_target target ≡ ok text
  word : IsWord text
  some_text : text ≢ []
  back : parse_target text ≡ ok target

target_field : (target : ℕ) → (target ≡ no_square) ⊎ (target < 64) → TargetField target
unfolding show_target parse_target is_dash is_space square_name parse_square make_square
target_field target (inl e) = record {
  text = b'-' ∷ [];
  shown = ground arith;
  word = (refl, tt);
  some_text = λ e. cc;
  back = ground arith;
}
target_field target (inr h) = record {
  text = (b'a' + target % 8) ∷ (b'1' + target / 8) ∷ [];
  shown = ground arith;
  word = (ground arith, (ground arith, tt));
  some_text = λ e. cc;
  back = ground arith;
}

-- What `to_fen` needs of a board for its text to be read back.
pub record IsPrintable (b : Board) : Type 0 where
  pub size : length b.squares ≡ 64
  pub canonical : (i : ℕ) → is_empty (read b.squares i) ≡ true → read b.squares i ≡ no_piece
  pub kings : has_kings b ≡ true
  pub rights : b.castling_rights < 16
  pub target : (b.en_passant ≡ no_square) ⊎ (b.en_passant < 64)
  pub halfmove : b.halfmove_clock < 65536
  pub fullmove : (0 < b.fullmove_number) × (b.fullmove_number < 65536)

show_ranks-ne_nil : (xs : List Piece) → show_ranks 7 xs ≢ []
unfolding show_ranks
show_ranks-ne_nil xs = append-cons_ne_nil (show_files 8 xs 7 0 0) b'/' (show_ranks 6 xs)

side_field :
    (c : Color) → IsWord (show_side c) × (show_side c ≢ []) × (parse_side (show_side c) ≡ ok c)
unfolding show_side parse_side is_space
side_field white = ((refl, tt), (λ e. cc), refl)
side_field black = ((refl, tt), (λ e. cc), refl)

-- Six texts with a space between each two.
abbrev joined : Text → Text → Text → Text → Text → Text → Text
joined f0 f1 f2 f3 f4 f5 =
    f0 ++ (32 ∷ (f1 ++ (32 ∷ (f2 ++ (32 ∷ (f3 ++ (32 ∷ (f4 ++ (32 ∷ f5)))))))))

-- The six words of a text made of six words with a space between each two.
split_fields :
    (f0 f1 f2 f3 f4 f5 : Text)
    → IsWord f0 × (f0 ≢ [])
    → IsWord f1 × (f1 ≢ [])
    → IsWord f2 × (f2 ≢ [])
    → IsWord f3 × (f3 ≢ [])
    → IsWord f4 × (f4 ≢ [])
    → IsWord f5 × (f5 ≢ [])
    → split (joined f0 f1 f2 f3 f4 f5) ≡ f0 ∷ f1 ∷ f2 ∷ f3 ∷ f4 ∷ f5 ∷ []
unfolding split
split_fields f0 f1 f2 f3 f4 f5 h0 h1 h2 h3 h4 h5 =
    field_off f0 _ h0.0 h0.1
    ∙ ap (◌∷◌ f0) (
        field_off f1 _ h1.0 h1.1
        ∙ ap (◌∷◌ f1) (
            field_off f2 _ h2.0 h2.1
            ∙ ap (◌∷◌ f2) (
                field_off f3 _ h3.0 h3.1
                ∙ ap (◌∷◌ f3) (
                    field_off f4 _ h4.0 h4.1
                    ∙ ap (◌∷◌ f4) (split_onto_end f5 [] h5.0 ∙ finish_word-ne_nil f5 [] h5.1)))))

has_kings-fields :
    (b : Board)
    → has_kings (
        board_of_fields b.squares b.side_to_move b.castling_rights b.en_passant b.halfmove_clock
          b.fullmove_number)
      ≡ has_kings b
unfolding has_kings board_of_fields king_square
has_kings-fields b = refl

fields_hash :
    (b : Board)
    → with_hash (
        board_of_fields b.squares b.side_to_move b.castling_rights b.en_passant b.halfmove_clock
          b.fullmove_number)
      ≡ with_hash b
unfolding with_hash board_of_fields compute_hash hash_en_passant holds
fields_hash b = refl

finish_fields :
    (b : Board)
    → has_kings b ≡ true
    → 0 < b.fullmove_number
    → finish_board (
        board_of_fields b.squares b.side_to_move b.castling_rights b.en_passant b.halfmove_clock
          b.fullmove_number)
      ≡ ok (with_hash b)
unfolding finish_board board_of_fields
finish_fields b k h = ground (arith, has_kings-fields b, fields_hash b)

-- A board with 64 squares, both kings and fields in range is written as a FEN without an error, and
-- `from_fen` reads that FEN as the same position, its hash computed and its history begun anew.
pub from_fen-to_fen :
    (b : Board)
    → IsPrintable b
    → (fen : Text) × (to_fen b ≡ ok fen) × (from_fen fen ≡ ok (with_hash b))
unfolding to_fen from_fen parse_fields
from_fen-to_fen b p =
    let target = target_field b.en_passant p.target in
    let rights = rights_field b.castling_rights p.rights in
    let side = side_field b.side_to_move in
    (
      joined (show_ranks 7 b.squares) (show_side b.side_to_move) (show_rights b.castling_rights)
          target.text (decimal b.halfmove_clock) (decimal b.fullmove_number),
      rw target.shown refl,
      rw
          (
            split_fields (show_ranks 7 b.squares) (show_side b.side_to_move)
                (show_rights b.castling_rights) target.text (decimal b.halfmove_clock)
                (decimal b.fullmove_number)
                (show_ranks-IsWord 7 b.squares, show_ranks-ne_nil b.squares) (side.0, side.1)
                (rights.word, rights.some_text) (target.word, target.some_text)
                (decimal-IsWord b.halfmove_clock, decimal-ne_nil b.halfmove_clock)
                (decimal-IsWord b.fullmove_number, decimal-ne_nil b.fullmove_number),
            parse_placement-show_ranks b.squares p.size p.canonical,
            side.2,
            rights.back,
            target.back,
            parse_uint-decimal b.halfmove_clock p.halfmove,
            parse_uint-decimal b.fullmove_number p.fullmove.1,
          )
          (finish_fields b p.kings p.fullmove.0),
    )

IsParsed-IsPrintable : (b : Board) → IsParsed b → IsPrintable b
unfolding has_kings
IsParsed-IsPrintable b p = record {
  size = p.size;
  canonical = p.canonical;
  kings = ground (arith, p.kings);
  rights = p.rights;
  target = p.target;
  halfmove = p.halfmove;
  fullmove = p.fullmove;
}

with_hash-IsParsed : (b : Board) → IsParsed b → with_hash b ≡ b
unfolding with_hash
with_hash-IsParsed b p = λ i. record b {
  hash = sym p.hashed i;
  repetition_history = (ap (λ h. h ∷ []) (sym p.hashed) ∙ sym p.history) i;
}

-- A board that was read from a FEN is written as a FEN without an error, and that FEN is read as the
-- same board, hash and history included.
pub from_fen-to_fen-from_fen :
    (fen : Text) {b : Board}
    → from_fen fen ≡ ok b
    → (text : Text) × (to_fen b ≡ ok text) × (from_fen text ≡ ok b)
from_fen-to_fen-from_fen fen {b} h =
    let p = from_fen-IsParsed fen h in
    let (text, shown, back) = from_fen-to_fen b (IsParsed-IsPrintable b p) in
    (text, shown, back ∙ ap ok (with_hash-IsParsed b p))
