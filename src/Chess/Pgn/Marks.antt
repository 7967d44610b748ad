-- ===== src/Chess/Pgn/Marks.antt =====
-- What `to_san` writes in front of the target of a move: squares, and what tells a move from others.
use plywise.Chess.Board.{Board, Move, has}
use plywise.Chess.Fen.{is_space}
use plywise.Chess.Legal.{legal_moves}
use plywise.Chess.MoveFlag
use plywise.Chess.Piece.{Piece, pawn, type_eq}
use plywise.Chess.San.{
  Ambiguity, no_ambiguity, note_candidates, coordinates, disambiguation, origin,
}
use plywise.Chess.Square.{Text, square_name}
use plywise.Errors.{Result, ok, >>=-split}
use plywise.Prelude.{
  ℕ, ◌≡◌, refl, subst, sym, if-cases, ◌+◌, ◌/◌, ◌%◌, Bool, true, false, not, ◌&&◌, [], ◌∷◌, ◌++◌,
  ◌==◌, leb, arith, All, All-append, Bool-cases, inl, inr, then_taken, else_taken, get_or,
}

unfoldable pub is_plain : ℕ → Bool
is_plain c =
    not (is_space c)
    && not (c == b';')
    && not (c == b'{')
    && not (c == b'(')
    && not (c == b')')
    && not (c == b'.')

abbrev pub IsPlain : Text → Type 0
IsPlain = All (λ c. is_plain c ≡ true)

unfoldable pub is_letter : ℕ → Bool
is_letter c = leb b'A' c && leb c b'z'

abbrev pub IsLed : Text → Type 0
IsLed [] = ⊥
IsLed (c ∷ cs) = is_letter c ≡ true

abbrev pub AreLetters : Text → Type 0
AreLetters = All (λ c. is_letter c ≡ true)

pub IsLed-append : (xs ys : Text) → AreLetters xs → IsLed ys → IsLed (xs ++ ys)
IsLed-append [] ys h k = k
IsLed-append (c ∷ cs) ys h k = h.0

pub IsLed-append_left : (xs ys : Text) → IsLed xs → IsLed (xs ++ ys)
IsLed-append_left [] ys h = elim h [ ]
IsLed-append_left (c ∷ cs) ys h = h

pub IsPlain-append : (xs ys : Text) → IsPlain xs → IsPlain ys → IsPlain (xs ++ ys)
IsPlain-append = All-append (λ c. is_plain c ≡ true)

-- A file's letter and a rank's digit.
abbrev pub IsName : Text → Type 0
IsName name =
    (f r : ℕ) × (name ≡ f ∷ r ∷ [])
    × (is_letter f ≡ true)
    × (is_plain f ≡ true)
    × (is_plain r ≡ true)

ok_injective : {s t : Text} → ok s ≡ ok t → s ≡ t
ok_injective e = cc

pub square_name-IsName : (square : ℕ) {name : Text} → square_name square ≡ ok name → IsName name
unfolding square_name is_letter is_plain is_space
square_name-IsName square {name} h = elim (Bool-cases (leb 64 square)) [
  | inl off ↦ let k = then_taken _ off h in cc
  | inr on ↦ (
    b'a' + square % 8,
    b'1' + square / 8,
    ok_injective (sym (else_taken _ on h)),
    ground arith,
    ground arith,
    ground arith,
  )
]

pub name-IsPlain : {name : Text} → IsName name → IsPlain name
name-IsPlain (f, r, e, letter, p, q) = subst IsPlain (sym e) (p, (q, tt))

pub name-IsLed : {name : Text} → IsName name → IsLed name
name-IsLed (f, r, e, letter, p, q) = subst IsLed (sym e) letter

file-IsPlain : {name : Text} → IsName name → IsPlain (get_or name 0 0 ∷ [])
unfolding get_or
file-IsPlain (f, r, e, letter, p, q) = rw e (p, tt)

file-AreLetters : {name : Text} → IsName name → AreLetters (get_or name 0 0 ∷ [])
unfolding get_or
file-AreLetters (f, r, e, letter, p, q) = rw e (letter, tt)

rank-IsPlain : {name : Text} → IsName name → IsPlain (get_or name 1 0 ∷ [])
unfolding get_or
rank-IsPlain (f, r, e, letter, p, q) = rw e (q, tt)

coordinates-IsPlain : (a : Ambiguity) {name : Text} → IsName name → IsPlain (coordinates a name)
unfolding coordinates
coordinates-IsPlain a n =
    if-cases IsPlain (not a.same_file) (λ e. file-IsPlain n)
      (λ e. if-cases IsPlain (not a.same_rank) (λ e'. rank-IsPlain n) (λ e'. name-IsPlain n))

disambiguation-IsPlain :
    (a : Ambiguity) (m : Move) {mark : Text} → disambiguation a m ≡ ok mark → IsPlain mark
unfolding disambiguation
disambiguation-IsPlain a m h = elim (Bool-cases a.conflict) [
  | inl some_rival ↦ >>=-split (square_name m.from) (then_taken _ some_rival h) (λ name e k.
      subst IsPlain (ok_injective k) (coordinates-IsPlain a (square_name-IsName m.from e)))
  | inr alone ↦ subst IsPlain (ok_injective (else_taken _ alone h)) tt
]

pub text_injective :
    {b c : Board} {s t : Text} → ◌≡◌ {A = Result (Board × Text)} (ok (b, s)) (ok (c, t)) → s ≡ t
text_injective e = cc

not_of_true : {t : Bool} → t ≡ true → not t ≡ false
not_of_true e = rw e refl

not_of_false : {t : Bool} → t ≡ false → not t ≡ true
not_of_false e = rw e refl

-- A pawn is marked by letters only.
pub origin-IsPlain :
    (b : Board) (m : Move) (moving : Piece) {after : Board} {mark : Text}
    → origin b m moving ≡ ok (after, mark)
    → IsPlain mark × ((type_eq moving.type pawn ≡ true) → AreLetters mark)
unfolding origin
origin-IsPlain b m moving {after} {mark} h = elim (Bool-cases (type_eq moving.type pawn)) [
  | inl is_pawn ↦ elim (Bool-cases (has m MoveFlag.capture)) [
    | inl takes ↦
        >>=-split (square_name m.from) (then_taken _ takes (else_taken _ (not_of_true is_pawn) h))
          (λ name e k.
            let n = square_name-IsName m.from e in
            let same = text_injective k in
            (subst IsPlain same (file-IsPlain n), λ p. subst AreLetters same (file-AreLetters n)))
    | inr goes ↦
        let same = text_injective (else_taken _ goes (else_taken _ (not_of_true is_pawn) h)) in
        (subst IsPlain same tt, λ p. subst AreLetters same tt)
  ]
  | inr is_piece ↦ >>=-split (legal_moves b) (then_taken _ (not_of_false is_piece) h) (λ all e k.
      >>=-split (note_candidates all.0 m moving all.1 no_ambiguity) k (λ a e' k'.
        >>=-split (disambiguation a m) k' (λ text e'' k''.
          (subst IsPlain (text_injective k'') (disambiguation-IsPlain a m e''), λ p. absurd cc))))
]
