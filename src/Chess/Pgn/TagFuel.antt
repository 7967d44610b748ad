-- ===== src/Chess/Pgn/TagFuel.antt =====
-- The rounds that the first loop of `parse_pgn` needs.
use plywise.Chess.Pgn.Tagged.{Option-cases}
use plywise.Chess.Pgn.Tags.{pass_space, in_front, cut_at, tag_of, emplace_tag, tag_loop}
use plywise.Chess.Pgn.TagValues.{Text-cases}
use plywise.Chess.Square.{Text}
use plywise.Errors.{Result, ok, err, ◌>>=◌}
use plywise.Prelude.{
  ℕ, zero, suc, ◌<◌, ◌≤◌, ◌≡◌, inl, inr, refl, ap, subst, Bool, List, [], ◌∷◌, Option, none, some,
  ◌==◌, arith, Bool-cases, if-cases, length,
}

>>=-same {ℓ κ} :
    {R : Type ℓ} {S : Type κ} (result : Result R) (f g : R → Result S)
    → ((value : R) → f value ≡ g value)
    → (result >>= f) ≡ (result >>= g)
>>=-same (err code) f g h = refl
>>=-same (ok value) f g h = h value

length-pass_space : (text : Text) → length (pass_space text) ≤ length text
unfolding pass_space
length-pass_space [] = omega arith
length-pass_space (c ∷ cs) = ground (arith, length-pass_space cs)

abbrev IsShorter : Text → Option (Text × Text) → Type 0
IsShorter text none = Unit
IsShorter text (some (before, behind)) = length behind < length text

in_front-IsShorter :
    (c : ℕ) (cs : Text) (cut : Option (Text × Text))
    → IsShorter cs cut
    → IsShorter (c ∷ cs) (in_front c cut)
unfolding in_front
in_front-IsShorter c cs none h = tt
in_front-IsShorter c cs (some (before, behind)) h = omega (arith, h)

cut_at-IsShorter : (is_end : ℕ → Bool) (text : Text) → IsShorter text (cut_at is_end text)
unfolding cut_at
cut_at-IsShorter is_end [] = tt
cut_at-IsShorter is_end (c ∷ cs) =
    if-cases (IsShorter (c ∷ cs)) (is_end c) (λ e. omega arith)
      (λ e. in_front-IsShorter c cs (cut_at is_end cs) (cut_at-IsShorter is_end cs))

-- More rounds than there are characters are enough for the loop over the tags: any further one changes
-- nothing. `parse_pgn` gives it one more than the whole text has.
pub tag_loop-enough :
    (m n : ℕ) (tags : List (Text × Text)) (text : Text)
    → length text < m
    → length text < n
    → tag_loop m tags text ≡ tag_loop n tags text
unfolding tag_loop
tag_loop-enough zero n tags text h k = absurd (omega (arith, h))
tag_loop-enough (suc m) zero tags text h k = absurd (omega (arith, k))
tag_loop-enough (suc m) (suc n) tags text h k = elim (Text-cases (pass_space text)) [
  | inl over ↦ rw (tag_loop, over) refl
  | inr (c, cs, starts) ↦ elim (Bool-cases (c == b'[')) [
    | inr moves ↦ rw (tag_loop, starts, moves) refl
    | inl opens ↦ elim (Option-cases (cut_at (λ d. d == b']') cs)) [
      | inl unterminated ↦ rw (tag_loop, starts, opens, unterminated) refl
      | inr (line, cut) ↦
          let shorter = subst (IsShorter cs) cut (cut_at-IsShorter (λ d. d == b']') cs) in
          let passed = length-pass_space text in
          let counted = ap length starts in
          rw (tag_loop, starts, opens, cut)
            (>>=-same (tag_of line.0) _ _ (λ pair.
              tag_loop-enough m n (emplace_tag pair.0 pair.1 tags) line.1
                (omega (arith, h, shorter, passed, counted))
                (omega (arith, k, shorter, passed, counted))))
    ]
  ]
]
