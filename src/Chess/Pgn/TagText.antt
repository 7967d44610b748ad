-- ===== src/Chess/Pgn/TagText.antt =====
-- The first loop of `parse_pgn` on the tags that `canonical_pgn` writes.
use mathlib.Core.List.{append_assoc}
use plywise.Chess.Fen.{is_space}
use plywise.Chess.Pgn.Game.{Game, tag}
use plywise.Chess.Pgn.Printed.{show_tag, show_tags}
use plywise.Chess.Pgn.Scan.{token_empty}
use plywise.Chess.Pgn.Tagged.{collect}
use plywise.Chess.Pgn.Tags.{
  pass_space, in_front, cut_at, before_last_quote, ends_key, tag_of, emplace_tag, tag_loop,
}
use plywise.Chess.Square.{Text}
use plywise.Errors.{ok}
use plywise.Prelude.{
  ℕ, zero, suc, ◌≤◌, ◌≡◌, inl, inr, refl, sym, ap, ◌∙◌, Bool, true, false, not, ◌&&◌, List, [], ◌∷◌,
  ◌++◌, some, ◌==◌, arith, All, All-append, Bool-cases, length, length-append,
}

cut_at_first :
    (is_end : ℕ → Bool) (xs ys : Text) (d : ℕ)
    → All (λ c. is_end c ≡ false) xs
    → is_end d ≡ true
    → cut_at is_end (xs ++ d ∷ ys) ≡ some (xs, ys)
unfolding cut_at in_front
cut_at_first is_end [] ys d h e = rw e refl
cut_at_first is_end (x ∷ xs) ys d (h, t) e = rw (h, cut_at_first is_end xs ys d t e) refl

before_last_quote_last : (xs : Text) → before_last_quote (xs ++ b'"' ∷ []) ≡ some xs
unfolding before_last_quote
before_last_quote_last [] = refl
before_last_quote_last (x ∷ xs) = rw (before_last_quote_last xs) refl

-- What stands between the brackets.
abbrev tag_line : Text → Text → Text
tag_line key value = key ++ (32 ∷ b'"' ∷ (value ++ b'"' ∷ []))

tag_of-tag_line :
    (key value : Text)
    → All (λ c. ends_key c ≡ false) key
    → tag_of (tag_line key value) ≡ ok (key, value)
unfolding tag_of cut_at in_front
tag_of-tag_line key value h =
    rw
      (
        tag_of,
        cut_at_first ends_key key (b'"' ∷ (value ++ b'"' ∷ [])) 32 h refl,
        before_last_quote_last value,
      )
      refl

tag_line_closed :
    (key value rest : Text)
    → (key ++ (32 ∷ b'"' ∷ (value ++ (b'"' ∷ b']' ∷ 10 ∷ [])))) ++ rest
      ≡ tag_line key value ++ b']' ∷ 10 ∷ rest
tag_line_closed key value rest =
    append_assoc key _ rest
    ∙ (ap (λ t. key ++ (32 ∷ b'"' ∷ t))
          (append_assoc value (b'"' ∷ b']' ∷ 10 ∷ []) rest
            ∙ sym (append_assoc value (b'"' ∷ []) (b']' ∷ 10 ∷ rest)))
        ∙ sym (append_assoc key (32 ∷ b'"' ∷ (value ++ b'"' ∷ [])) (b']' ∷ 10 ∷ rest)))

abbrev pub NoBracket : Text → Type 0
NoBracket = All (λ c. (c == b']') ≡ false)

abbrev pub IsKey : Text → Type 0
IsKey key = All (λ c. ends_key c ≡ false) key × NoBracket key

tag_line-NoBracket :
    (key value : Text) → NoBracket key → NoBracket value → NoBracket (tag_line key value)
tag_line-NoBracket key value k v =
    All-append _ key _ k (refl, (refl, All-append _ value (b'"' ∷ []) v (refl, tt)))

tag_loop-show_tag :
    (fuel : ℕ) (tags : List (Text × Text)) (key value rest : Text)
    → IsKey key
    → NoBracket value
    → token_empty value ≡ false
    → tag_loop (suc fuel) tags (show_tag key value ++ rest)
      ≡ tag_loop fuel (emplace_tag key value tags) (10 ∷ rest)
unfolding tag_loop show_tag pass_space is_space
tag_loop-show_tag fuel tags key value rest (k, k') v filled =
    rw
      (
        filled,
        tag_line_closed key value rest,
        tag_loop,
        cut_at_first (λ d. d == b']') (tag_line key value) (10 ∷ rest) b']'
            (tag_line-NoBracket key value k' v) refl,
        tag_of-tag_line key value k,
      )
      refl

-- What follows the tags.
abbrev pub IsOpening : Text → Type 0
IsOpening [] = ⊥
IsOpening (c ∷ cs) = (is_space c ≡ false) × ((c == b'[') ≡ false)

tag_loop_over :
    (fuel : ℕ) (tags : List (Text × Text)) (rest : Text)
    → IsOpening rest
    → tag_loop (suc fuel) tags (10 ∷ rest) ≡ ok (tags, rest)
unfolding tag_loop pass_space is_space
tag_loop_over fuel tags [] h = elim h [ ]
tag_loop_over fuel tags (c ∷ cs) (s, h) = rw (tag_loop, s, h) refl

tag_loop_line :
    (fuel : ℕ) (tags : List (Text × Text)) (rest : Text)
    → tag_loop (suc fuel) tags (10 ∷ rest) ≡ tag_loop (suc fuel) tags rest
unfolding tag_loop pass_space is_space
tag_loop_line fuel tags rest = refl

show_tag-filled :
    (key value : Text) → token_empty value ≡ false → (n : ℕ) × (length (show_tag key value) ≡ suc n)
unfolding show_tag
show_tag-filled key value e = rw (show_tag, e) (_, refl)

show_tag_empty : (key value : Text) → token_empty value ≡ true → show_tag key value ≡ []
unfolding show_tag
show_tag_empty key value e = rw (show_tag, e) refl

-- What is left after a tag is shorter than what was there.
left_over :
    (key value rest : Text) {fuel : ℕ}
    → token_empty value ≡ false
    → length (show_tag key value ++ rest) ≤ fuel
    → (less : ℕ) × (fuel ≡ suc less) × (length rest ≤ less)
left_over key value rest {fuel = zero} e h =
    let (n, l) = show_tag-filled key value e in
    absurd (omega (arith, l, h, length-append (show_tag key value) rest))
left_over key value rest {fuel = suc fuel} e h =
    let (n, l) = show_tag-filled key value e in
    (fuel, refl, omega (arith, l, h, length-append (show_tag key value) rest))

-- The printed tags are read back into a list of tags, each under its first key.
pub tag_loop-show_tags :
    (keys : List Text) (game : Game) (fuel : ℕ) (tags : List (Text × Text)) (rest : Text)
    → All IsKey keys
    → ((key : Text) → NoBracket (tag game key))
    → IsOpening rest
    → length (show_tags keys game (10 ∷ rest)) ≤ fuel
    → tag_loop (suc fuel) tags (show_tags keys game (10 ∷ rest)) ≡ ok (collect keys game tags, rest)
unfolding show_tags
tag_loop-show_tags [] game fuel tags rest k v o enough = tag_loop_over fuel tags rest o
tag_loop-show_tags (key ∷ keys) game fuel tags rest (k, ks) v o enough =
    elim (Bool-cases (token_empty (tag game key))) [
      | inl empty ↦
          let skipped = show_tag_empty key (tag game key) empty in
          rw (skipped, empty)
            (tag_loop-show_tags keys game fuel tags rest ks v o (rw skipped at enough))
      | inr filled ↦
          let others = show_tags keys game (10 ∷ rest) in
          let (less, e, shorter) = left_over key (tag game key) others filled enough in
          rw (e, filled)
            (tag_loop-show_tag (suc less) tags key (tag game key) others k (v key) filled
              ∙ (tag_loop_line less (emplace_tag key (tag game key) tags) others
                  ∙ tag_loop-show_tags keys game less (emplace_tag key (tag game key) tags) rest ks
                      v o shorter))
    ]

abbrev has_none : (ℕ → Bool) → Text → Bool
has_none is_end [] = true
has_none is_end (c ∷ cs) = not (is_end c) && has_none is_end cs

has_none_sound :
    (is_end : ℕ → Bool) (text : Text)
    → has_none is_end text ≡ true
    → All (λ c. is_end c ≡ false) text
has_none_sound is_end [] h = tt
has_none_sound is_end (c ∷ cs) h = (ground arith, has_none_sound is_end cs (ground arith))

abbrev pub are_keys : List Text → Bool
are_keys [] = true
are_keys (key ∷ keys) = (has_none ends_key key && has_none (λ c. c == b']') key) && are_keys keys

pub are_keys_sound : (keys : List Text) → are_keys keys ≡ true → All IsKey keys
are_keys_sound [] h = tt
are_keys_sound (key ∷ keys) h = (
  (has_none_sound ends_key key (ground arith), has_none_sound (λ c. c == b']') key (ground arith)),
  are_keys_sound keys (ground arith),
)
