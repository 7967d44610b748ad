-- ===== src/Chess/Pgn/TagValues.antt =====
-- No tag that `parse_pgn` reads has a closing bracket in its value.
use plywise.Chess.Pgn.Game.{Game, tag}
use plywise.Chess.Pgn.Tags.{
  pass_space, in_front, cut_at, before_last_quote, ends_key, tag_of, find_tag, emplace_tag,
  tag_loop,
}
use plywise.Chess.Pgn.TagText.{NoBracket}
use plywise.Chess.Pgn.Tagged.{Option-cases}
use plywise.Chess.San.{text_eq}
use plywise.Chess.Square.{Text}
use plywise.Errors.{Result, ok, >>=-split}
use plywise.Prelude.{
  ℕ, zero, suc, ◌≡◌, ◌⊎◌, inl, inr, refl, subst, Bool, false, List, [], ◌∷◌, Option, none, some,
  ◌==◌, All, Bool-cases, if-cases,
}

-- The part before the cut has none of the ends; both parts keep what the whole satisfies.
abbrev IsCut : (ℕ → Bool) → (ℕ → Type 0) → Option (Text × Text) → Type 0
IsCut is_end P none = Unit
IsCut is_end P (some (before, behind)) =
    All (λ c. is_end c ≡ false) before × All P before × All P behind

in_front-IsCut :
    (is_end : ℕ → Bool) (P : ℕ → Type 0) (c : ℕ) (cut : Option (Text × Text))
    → is_end c ≡ false
    → P c
    → IsCut is_end P cut
    → IsCut is_end P (in_front c cut)
unfolding in_front
in_front-IsCut is_end P c none e p h = tt
in_front-IsCut is_end P c (some (before, behind)) e p (free, front, back) =
    ((e, free), (p, front), back)

cut_at-IsCut :
    (is_end : ℕ → Bool) (P : ℕ → Type 0) (text : Text)
    → All P text
    → IsCut is_end P (cut_at is_end text)
unfolding cut_at
cut_at-IsCut is_end P [] h = tt
cut_at-IsCut is_end P (c ∷ cs) (p, h) =
    if-cases (IsCut is_end P) (is_end c) (λ e. (tt, tt, h))
      (λ e. in_front-IsCut is_end P c (cut_at is_end cs) e p (cut_at-IsCut is_end P cs h))

abbrev IsKept : (ℕ → Type 0) → Option Text → Type 0
IsKept P none = Unit
IsKept P (some text) = All P text

before_last_quote-IsKept :
    (P : ℕ → Type 0) (text : Text) → All P text → IsKept P (before_last_quote text)
unfolding before_last_quote
before_last_quote-IsKept P [] h = tt
before_last_quote-IsKept P (c ∷ cs) (p, h) =
    let kept = before_last_quote-IsKept P cs h in
    elim (Option-cases (before_last_quote cs)) [
      | inl absent ↦
          rw (before_last_quote, absent) (if-cases (IsKept P) (c == b'"') (λ e. tt) (λ e. tt))
      | inr (before, present) ↦ rw (before_last_quote, present) (p, subst (IsKept P) present kept)
    ]

tag_of-NoBracket :
    (line : Text) {key value : Text}
    → NoBracket line
    → tag_of line ≡ ok (key, value)
    → NoBracket value
unfolding tag_of
tag_of-NoBracket line {key} {value} h e = elim (Option-cases (cut_at ends_key line)) [
  | inl absent ↦ let refused = rw (tag_of, absent) at e in cc
  | inr (front, found) ↦
      let (free, before, behind) =
        subst (IsCut ends_key _) found (cut_at-IsCut ends_key _ line h) in
      elim (Option-cases (cut_at (λ c. c == b'"') front.1)) [
        | inl absent ↦ let refused = rw (tag_of, found, absent) at e in cc
        | inr (quoted, found') ↦
            let (free', gap, text) =
              subst (IsCut (λ c. c == b'"') _) found'
                (cut_at-IsCut (λ c. c == b'"') _ front.1 behind) in
            elim (Option-cases (before_last_quote quoted.1)) [
              | inl absent ↦ let refused = rw (tag_of, found, found', absent) at e in cc
              | inr (inner, found'') ↦
                  let read = rw (tag_of, found, found', found'') at e in
                  let same : inner ≡ value = cc in
                  subst NoBracket same
                    (subst (IsKept _) found'' (before_last_quote-IsKept _ quoted.1 text))
            ]
      ]
]

abbrev pub AllTags : List (Text × Text) → Type 0
AllTags = All (λ t. NoBracket t.1)

emplace-AllTags :
    (key value : Text) (tags : List (Text × Text))
    → NoBracket value
    → AllTags tags
    → AllTags (emplace_tag key value tags)
unfolding emplace_tag
emplace-AllTags key value tags v h = elim (Option-cases (find_tag tags key)) [
  | inl absent ↦ rw (emplace_tag, absent) (v, h)
  | inr (held, present) ↦ rw (emplace_tag, present) h
]

pub Text-cases : (t : Text) → (t ≡ []) ⊎ ((c : ℕ) × (cs : Text) × (t ≡ c ∷ cs))
Text-cases [] = inl refl
Text-cases (c ∷ cs) = inr (c, cs, refl)

tags_injective :
    {a b : List (Text × Text)} {s t : Text}
    → ◌≡◌ {A = Result (List (Text × Text) × Text)} (ok (a, s)) (ok (b, t))
    → a ≡ b
tags_injective e = cc

All-unit : (text : Text) → All {0, 0} (λ c. Unit) text
All-unit [] = tt
All-unit (c ∷ cs) = (tt, All-unit cs)

pub tag_loop-AllTags :
    (fuel : ℕ) (tags : List (Text × Text)) (text : Text) {found : List (Text × Text)} {rest : Text}
    → AllTags tags
    → tag_loop fuel tags text ≡ ok (found, rest)
    → AllTags found
unfolding tag_loop
tag_loop-AllTags zero tags text h e = subst AllTags (tags_injective e) h
tag_loop-AllTags (suc fuel) tags text {found} h e = elim (Text-cases (pass_space text)) [
  | inl over ↦ subst AllTags (tags_injective (rw (tag_loop, over) at e)) h
  | inr (c, cs, starts) ↦ elim (Bool-cases (c == b'[')) [
    | inr moves ↦ subst AllTags (tags_injective (rw (tag_loop, starts, moves) at e)) h
    | inl opens ↦ elim (Option-cases (cut_at (λ d. d == b']') cs)) [
      | inl unterminated ↦ let refused = rw (tag_loop, starts, opens, unterminated) at e in cc
      | inr (line, cut) ↦
          >>=-split (tag_of line.0) (rw (tag_loop, starts, opens, cut) at e) (λ pair e' k.
            let (inside, p, q) =
              subst (IsCut (λ d. d == b']') _) cut
                (cut_at-IsCut (λ d. d == b']') (λ d. Unit) cs (All-unit cs)) in
            tag_loop-AllTags fuel (emplace_tag pair.0 pair.1 tags) line.1
              (emplace-AllTags pair.0 pair.1 tags (tag_of-NoBracket line.0 inside e') h) k)
    ]
  ]
]

tag_of_all :
    (tags : List (Text × Text)) (key : Text)
    → AllTags tags
    → IsKept (λ c. (c == b']') ≡ false) (find_tag tags key)
unfolding find_tag
tag_of_all [] key h = tt
tag_of_all ((k, value) ∷ tags) key (v, h) =
    if-cases (IsKept _) (text_eq k key) (λ e. v) (λ e. tag_of_all tags key h)

pub tag-NoBracket : (game : Game) (key : Text) → AllTags game.tags → NoBracket (tag game key)
unfolding tag
tag-NoBracket game key h =
    let kept = tag_of_all game.tags key h in
    elim (Option-cases (find_tag game.tags key)) [
      | inl absent ↦ rw (tag, absent) tt
      | inr (value, present) ↦ rw (tag, present) (subst (IsKept _) present kept)
    ]
