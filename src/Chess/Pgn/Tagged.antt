-- ===== src/Chess/Pgn/Tagged.antt =====
-- The tags that `canonical_pgn` writes are read again.
use plywise.Chess.Pgn.Game.{Game, tag}
use plywise.Chess.Pgn.Scan.{token_empty}
use plywise.Chess.Pgn.Tags.{find_tag, emplace_tag}
use plywise.Chess.San.{text_eq}
use plywise.Chess.San.Parsed.{text_eq-true}
use plywise.Chess.Square.{Text}
use plywise.Prelude.{
  ◌≡◌, ◌⊎◌, inl, inr, refl, sym, ap, subst, ◌∙◌, Bool, true, false, ◌||◌, List, [], ◌∷◌, Option,
  none, some, if◌then◌else◌, Bool-cases, if-cases,
}

-- The first of two that is there.
abbrev or_else : Option Text → Option Text → Option Text
or_else none other = other
or_else (some value) other = some value

abbrev non_empty : Text → Option Text
non_empty value = if token_empty value then none else some value

-- The tag is added unless it is empty.
abbrev add_tag : Game → Text → List (Text × Text) → List (Text × Text)
add_tag game key tags =
    if token_empty (tag game key) then tags else emplace_tag key (tag game key) tags

abbrev pub collect : List Text → Game → List (Text × Text) → List (Text × Text)
collect [] game tags = tags
collect (key ∷ keys) game tags = collect keys game (add_tag game key tags)

abbrev pub is_listed : List Text → Text → Bool
is_listed [] k = false
is_listed (key ∷ keys) k = text_eq key k || is_listed keys k

pub Option-cases {ℓ} : {A : Type ℓ} (o : Option A) → (o ≡ none) ⊎ ((value : A) × (o ≡ some value))
Option-cases none = inl refl
Option-cases (some value) = inr (value, refl)

or_else_none : (o : Option Text) → o ≡ or_else o none
or_else_none none = refl
or_else_none (some value) = refl

emplace_absent :
    (key value : Text) (tags : List (Text × Text))
    → find_tag tags key ≡ none
    → emplace_tag key value tags ≡ (key, value) ∷ tags
unfolding emplace_tag
emplace_absent key value tags e = rw (emplace_tag, e) refl

emplace_present :
    (key value : Text) (tags : List (Text × Text)) {held : Text}
    → find_tag tags key ≡ some held
    → emplace_tag key value tags ≡ tags
unfolding emplace_tag
emplace_present key value tags e = rw (emplace_tag, e) refl

find_tag-emplace :
    (key value k : Text) (tags : List (Text × Text))
    → find_tag (emplace_tag key value tags) k
      ≡ or_else (find_tag tags k) (if text_eq key k then some value else none)
unfolding find_tag
find_tag-emplace key value k tags = elim (Bool-cases (text_eq key k)) [
  | inl same ↦
      let e = text_eq-true key k same in
      elim (Option-cases (find_tag tags key)) [
        | inl absent ↦
            let absent' : find_tag tags k ≡ none = subst (λ x. find_tag tags x ≡ none) e absent in
            rw (emplace_absent key value tags absent, same, absent') refl
        | inr (held, present) ↦
            let present' : find_tag tags k ≡ some held =
              subst (λ x. find_tag tags x ≡ some held) e present in
            rw (emplace_present key value tags present, present') refl
      ]
  | inr differs ↦ elim (Option-cases (find_tag tags key)) [
    | inl absent ↦
        rw (emplace_absent key value tags absent, differs) (or_else_none (find_tag tags k))
    | inr (held, present) ↦
        rw (emplace_present key value tags present, differs) (or_else_none (find_tag tags k))
  ]
]

add_tag-found :
    (game : Game) (key k : Text) (tags : List (Text × Text))
    → find_tag (add_tag game key tags) k
      ≡ or_else (find_tag tags k) (if text_eq key k then non_empty (tag game k) else none)
add_tag-found game key k tags = elim (Bool-cases (text_eq key k)) [
  | inl same ↦
      let e = text_eq-true key k same in
      let alike : token_empty (tag game k) ≡ token_empty (tag game key) =
        ap (λ x. token_empty (tag game x)) (sym e) in
      elim (Bool-cases (token_empty (tag game key))) [
        | inl empty ↦ rw (empty, same, alike, empty) (or_else_none (find_tag tags k))
        | inr filled ↦ rw filled (
            find_tag-emplace key (tag game key) k tags
            ∙ rw (same, alike, filled) (ap (λ x. or_else (find_tag tags k) (some (tag game x))) e))
      ]
  | inr differs ↦ elim (Bool-cases (token_empty (tag game key))) [
    | inl empty ↦ rw (empty, differs) (or_else_none (find_tag tags k))
    | inr filled ↦ rw filled (find_tag-emplace key (tag game key) k tags ∙ rw differs refl)
  ]
]

or_else_listed :
    (found : Option Text) (value : Text) (here later : Bool)
    → or_else
        (or_else found (if here then non_empty value else none))
        (if later then non_empty value else none)
      ≡ or_else found (if here || later then non_empty value else none)
or_else_listed (some held) value here later = refl
or_else_listed none value true true =
    if-cases (λ o. or_else o o ≡ o) (token_empty value) (λ e. refl) (λ e. refl)
or_else_listed none value true false = sym (or_else_none (non_empty value))
or_else_listed none value false later = refl

collect-found :
    (keys : List Text) (game : Game) (tags : List (Text × Text)) (k : Text)
    → find_tag (collect keys game tags) k
      ≡ or_else (find_tag tags k) (if is_listed keys k then non_empty (tag game k) else none)
collect-found [] game tags k = or_else_none (find_tag tags k)
collect-found (key ∷ keys) game tags k =
    collect-found keys game (add_tag game key tags) k
    ∙ (rw (add_tag-found game key k tags)
        (or_else_listed (find_tag tags k) (tag game k) (text_eq key k) (is_listed keys k)))

tag-found :
    (game : Game) (k : Text) {value : Text} → find_tag game.tags k ≡ some value → tag game k ≡ value
unfolding tag
tag-found game k e = rw (tag, e) refl

tag-absent : (game : Game) (k : Text) → find_tag game.tags k ≡ none → tag game k ≡ []
unfolding tag
tag-absent game k e = rw (tag, e) refl

empty_nil : (text : Text) → token_empty text ≡ true → text ≡ []
empty_nil [] e = refl
empty_nil (c ∷ cs) e = cc

-- Each tag that is written is read as it was.
pub collect-tag :
    (game start : Game) (keys : List Text) (k : Text)
    → start.tags ≡ collect keys game []
    → is_listed keys k ≡ true
    → tag start k ≡ tag game k
unfolding find_tag
collect-tag game start keys k e listed =
    let found : find_tag start.tags k ≡ non_empty (tag game k) =
      ap (λ t. find_tag t k) e ∙ (collect-found keys game [] k ∙ rw (find_tag, listed) refl) in
    elim (Bool-cases (token_empty (tag game k))) [
      | inl empty ↦ tag-absent start k (found ∙ rw empty refl) ∙ sym (empty_nil (tag game k) empty)
      | inr filled ↦ tag-found start k (found ∙ rw filled refl)
    ]
