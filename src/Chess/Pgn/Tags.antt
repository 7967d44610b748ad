-- ===== src/Chess/Pgn/Tags.antt =====
-- The tags of a PGN: the first loop of `parse_pgn`, src/chess/pgn.cpp. The map of tags is a list of keys
-- and values.
use plywise.Chess.Fen.{is_space}
use plywise.Chess.San.{text_eq}
use plywise.Chess.Square.{Text}
use plywise.Errors.{Result, ok, err, parse_error, ◌>>=◌}
use plywise.Prelude.{
  ℕ, zero, suc, Bool, true, false, ◌||◌, List, [], ◌∷◌, Option, none, some, ◌==◌, if◌then◌else◌,
}

unfoldable pub pass_space : Text → Text
pass_space [] = []
pass_space (c ∷ cs) = let rest = pass_space cs in if is_space c then rest else c ∷ cs

unfoldable pub in_front : ℕ → Option (Text × Text) → Option (Text × Text)
in_front c none = none
in_front c (some (before, behind)) = some (c ∷ before, behind)

-- The text before the first of some codes, and what stands behind it.
unfoldable pub cut_at : (ℕ → Bool) → Text → Option (Text × Text)
cut_at is_end [] = none
cut_at is_end (c ∷ cs) =
    let later = in_front c (cut_at is_end cs) in if is_end c then some ([], cs) else later

-- The text before the last quotation mark.
unfoldable pub before_last_quote : Text → Option Text
before_last_quote [] = none
before_last_quote (c ∷ cs) = elim (before_last_quote cs) [
  | some before ↦ some (c ∷ before)
  | none ↦ if c == b'"' then some [] else none
]

-- `find_first_of(" \t")`.
abbrev pub ends_key : ℕ → Bool
ends_key c = c == 32 || c == 9

-- The key and the value of a tag, from the line between its brackets.
unfoldable pub tag_of : Text → Result (Text × Text)
tag_of line = elim (cut_at ends_key line) [
  | none ↦ err parse_error
  | some (key, behind) ↦ elim (cut_at (λ c. c == b'"') behind) [
    | none ↦ err parse_error
    | some (gap, quoted) ↦ elim (before_last_quote quoted) [
      | none ↦ err parse_error
      | some value ↦ ok (key, value)
    ]
  ]
]

unfoldable pub find_tag : List (Text × Text) → Text → Option Text
find_tag [] key = none
find_tag ((k, value) ∷ tags) key =
    let rest = find_tag tags key in if text_eq k key then some value else rest

-- `tags.emplace`: a key that is there keeps its value.
unfoldable pub emplace_tag : Text → Text → List (Text × Text) → List (Text × Text)
emplace_tag key value tags = elim (find_tag tags key) [
  | some held ↦ tags
  | none ↦ (key, value) ∷ tags
]

-- The loop over the tags; what is left of the text is returned with them.
unfoldable pub tag_loop : ℕ → List (Text × Text) → Text → Result (List (Text × Text) × Text)
tag_loop zero tags text = ok (tags, text)
tag_loop (suc fuel) tags text = elim (pass_space text) [
  | [] ↦ ok (tags, [])
  | c ∷ cs ↦ elim (c == b'[') [
    | false ↦ ok (tags, c ∷ cs)
    | true ↦ elim (cut_at (λ d. d == b']') cs) [
      | none ↦ err parse_error
      | some (line, rest) ↦ (do
        (key, value) ← tag_of line
        tag_loop fuel (emplace_tag key value tags) rest)
    ]
  ]
]
