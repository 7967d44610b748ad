-- ===== src/Json.antt =====
-- JSON values: include/pct/common/json.hpp, src/common/json.cpp. A text is the list of its bytes. A
-- number is a double, whose type and whose conversions from and to text are parameters.
pub mod Lexer
pub mod Parser
pub mod Printer
pub mod Access
use plywise.Prelude.{ℕ, Bool, true, false, List, [], ◌∷◌, ◌&&◌, ltb, ◌==◌, if◌then◌else◌}

abbrev pub Text : Type 0
Text = List ℕ

-- `Value`; an object's fields stand in the order of the map, by key.
mutual
  pub data Value (D : Type 0) : Type 0 where
    null : Value D
    bool : Bool → Value D
    number : D → Value D
    string : Text → Value D
    array : Items D → Value D
    object : Fields D → Value D

  pub data Items (D : Type 0) : Type 0 where
    no_items : Items D
    item : Value D → Items D → Items D

  pub data Fields (D : Type 0) : Type 0 where
    no_fields : Fields D
    field : Text → Value D → Fields D → Fields D

-- The order of `std::string`, by unsigned bytes.
unfoldable pub text_lt : Text → Text → Bool
text_lt [] [] = false
text_lt [] (d ∷ ds) = true
text_lt (c ∷ cs) [] = false
text_lt (c ∷ cs) (d ∷ ds) =
    let rest = text_lt cs ds in if ltb c d then true else if ltb d c then false else rest

unfoldable pub text_eq : Text → Text → Bool
text_eq [] [] = true
text_eq (c ∷ cs) (d ∷ ds) = c == d && text_eq cs ds
text_eq _ _ = false
