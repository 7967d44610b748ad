-- ===== src/Json/Parser/Strings.antt =====
-- A string that was written is read back.
use mathlib.Core.List.{append_assoc, append-nil}
use plywise.Json.{Text}
use plywise.Json.Lexer.{
  done, string_loop, string_step, plain, goes, digit_step, escape_step, hex_value, escape_value,
  utf8,
}
use plywise.Json.Printer.{escape, escape_all, hex_digit}
use plywise.Prelude.{
  ℕ, ◌+◌, ◌-◌, ◌*◌, ◌/◌, ◌%◌, ◌<◌, ◌≡◌, inl, inr, refl, sym, ap, subst, ◌∙◌, arith, true, false, [],
  ◌∷◌, ◌++◌, Bool-cases, ==_iff, ltb, ◌==◌, some,
}

hex_value-hex_digit : (d : ℕ) → d < 16 → hex_value (hex_digit d) ≡ some d
unfolding hex_value hex_digit
hex_value-hex_digit d h = ground arith

abbrev ReadsByte : ℕ → Type 0
ReadsByte c =
    (rest result : Text)
    → string_loop (escape c ++ rest) plain result ≡ string_loop rest plain (result ++ c ∷ [])

plain-step :
    (c : ℕ) (result : Text)
    → (c == b'"') ≡ false
    → ltb c 32 ≡ false
    → (c == b'\\') ≡ false
    → string_step plain result c ≡ goes plain (result ++ c ∷ [])
unfolding string_step
plain-step c result q h b = rw (q, h, b) refl

-- A byte that is not escaped.
plain-ReadsByte :
    (c : ℕ)
    → (c == b'"') ≡ false
    → (c == b'\\') ≡ false
    → ltb c 32 ≡ false
    → escape c ≡ c ∷ []
    → ReadsByte c
unfolding string_loop
plain-ReadsByte c q b h e rest result = rw (e, plain-step c result q h b) refl

utf8_low : (c : ℕ) → c < 32 → utf8 c ≡ c ∷ []
unfolding utf8
utf8_low c h = ground arith

-- A control byte, as four digits.
control-ReadsByte :
    (c : ℕ)
    → c < 32
    → escape c ≡ b'\\' ∷ b'u' ∷ b'0' ∷ b'0' ∷ hex_digit (c / 16) ∷ hex_digit (c % 16) ∷ []
    → ReadsByte c
unfolding string_loop string_step digit_step hex_value
control-ReadsByte c h e rest result =
    rw (e, hex_value-hex_digit (c / 16) (omega arith), hex_value-hex_digit (c % 16) (omega arith))
      (ap (λ t. string_loop rest plain (result ++ t)) (ap utf8 (joined c) ∙ utf8_low c h))
  where
    joined : (c : ℕ) → (((0 * 16 + (48 - 48)) * 16 + (48 - 48)) * 16 + c / 16) * 16 + c % 16 ≡ c
    joined c = omega arith

quote-ReadsByte : ReadsByte 34
unfolding escape string_loop string_step escape_step escape_value
quote-ReadsByte rest result = refl

backslash-ReadsByte : ReadsByte 92
unfolding escape string_loop string_step escape_step escape_value
backslash-ReadsByte rest result = refl

backspace-ReadsByte : ReadsByte 8
unfolding escape string_loop string_step escape_step escape_value
backspace-ReadsByte rest result = refl

form_feed-ReadsByte : ReadsByte 12
unfolding escape string_loop string_step escape_step escape_value
form_feed-ReadsByte rest result = refl

newline-ReadsByte : ReadsByte 10
unfolding escape string_loop string_step escape_step escape_value
newline-ReadsByte rest result = refl

carriage_return-ReadsByte : ReadsByte 13
unfolding escape string_loop string_step escape_step escape_value
carriage_return-ReadsByte rest result = refl

tab-ReadsByte : ReadsByte 9
unfolding escape string_loop string_step escape_step escape_value
tab-ReadsByte rest result = refl

special : (c k : ℕ) → (c == k) ≡ true → ReadsByte k → ReadsByte c
special c k e h = subst ReadsByte (sym ((==_iff c k).0 e)) h

-- The escape for one byte is read as that byte.
loop-escape : (c : ℕ) → ReadsByte c
unfolding escape
loop-escape c = elim (Bool-cases (c == 34)) [
  | inl e ↦ special c 34 e quote-ReadsByte
  | inr n0 ↦ elim (Bool-cases (c == 92)) [
    | inl e ↦ special c 92 e backslash-ReadsByte
    | inr n1 ↦ elim (Bool-cases (c == 8)) [
      | inl e ↦ special c 8 e backspace-ReadsByte
      | inr n2 ↦ elim (Bool-cases (c == 12)) [
        | inl e ↦ special c 12 e form_feed-ReadsByte
        | inr n3 ↦ elim (Bool-cases (c == 10)) [
          | inl e ↦ special c 10 e newline-ReadsByte
          | inr n4 ↦ elim (Bool-cases (c == 13)) [
            | inl e ↦ special c 13 e carriage_return-ReadsByte
            | inr n5 ↦ elim (Bool-cases (c == 9)) [
              | inl e ↦ special c 9 e tab-ReadsByte
              | inr n6 ↦ elim (Bool-cases (ltb c 32)) [
                | inl low ↦
                    control-ReadsByte c (ground arith) (rw (n0, n1, n2, n3, n4, n5, n6, low) refl)
                | inr high ↦
                    plain-ReadsByte c n0 n1 high (rw (n0, n1, n2, n3, n4, n5, n6, high) refl)
              ]
            ]
          ]
        ]
      ]
    ]
  ]
]

loop_close : (rest result : Text) → string_loop (b'"' ∷ rest) plain result ≡ done result rest
unfolding string_loop string_step
loop_close rest result = refl

-- What `dump_string` has written is read up to its closing quote as the string, and the rest is left.
pub loop-escape_all :
    (s rest result : Text)
    → string_loop ((escape_all s ++ b'"' ∷ []) ++ rest) plain result ≡ done (result ++ s) rest
unfolding escape_all
loop-escape_all [] rest result =
    loop_close rest result ∙ ap (λ t. done t rest) (sym (append-nil result))
loop-escape_all (c ∷ cs) rest result =
    ap (λ t. string_loop t plain result)
      (ap (λ t. t ++ rest) (append_assoc (escape c) (escape_all cs) (b'"' ∷ []))
        ∙ append_assoc (escape c) (escape_all cs ++ b'"' ∷ []) rest)
    ∙ loop-escape c ((escape_all cs ++ b'"' ∷ []) ++ rest) result
    ∙ loop-escape_all cs rest (result ++ c ∷ [])
    ∙ ap (λ t. done t rest) (append_assoc result (c ∷ []) cs)
