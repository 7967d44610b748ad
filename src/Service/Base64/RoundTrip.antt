-- ===== src/Service/Base64/RoundTrip.antt =====
-- What is encoded is decoded again.
use mathlib.Core.Path.{ap₂}
use plywise.Chess.Square.{Text}
use plywise.Prelude.{
  ℕ, ◌<◌, ◌+◌, ◌*◌, ◌/◌, ◌%◌, ◌≡◌, ◌≢◌, refl, ap, ◌∙◌, false, List, [], ◌∷◌, some, arith, All, ◌==◌,
  length,
}
use plywise.Service.Base64.Canonical.{sign, encode}
use plywise.Service.Base64.{base64url_digit, push_byte, decode_loop, has_padding, decode_base64url}

base64url_digit-sign : (d : ℕ) → d < 64 → base64url_digit (sign d) ≡ some d
unfolding base64url_digit sign
base64url_digit-sign d h = ground arith

module _ (d : ℕ) (l : d < 64) (cs : Text) where
  first_sign : decode_loop 0 0 (sign d ∷ cs) ≡ decode_loop d 6 cs
  unfolding decode_loop
  first_sign =
      rw (decode_loop, base64url_digit-sign d l) (ap (λ x. decode_loop x 6 cs) (omega arith))

  second_sign :
      (n : ℕ)
      → decode_loop n 6 (sign d ∷ cs)
        ≡ push_byte ((n * 64 + d) / 16 % 256) (decode_loop ((n * 64 + d) % 16) 4 cs)
  unfolding decode_loop
  second_sign n = rw (decode_loop, base64url_digit-sign d l) refl

  third_sign :
      (n : ℕ)
      → decode_loop n 4 (sign d ∷ cs)
        ≡ push_byte ((n * 64 + d) / 4 % 256) (decode_loop ((n * 64 + d) % 4) 2 cs)
  unfolding decode_loop
  third_sign n = rw (decode_loop, base64url_digit-sign d l) refl

  fourth_sign :
      (n : ℕ)
      → decode_loop n 2 (sign d ∷ cs) ≡ push_byte ((n * 64 + d) / 1 % 256) (decode_loop 0 0 cs)
  unfolding decode_loop
  fourth_sign n = rw (decode_loop, base64url_digit-sign d l) refl

abbrev pub AreBytes : List ℕ → Type 0
AreBytes = All (λ byte. byte < 256)

-- The first two signs give the first byte; four bits are left.
module _ (a : ℕ) (l : a < 256) (high : ℕ) (h : high < 16) (cs : Text) where
  two_signs :
      decode_loop 0 0 (sign (a / 4) ∷ sign (a % 4 * 16 + high) ∷ cs)
      ≡ push_byte a (decode_loop high 4 cs)
  two_signs =
      first_sign (a / 4) (omega (arith, l)) (sign (a % 4 * 16 + high) ∷ cs)
      ∙ (second_sign (a % 4 * 16 + high) (omega (arith, h)) cs (a / 4)
          ∙ ap₂ (λ byte n. push_byte byte (decode_loop n 4 cs)) (omega (arith, l, h))
              (omega (arith, l, h)))

-- The third sign gives the second byte; two bits are left.
third_byte :
    (b top : ℕ) (cs : Text)
    → b < 256
    → top < 4
    → decode_loop (b / 16) 4 (sign (b % 16 * 4 + top) ∷ cs) ≡ push_byte b (decode_loop top 2 cs)
third_byte b top cs l h =
    third_sign (b % 16 * 4 + top) (omega (arith, h)) cs (b / 16)
    ∙ ap₂ (λ byte n. push_byte byte (decode_loop n 2 cs)) (omega (arith, l, h))
        (omega (arith, l, h))

fourth_byte :
    (c : ℕ) (cs : Text)
    → c < 256
    → decode_loop (c / 64) 2 (sign (c % 64) ∷ cs) ≡ push_byte c (decode_loop 0 0 cs)
fourth_byte c cs l =
    fourth_sign (c % 64) (omega arith) cs (c / 64)
    ∙ ap (λ byte. push_byte byte (decode_loop 0 0 cs)) (omega (arith, l))

plus_zero : (n : ℕ) → n ≡ n + 0
plus_zero n = omega arith

ended_four : decode_loop 0 4 [] ≡ some []
unfolding decode_loop
ended_four = refl

ended_two : decode_loop 0 2 [] ≡ some []
unfolding decode_loop
ended_two = refl

decode_loop-encode : (bytes : List ℕ) → AreBytes bytes → decode_loop 0 0 (encode bytes) ≡ some bytes
unfolding encode push_byte
decode_loop-encode [] h = unfold decode_loop in refl
decode_loop-encode (a ∷ []) (la, h) =
    ap (λ d. decode_loop 0 0 (sign (a / 4) ∷ sign d ∷ [])) (plus_zero (a % 4 * 16))
    ∙ (two_signs a la 0 (omega arith) [] ∙ ap (push_byte a) ended_four)
decode_loop-encode (a ∷ b ∷ []) (la, (lb, h)) =
    two_signs a la (b / 16) (omega (arith, lb)) (sign (b % 16 * 4) ∷ [])
    ∙ ap (push_byte a) (
        ap (λ d. decode_loop (b / 16) 4 (sign d ∷ [])) (plus_zero (b % 16 * 4))
        ∙ (third_byte b 0 [] lb (omega arith) ∙ ap (push_byte b) ended_two))
decode_loop-encode (a ∷ b ∷ c ∷ bytes) (la, (lb, (lc, h))) =
    two_signs a la (b / 16) (omega (arith, lb)) _
    ∙ ap (push_byte a) (
        third_byte b (c / 64) _ lb (omega (arith, lc))
        ∙ ap (push_byte b)
            (fourth_byte c (encode bytes) lc ∙ ap (push_byte c) (decode_loop-encode bytes h)))

sign-ne_padding : (d : ℕ) → d < 64 → (sign d == b'=') ≡ false
unfolding sign
sign-ne_padding d h = ground arith

has_padding-sign :
    (d : ℕ) (cs : Text) → d < 64 → has_padding cs ≡ false → has_padding (sign d ∷ cs) ≡ false
unfolding has_padding
has_padding-sign d cs l h = rw (sign-ne_padding d l) h

has_padding-encode : (bytes : List ℕ) → AreBytes bytes → has_padding (encode bytes) ≡ false
unfolding encode
has_padding-encode [] h = unfold has_padding in refl
has_padding-encode (a ∷ []) (la, h) =
    has_padding-sign _ _ (omega (arith, la))
      (has_padding-sign _ _ (omega (arith, la)) (unfold has_padding in refl))
has_padding-encode (a ∷ b ∷ []) (la, (lb, h)) = has_padding-sign _ _ (omega (arith, la)) (
    has_padding-sign _ _ (omega (arith, la, lb))
      (has_padding-sign _ _ (omega (arith, lb)) (unfold has_padding in refl)))
has_padding-encode (a ∷ b ∷ c ∷ bytes) (la, (lb, (lc, h))) =
    has_padding-sign _ _ (omega (arith, la)) (
      has_padding-sign _ _ (omega (arith, la, lb)) (
        has_padding-sign _ _ (omega (arith, lb, lc))
          (has_padding-sign _ _ (omega arith) (has_padding-encode bytes h))))

length-encode : (bytes : List ℕ) → (length (encode bytes) % 4 == 1) ≡ false
unfolding encode
length-encode [] = refl
length-encode (a ∷ []) = refl
length-encode (a ∷ b ∷ []) = refl
length-encode (a ∷ b ∷ c ∷ bytes) = ground (arith, length-encode bytes)

some_sign : (bytes : List ℕ) → bytes ≢ [] → (length (encode bytes) == 0) ≡ false
unfolding encode
some_sign [] ne = absurd (ne refl)
some_sign (a ∷ []) ne = refl
some_sign (a ∷ b ∷ []) ne = refl
some_sign (a ∷ b ∷ c ∷ bytes) ne = ground arith

-- The encoding of any bytes, one at least, is decoded as these bytes.
pub decode_base64url-encode :
    (bytes : List ℕ) → AreBytes bytes → bytes ≢ [] → decode_base64url (encode bytes) ≡ some bytes
unfolding decode_base64url
decode_base64url-encode bytes h ne =
    rw (some_sign bytes ne, has_padding-encode bytes h, length-encode bytes)
      (decode_loop-encode bytes h)
