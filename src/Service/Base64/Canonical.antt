-- ===== src/Service/Base64/Canonical.antt =====
-- Each list of bytes is the value of one text only: its encoding after RFC 4648, without padding.
use mathlib.Core.Path.{ap₂}
use plywise.Chess.Square.{Text}
use plywise.Prelude.{
  ℕ, ◌<◌, ◌+◌, ◌-◌, ◌*◌, ◌/◌, ◌%◌, ◌^◌, ◌≡◌, ◌⊎◌, inl, inr, refl, ap, subst, ◌∙◌, not, List, [],
  ◌∷◌, Option, none, some, arith, ltb, leb, ◌==◌, if◌then◌else◌, then_taken, else_taken, Bool-cases,
  ◌||◌, length,
}
use plywise.Service.Base64.{base64url_digit, push_byte, decode_loop, has_padding, decode_base64url}

-- The alphabet of base64url.
unfoldable pub sign : ℕ → ℕ
sign d =
    if ltb d 26
    then b'A' + d
    else if ltb d 52
    then b'a' + (d - 26)
    else if ltb d 62
    then b'0' + (d - 52)
    else if d == 62
    then b'-'
    else b'_'

-- Three bytes are four signs; the bits that are left over at the end are zero.
unfoldable pub encode : List ℕ → Text
encode [] = []
encode (a ∷ []) = sign (a / 4) ∷ sign (a % 4 * 16) ∷ []
encode (a ∷ b ∷ []) = sign (a / 4) ∷ sign (a % 4 * 16 + b / 16) ∷ sign (b % 16 * 4) ∷ []
encode (a ∷ b ∷ c ∷ bytes) =
    sign (a / 4)
    ∷ sign (a % 4 * 16 + b / 16)
    ∷ sign (b % 16 * 4 + c / 64)
    ∷ sign (c % 64)
    ∷ encode bytes

abbrev IsDigit : ℕ → ℕ → Type 0
IsDigit c d = (d < 64) × (sign d ≡ c)

base64url_digit-IsDigit : (c d : ℕ) → base64url_digit c ≡ some d → IsDigit c d
unfolding base64url_digit sign
base64url_digit-IsDigit c d h = (ground arith, ground arith)

digit-cases : (c : ℕ) → (base64url_digit c ≡ none) ⊎ ((d : ℕ) × (base64url_digit c ≡ some d))
digit-cases c = go (base64url_digit c)
  where
    go : (o : Option ℕ) → (o ≡ none) ⊎ ((d : ℕ) × (o ≡ some d))
    go none = inl refl
    go (some d) = inr (d, refl)

push_byte-some :
    (byte : ℕ) (pushed : Option (List ℕ)) {bytes : List ℕ}
    → push_byte byte pushed ≡ some bytes
    → (rest : List ℕ) × (pushed ≡ some rest) × (bytes ≡ byte ∷ rest)
unfolding push_byte
push_byte-some byte none h = cc
push_byte-some byte (some rest) h = (rest, refl, cc)

-- What one round that does not fail leaves to be decoded.
abbrev Decoded : ℕ → ℕ → ℕ → Text → List ℕ → Type 0
Decoded accumulator bits digit cs bytes =
    (if leb 8 (bits + 6)
      then push_byte ((accumulator * 64 + digit) / 2 ^ (bits + 6 - 8) % 256) (
          decode_loop
            (if bits + 6 - 8 == 0 then 0 else (accumulator * 64 + digit) % 2 ^ (bits + 6 - 8))
            (bits + 6 - 8) cs)
      else decode_loop (accumulator * 64 + digit) (bits + 6) cs)
    ≡ some bytes

decode_loop-Decoded :
    (accumulator bits c : ℕ) (cs : Text) {bytes : List ℕ}
    → decode_loop accumulator bits (c ∷ cs) ≡ some bytes
    → (d : ℕ) × IsDigit c d × Decoded accumulator bits d cs bytes
unfolding decode_loop
decode_loop-Decoded accumulator bits c cs {bytes} h = elim (digit-cases c) [
  | inl bad ↦ let refused = rw (decode_loop, bad) at h in cc
  | inr (d, good) ↦ elim (Bool-cases (leb 8 (bits + 6))) [
    | inl full ↦ (d, base64url_digit-IsDigit c d good, rw full (rw (decode_loop, good, full) at h))
    | inr short ↦
        (d, base64url_digit-IsDigit c d good, rw short (rw (decode_loop, good, short) at h))
  ]
]

module _ (d1 d2 : ℕ) (l1 : d1 < 64) (l2 : d2 < 64) where
  digit_one : (d1 * 64 + d2) / 16 % 256 / 4 ≡ d1
  digit_one = omega (arith, l1, l2)

  last_of_two : (d1 * 64 + d2) % 16 ≡ 0 → (d1 * 64 + d2) / 16 % 256 % 4 * 16 ≡ d2
  last_of_two e = omega (arith, l1, l2, e)

  module _ (d3 : ℕ) (l3 : d3 < 64) where
    abbrev second : ℕ
    second = ((d1 * 64 + d2) % 16 * 64 + d3) / 4 % 256

    digit_two : (d1 * 64 + d2) / 16 % 256 % 4 * 16 + second / 16 ≡ d2
    digit_two = omega (arith, l1, l2, l3)

    last_of_three : ((d1 * 64 + d2) % 16 * 64 + d3) % 4 ≡ 0 → second % 16 * 4 ≡ d3
    last_of_three e = omega (arith, l1, l2, l3, e)

    digit_three :
        (d4 : ℕ)
        → d4 < 64
        → second % 16 * 4 + (((d1 * 64 + d2) % 16 * 64 + d3) % 4 * 64 + d4) / 1 % 256 / 64 ≡ d3
    digit_three d4 l4 = omega (arith, l1, l2, l3, l4)

digit_four : (n d4 : ℕ) → d4 < 64 → (n * 64 + d4) / 1 % 256 % 64 ≡ d4
digit_four n d4 l4 = omega (arith, l4)

sign_eq : {c d e : ℕ} → sign d ≡ c → e ≡ d → sign e ≡ c
sign_eq s e = ap sign e ∙ s

-- The end of the loop accepts no bits but zeros.
end_two :
    (accumulator : ℕ) {bytes : List ℕ}
    → decode_loop accumulator 4 [] ≡ some bytes
    → (accumulator % 16 ≡ 0) × (bytes ≡ [])
unfolding decode_loop
end_two accumulator {bytes} h = elim (Bool-cases (not (accumulator % 16 == 0))) [
  | inl bad ↦ let refused = rw bad at h in cc
  | inr good ↦ let ended = rw good at h in (ground arith, cc)
]

end_three :
    (accumulator : ℕ) {bytes : List ℕ}
    → decode_loop accumulator 2 [] ≡ some bytes
    → (accumulator % 4 ≡ 0) × (bytes ≡ [])
unfolding decode_loop
end_three accumulator {bytes} h = elim (Bool-cases (not (accumulator % 4 == 0))) [
  | inl bad ↦ let refused = rw bad at h in cc
  | inr good ↦ let ended = rw good at h in (ground arith, cc)
]

-- A sign that is read, for a proof that goes on with its digit.
read_first :
    {G : Type 0} (c : ℕ) (cs : Text) {bytes : List ℕ}
    → decode_loop 0 0 (c ∷ cs) ≡ some bytes
    → ((d : ℕ) → IsDigit c d → decode_loop d 6 cs ≡ some bytes → G)
    → G
read_first c cs {bytes} h k =
    let (d, is, rest) = decode_loop-Decoded 0 0 c cs h in
    let same : 0 + d ≡ d = omega arith in
    k d is (subst (λ x. decode_loop x 6 cs ≡ some bytes) same rest)

read_second :
    {G : Type 0} (accumulator c : ℕ) (cs : Text) {bytes : List ℕ}
    → decode_loop accumulator 6 (c ∷ cs) ≡ some bytes
    → ((d : ℕ) (rest : List ℕ)
        → IsDigit c d
        → decode_loop ((accumulator * 64 + d) % 16) 4 cs ≡ some rest
        → bytes ≡ (accumulator * 64 + d) / 16 % 256 ∷ rest
        → G)
    → G
read_second accumulator c cs h k =
    let (d, is, left) = decode_loop-Decoded accumulator 6 c cs h in
    let (rest, e, pushed) = push_byte-some _ _ left in k d rest is e pushed

read_third :
    {G : Type 0} (accumulator c : ℕ) (cs : Text) {bytes : List ℕ}
    → decode_loop accumulator 4 (c ∷ cs) ≡ some bytes
    → ((d : ℕ) (rest : List ℕ)
        → IsDigit c d
        → decode_loop ((accumulator * 64 + d) % 4) 2 cs ≡ some rest
        → bytes ≡ (accumulator * 64 + d) / 4 % 256 ∷ rest
        → G)
    → G
read_third accumulator c cs h k =
    let (d, is, left) = decode_loop-Decoded accumulator 4 c cs h in
    let (rest, e, pushed) = push_byte-some _ _ left in k d rest is e pushed

read_fourth :
    {G : Type 0} (accumulator c : ℕ) (cs : Text) {bytes : List ℕ}
    → decode_loop accumulator 2 (c ∷ cs) ≡ some bytes
    → ((d : ℕ) (rest : List ℕ)
        → IsDigit c d
        → decode_loop 0 0 cs ≡ some rest
        → bytes ≡ (accumulator * 64 + d) / 1 % 256 ∷ rest
        → G)
    → G
read_fourth accumulator c cs h k =
    let (d, is, left) = decode_loop-Decoded accumulator 2 c cs h in
    let (rest, e, pushed) = push_byte-some _ _ left in k d rest is e pushed

no_rest : {x : ℕ} {bytes rest : List ℕ} → bytes ≡ x ∷ rest → rest ≡ [] → bytes ≡ x ∷ []
no_rest {x} e n = e ∙ ap (λ r. x ∷ r) n

end_of_none : {bytes : List ℕ} → decode_loop 0 0 [] ≡ some bytes → bytes ≡ []
unfolding decode_loop
end_of_none h = cc

end_one : (accumulator : ℕ) {bytes : List ℕ} → ¬ (decode_loop accumulator 6 [] ≡ some bytes)
unfolding decode_loop
end_one accumulator h = cc

three_signs :
    {a b c x y z : ℕ} → a ≡ x → b ≡ y → c ≡ z → ◌≡◌ {A = Text} (a ∷ b ∷ c ∷ []) (x ∷ y ∷ z ∷ [])
three_signs e f g = cc

four_signs :
    {a b c d x y z w : ℕ} {s t : Text}
    → a ≡ x
    → b ≡ y
    → c ≡ z
    → d ≡ w
    → s ≡ t
    → ◌≡◌ {A = Text} (a ∷ b ∷ c ∷ d ∷ s) (x ∷ y ∷ z ∷ w ∷ t)
four_signs e f g h k = cc

loop-encode :
    (value : Text) {bytes : List ℕ} → decode_loop 0 0 value ≡ some bytes → encode bytes ≡ value
unfolding encode
loop-encode [] {bytes} h = let nothing = end_of_none h in rw (nothing, encode) refl
loop-encode (c1 ∷ []) {bytes} h = read_first c1 [] h (λ d1 i1 e1. absurd (end_one d1 e1))
loop-encode (c1 ∷ c2 ∷ []) h = read_first c1 (c2 ∷ []) h (λ d1 i1 e1.
    read_second d1 c2 [] e1 (λ d2 rest i2 e2 p2.
      let (zeros, ended) = end_two _ e2 in
      rw (no_rest p2 ended, encode)
        (ap₂ (λ s t. s ∷ t ∷ []) (sign_eq i1.1 (digit_one d1 d2 i1.0 i2.0))
          (sign_eq i2.1 (last_of_two d1 d2 i1.0 i2.0 (omega (arith, zeros)))))))
loop-encode (c1 ∷ c2 ∷ c3 ∷ []) h = read_first c1 (c2 ∷ c3 ∷ []) h (λ d1 i1 e1.
    read_second d1 c2 (c3 ∷ []) e1 (λ d2 rest i2 e2 p2.
      read_third ((d1 * 64 + d2) % 16) c3 [] e2 (λ d3 rest' i3 e3 p3.
        let (zeros, ended) = end_three _ e3 in
        let whole = p2 ∙ ap (λ r. (d1 * 64 + d2) / 16 % 256 ∷ r) (no_rest p3 ended) in
        rw (whole, encode)
          (three_signs (sign_eq i1.1 (digit_one d1 d2 i1.0 i2.0))
            (sign_eq i2.1 (digit_two d1 d2 i1.0 i2.0 d3 i3.0))
            (sign_eq i3.1 (last_of_three d1 d2 i1.0 i2.0 d3 i3.0 (omega (arith, zeros))))))))
loop-encode (c1 ∷ c2 ∷ c3 ∷ c4 ∷ cs) h = read_first c1 (c2 ∷ c3 ∷ c4 ∷ cs) h (λ d1 i1 e1.
    read_second d1 c2 (c3 ∷ c4 ∷ cs) e1 (λ d2 rest i2 e2 p2.
      read_third ((d1 * 64 + d2) % 16) c3 (c4 ∷ cs) e2 (λ d3 rest' i3 e3 p3.
        read_fourth (((d1 * 64 + d2) % 16 * 64 + d3) % 4) c4 cs e3 (λ d4 rest'' i4 e4 p4.
          let whole =
            p2
            ∙ ap (λ r. (d1 * 64 + d2) / 16 % 256 ∷ r)
                (p3 ∙ ap (λ r. ((d1 * 64 + d2) % 16 * 64 + d3) / 4 % 256 ∷ r) p4) in
          rw (whole, encode)
            (four_signs (sign_eq i1.1 (digit_one d1 d2 i1.0 i2.0))
              (sign_eq i2.1 (digit_two d1 d2 i1.0 i2.0 d3 i3.0))
              (sign_eq i3.1 (digit_three d1 d2 i1.0 i2.0 d3 i3.0 d4 i4.0))
              (sign_eq i4.1 (digit_four (((d1 * 64 + d2) % 16 * 64 + d3) % 4) d4 i4.0))
              (loop-encode cs e4))))))

-- What `decode_base64url` accepts is the encoding of the bytes that it returns: digits of the alphabet of
-- base64url, no padding, and zeros in the bits that are left over.
pub decode_base64url-canonical :
    (value : Text) {bytes : List ℕ} → decode_base64url value ≡ some bytes → encode bytes ≡ value
unfolding decode_base64url
decode_base64url-canonical value {bytes} h =
    elim (Bool-cases (length value == 0 || has_padding value || length value % 4 == 1)) [
      | inl refused ↦ let nothing = then_taken _ refused h in cc
      | inr accepted ↦ loop-encode value (else_taken _ accepted h)
    ]
