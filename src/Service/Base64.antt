-- ===== src/Service/Base64.antt =====
-- The base64url of tokens and keys: `decode_base64url` of src/service/oidc_token_verifier.cpp. Bytes and
-- characters are their codes.
pub mod Canonical
pub mod RoundTrip
use plywise.Chess.Square.{Text}
use plywise.Prelude.{
  ℕ, ◌+◌, ◌-◌, ◌*◌, ◌/◌, ◌%◌, ◌^◌, Bool, true, false, not, ◌&&◌, ◌||◌, List, [], ◌∷◌, Option, none,
  some, ltb, leb, ◌==◌, if◌then◌else◌, length,
}

unfoldable pub base64url_digit : ℕ → Option ℕ
base64url_digit c =
    if leb b'A' c && leb c b'Z'
    then some (c - b'A')
    else if leb b'a' c && leb c b'z'
    then some (c - b'a' + 26)
    else if leb b'0' c && leb c b'9'
    then some (c - b'0' + 52)
    else if c == b'-'
    then some 62
    else if c == b'_'
    then some 63
    else none

unfoldable pub push_byte : ℕ → Option (List ℕ) → Option (List ℕ)
push_byte byte none = none
push_byte byte (some bytes) = some (byte ∷ bytes)

-- The loop, with what it pushes in front of what follows. The low six bits are clear where a digit is put
-- in by `|`, and the accumulator has less than fourteen bits; a mask is a remainder.
unfoldable pub decode_loop : ℕ → ℕ → Text → Option (List ℕ)
decode_loop accumulator bits [] =
    if leb 6 bits || (ltb 0 bits && not (accumulator % 2 ^ bits == 0)) then none else some []
decode_loop accumulator bits (c ∷ cs) = elim (base64url_digit c) [
  | none ↦ none
  | some digit ↦ elim (leb 8 (bits + 6)) [
    | false ↦ decode_loop (accumulator * 64 + digit) (bits + 6) cs
    | true ↦ push_byte ((accumulator * 64 + digit) / 2 ^ (bits + 6 - 8) % 256) (
        decode_loop
          (if bits + 6 - 8 == 0 then 0 else (accumulator * 64 + digit) % 2 ^ (bits + 6 - 8))
          (bits + 6 - 8) cs)
  ]
]

unfoldable pub has_padding : Text → Bool
has_padding [] = false
has_padding (c ∷ cs) = c == b'=' || has_padding cs

unfoldable pub decode_base64url : Text → Option (List ℕ)
decode_base64url value =
    if length value == 0 || has_padding value || length value % 4 == 1
    then none
    else decode_loop 0 0 value
