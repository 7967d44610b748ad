-- ===== src/Examples/Service.antt =====
-- Tokens: tests, and the theorems at concrete inputs.
use plywise.Chess.Square.{codes}
use plywise.Prelude.{some, arith, ℕ, ◌≡◌, refl, false, [], ◌∷◌, none}
use plywise.Service.Base64.Canonical.{encode, decode_base64url-canonical}
use plywise.Service.Base64.RoundTrip.{decode_base64url-encode}
use plywise.Service.Base64.{base64url_digit, push_byte, decode_loop, has_padding, decode_base64url}
use plywise.Service.Keys.Guarded.{IsGuarded, Reachable-IsGuarded}
use plywise.Service.Keys.Steps.{Verifier, ask, asks, at_first, then_step}
use plywise.Service.Keys.{
  find_kid, is_known, is_fresh, may_refresh, after_miss, begin_lookup, no_keys,
}

abbrev a_minute : ℕ
a_minute = 60000000000

abbrev a_minute_and_half : ℕ
a_minute_and_half = 90000000000

abbrev asked : Verifier ℕ
asked = ask ℕ (record { cache = no_keys; refreshing = [] }) a_minute (codes "k1")

-- The first lookup refreshes the keys.
asked-refreshing : asked.refreshing ≡ (codes "k1", false) ∷ []
unfolding begin_lookup is_fresh is_known find_kid after_miss may_refresh
asked-refreshing = refl

asked_twice : Verifier ℕ
asked_twice = ask ℕ asked a_minute (codes "k2")

Reachable-IsGuarded_example : IsGuarded asked_twice
unfolding asked_twice
Reachable-IsGuarded_example =
    Reachable-IsGuarded
      (then_step (then_step at_first (asks a_minute (codes "k1"))) (asks a_minute (codes "k2")))

-- Within thirty seconds of the clock's start no key can be had.
too_early : (begin_lookup {K = ℕ} no_keys 29000000000 (codes "k1")).0 ≡ no_keys
unfolding begin_lookup is_fresh is_known find_kid after_miss may_refresh
too_early = refl

decode_base64url-canonical_example : encode (codes "a~") ≡ codes "YX4"
unfolding decode_base64url has_padding decode_loop push_byte base64url_digit
decode_base64url-canonical_example = decode_base64url-canonical (codes "YX4") refl

-- The same bytes with a bit left over.
left_over_bit : decode_base64url (codes "YX5") ≡ none
unfolding decode_base64url has_padding decode_loop push_byte base64url_digit
left_over_bit = refl

decode_base64url-encode_example :
    decode_base64url (encode (0 ∷ 255 ∷ 16 ∷ 9 ∷ [])) ≡ some (0 ∷ 255 ∷ 16 ∷ 9 ∷ [])
decode_base64url-encode_example =
    decode_base64url-encode (0 ∷ 255 ∷ 16 ∷ 9 ∷ [])
      (omega arith, (omega arith, (omega arith, (omega arith, tt)))) (λ e. cc)
