-- ===== src/Errors.antt =====
-- include/pct/common/error.hpp: an exception is a value of `Result`, its code without the message.
use plywise.Prelude.{◌≡◌, refl}

pub data ErrorCode : Type 0 where
  invalid_argument parse_error illegal_move io_error network_error engine_error : ErrorCode
  timeout quota_exceeded corruption not_found unsupported : ErrorCode

-- What a function that may throw returns.
pub data Result {ℓ} (A : Type ℓ) : Type ℓ where
  err : ErrorCode → Result A
  ok : A → Result A

infixl 5 ◌>>=◌
-- The next statement runs on what was returned; an exception passes it by.
abbrev pub ◌>>=◌ {ℓ κ} : {R : Type ℓ} {S : Type κ} → Result R → (R → Result S) → Result S
err thrown >>= next = err thrown
ok value >>= next = next value

-- A chain that ends well has passed through a value.
pub >>=-through {ℓ κ} :
    {R : Type ℓ} {S : Type κ} {last : S} (first : Result R) (next : R → Result S)
    → (first >>= next) ≡ ok last
    → (value : R) × (first ≡ ok value) × (next value ≡ ok last)
>>=-through (err thrown) next h = cc
>>=-through (ok value) next h = (value, refl, h)

-- The same, for a proof that goes on with the value.
pub >>=-split {ℓ κ ι} :
    {R : Type ℓ} {S : Type κ} {G : Type ι} {last : S} (first : Result R) {next : R → Result S}
    → (first >>= next) ≡ ok last
    → ((value : R) → first ≡ ok value → next value ≡ ok last → G)
    → G
>>=-split (err thrown) h k = cc
>>=-split (ok value) h k = k value refl h
