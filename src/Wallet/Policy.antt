-- ===== src/Wallet/Policy.antt =====
-- app/wallet/policy.py.
use whs_secure_coding.Prelude.{
  ℕ, Bool, ◌&&◌, ◌||◌, Option, some, none, ◌∷◌, ◌++◌, leb, ◌==◌, if◌then◌else◌, length, all,
}
use whs_secure_coding.Text.{Text, strip, is_word, matches_username}
use whs_secure_coding.Platform.{Platform}

-- A value of Python's type `object`, as far as the program looks at it; `negative n` is -(n + 1).
pub data Arg : Type 0 where
  str : Text → Arg
  int negative : ℕ → Arg
  bool : Bool → Arg
  other : Arg

-- `normalize_recipient_username`
unfoldable pub normalize_recipient_username : Arg → Option Text
normalize_recipient_username (Arg.str value) =
    let normalized = strip value in
    if leb 4 (length normalized) && leb (length normalized) 32 && matches_username normalized
    then some normalized
    else none
normalize_recipient_username _ = none

-- `[A-Za-z0-9_-]`
abbrev pub is_token_char : ℕ → Bool
is_token_char c = is_word c || c == b'-'

-- `valid_idempotency_token`, with the text where it is one.
unfoldable pub valid_idempotency_token : Arg → Option Text
valid_idempotency_token (Arg.str value) =
    if length value == 43 && all is_token_char value then some value else none
valid_idempotency_token _ = none

-- `derive_idempotency_key`
unfoldable pub derive_idempotency_key : Platform → ℕ → Text → Text
derive_idempotency_key p sender raw_token =
    p.sha256_hexdigest (p.uuid_text sender ++ b':' ∷ raw_token)
