-- ===== src/Chat/Payloads.antt =====
-- app/chat/policy.py: `canonical_uuid`, `exact_payload`, `ack_success` and `ack_error`.
-- What a client sends with an event: nothing, an object with its items, or another JSON value.
use whs_secure_coding.Prelude.{
  Bool, List, Option, String, [], all, any, false, find, if◌then◌else◌, none, some, str_eq, true, ℕ,
  ◌&&◌,
}
use whs_secure_coding.Platform.{Platform}
use whs_secure_coding.Text.{Text, text_eq}
use whs_secure_coding.Wallet.Policy.{Arg}

pub data Payload : Type 0 where
  absent : Payload
  object : List (String × Arg) → Payload
  other : Payload

-- `GENERIC_CODES`
pub data Code : Type 0 where
  invalid_payload unauthorized not_found unavailable not_joined rate_limited server_error : Code

-- `ack_success` and `ack_error`.
pub data Ack : Type 0 where
  success : Ack
  error : Code → Ack

abbrev parsed_uuid : Platform → Text → Option ℕ → Option ℕ
parsed_uuid p value none = none
parsed_uuid p value (some n) = if text_eq value (p.uuid_text n) then some n else none

-- `canonical_uuid`, with the UUID of the text.
unfoldable pub canonical_uuid : Platform → Arg → Option ℕ
canonical_uuid p (Arg.str value) = parsed_uuid p value (p.parse_uuid value)
canonical_uuid p _ = none

abbrev pub has_key : String → List (String × Arg) → Bool
has_key key items = any (λ (e : String × Arg). str_eq e.0 key) items

-- `exact_payload`
unfoldable pub exact_payload : Payload → List String → Bool
exact_payload (Payload.object items) keys =
    all (λ (e : String × Arg). any (λ (k : String). str_eq e.0 k) keys) items
    && all (λ (k : String). has_key k items) keys
exact_payload _ keys = false

-- `payload[key]`, where the key is there.
unfoldable pub field : String → Payload → Arg
field key (Payload.object items) = elim (find (λ (e : String × Arg). str_eq e.0 key) items) [
  | none ↦ Arg.other
  | some e ↦ e.1
]
field key _ = Arg.other

-- `payload is not None and payload != {}`
abbrev pub is_filled : Payload → Bool
is_filled Payload.absent = false
is_filled (Payload.object []) = false
is_filled _ = true
