-- ===== src/Platform.antt =====
-- What the program calls and does not implement: password hashing (werkzeug), SHA-256 of the UTF-8
-- bytes of a text (hashlib), the text of a UUID, and Unicode normalization. Each is a parameter of
-- the definitions that use it; `PlatformLaws` states documented behaviour.
use whs_secure_coding.Prelude.{Bool, Option, all, length, some, true, ℕ, ◌≡◌}
use whs_secure_coding.Text.{Text, is_hex}

pub record Platform : Type 0 where
  -- `check_password_hash(password_hash, candidate)`
  pub check_password_hash : Text → Text → Bool
  -- `generate_password_hash(candidate)`, with the salt that it draws.
  pub generate_password_hash : ℕ → Text → Text
  -- `hashlib.sha256(s.encode()).hexdigest()`
  pub sha256_hexdigest : Text → Text
  -- `str(uuid)`
  pub uuid_text : ℕ → Text
  -- `uuid.UUID(s)`; none is the ValueError.
  pub parse_uuid : Text → Option ℕ
  -- `unicodedata.normalize("NFC", s)`
  pub nfc : Text → Text

pub record PlatformLaws (p : Platform) : Type 0 where
  -- A password is accepted against each of its own hashes.
  pub check_generated :
      (salt : ℕ) (candidate : Text)
      → p.check_password_hash (p.generate_password_hash salt candidate) candidate ≡ true
  -- A SHA-256 digest is 64 lower case hexadecimal digits.
  pub digest_length : (s : Text) → length (p.sha256_hexdigest s) ≡ 64
  pub digest_hex : (s : Text) → all is_hex (p.sha256_hexdigest s) ≡ true
  -- The canonical text of a UUID has 36 characters, is parsed again, and tells UUIDs apart.
  pub uuid_length : (a : ℕ) → length (p.uuid_text a) ≡ 36
  pub uuid_parsed : (a : ℕ) → p.parse_uuid (p.uuid_text a) ≡ some a
  pub uuid_injective : (a b : ℕ) → p.uuid_text a ≡ p.uuid_text b → a ≡ b
