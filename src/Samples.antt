-- ===== src/Samples.antt =====
-- Concrete data for the tests: a platform whose hash of a password is the password, two users with
-- wallets, and requests between them.
use whs_secure_coding.Prelude.{
  Option, String, [], all, none, refl, some, suc, zero, ℕ, ◌+◌, ◌∷◌, ◌≡◌,
}
use whs_secure_coding.Platform.{Platform, PlatformLaws}
use whs_secure_coding.Schema.{Db, Role, User, UserStatus, Wallet, empty_db}
use whs_secure_coding.Text.{Text, codes, text_eq}
use whs_secure_coding.Text.Laws.{text_eq_refl}

abbrev pub zeros : ℕ → Text
zeros zero = []
zeros (suc n) = b'0' ∷ zeros n

abbrev first_code : Text → Option ℕ
first_code [] = none
first_code (n ∷ s) = some n

abbrev pub plain : Platform
plain = record {
  check_password_hash = λ h c. text_eq h c;
  generate_password_hash = λ salt c. c;
  sha256_hexdigest = λ s. zeros 64;
  uuid_text = λ n. n ∷ zeros 35;
  parse_uuid = first_code;
  nfc = λ s. s;
}

plain_uuid : (a b : ℕ) → ◌≡◌ {A = Text} (a ∷ zeros 35) (b ∷ zeros 35) → a ≡ b
plain_uuid a b e = cc

pub plain-PlatformLaws : PlatformLaws plain
unfolding all
plain-PlatformLaws = record {
  check_generated = λ salt c. text_eq_refl c;
  digest_length = λ s. refl;
  digest_hex = λ s. refl;
  uuid_length = λ a. refl;
  uuid_parsed = λ a. refl;
  uuid_injective = λ a b e. plain_uuid a b e;
}

abbrev pub member : ℕ → String → Role → UserStatus → User
member id name role status = record {
  id = id;
  username = codes name;
  password_hash = codes "correct horse";
  bio = [];
  role = role;
  status = status;
  auth_version = 1;
  created_at = 0;
}

abbrev pub wallet : ℕ → ℕ → Wallet
wallet id balance = record { user_id = id; balance = balance }

abbrev pub market : Db
market = record empty_db {
  users =
      member 1 "alice" Role.user UserStatus.active
      ∷ member 2 "bobby" Role.user UserStatus.active
      ∷ member 3 "carol" Role.admin UserStatus.active
      ∷ member 4 "daniel" Role.user UserStatus.dormant
      ∷ [];
  wallets = wallet 1 100000 ∷ wallet 2 100000 ∷ wallet 3 100000 ∷ wallet 4 100000 ∷ [];
}

-- The ids that are drawn next: 100, 101, …
abbrev pub ids : ℕ → ℕ
ids n = 100 + n
