-- ===== src/Wallet/Keys.antt =====
-- The idempotency key tells senders and tokens apart.
use whs_secure_coding.Prelude.{[], arith, length, refl, sym, ℕ, ◌++◌, ◌∙◌, ◌∷◌, ◌≡◌}
use whs_secure_coding.Platform.{Platform, PlatformLaws}
use whs_secure_coding.Text.{Text}
use whs_secure_coding.Wallet.Policy.{derive_idempotency_key}

append_cancel : (a b x y : Text) → length a ≡ length b → a ++ x ≡ b ++ y → (a ≡ b) × (x ≡ y)
append_cancel [] [] x y n e = (refl, e)
append_cancel [] (d ∷ b) x y n e = absurd (omega arith)
append_cancel (c ∷ a) [] x y n e = absurd (omega arith)
append_cancel (c ∷ a) (d ∷ b) x y n e =
    let (p, q) = append_cancel a b x y (omega arith) (cc) in (cc, q)

-- Two requests have one key only if they have one sender and one token, where SHA-256 does not
-- collide on their two texts: no user's token can meet the transfer of another.
pub derive_idempotency_key_injective :
    (p : Platform)
    → PlatformLaws p
    → (s s' : ℕ) (t t' : Text)
    → (p.sha256_hexdigest (p.uuid_text s ++ b':' ∷ t)
          ≡ p.sha256_hexdigest (p.uuid_text s' ++ b':' ∷ t')
        → p.uuid_text s ++ b':' ∷ t ≡ p.uuid_text s' ++ b':' ∷ t')
    → derive_idempotency_key p s t ≡ derive_idempotency_key p s' t'
    → (s ≡ s') × (t ≡ t')
unfolding derive_idempotency_key
derive_idempotency_key_injective p l s s' t t' no_collision e =
    let (same_id, same_rest) =
      append_cancel (p.uuid_text s) (p.uuid_text s') (b':' ∷ t) (b':' ∷ t')
        (l.uuid_length s ∙ sym (l.uuid_length s')) (no_collision e) in
    (l.uuid_injective s s' same_id, cc)
