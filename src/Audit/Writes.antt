-- ===== src/Audit/Writes.antt =====
-- `add_audit_log` as a step of a transaction: with details that the policy takes, it adds one row.
use whs_secure_coding.Prelude.{Option, String, [], ap, refl, some, suc, true, ℕ, ◌∷◌, ◌≡◌}
use whs_secure_coding.Audit.{add_audit_log, add_row, entry, valid_target_type}
use whs_secure_coding.Audit.Policy.{
  is_member, is_sensitive, lookup_keys, safe_items, validate_audit_details,
}
use whs_secure_coding.Schema.{Db, Details, Value}
use whs_secure_coding.Session.{Tx, ◌>>=◌}
use whs_secure_coding.Session.Ends.{Ends, Post}

module _ {B : Type 0} {w d : Db} {Q : Post B} where
  pub Ends-add_audit_log :
      (actor : Option ℕ) (action target_type : String) (target_id : Option ℕ)
      (details : Option Details) (k : Unit {0} → Tx B)
      → valid_target_type target_type ≡ true
      → validate_audit_details action details ≡ some details
      → ((id now : ℕ)
          → Ends (add_row (entry id now actor action target_type target_id details) w) d (k tt) Q)
      → Ends w d (add_audit_log actor action target_type target_id details >>= k) Q
  unfolding add_audit_log ◌>>=◌
  Ends-add_audit_log actor action target_type target_id details k valid safe h =
      rw (valid, safe)
        (record {
          at = λ s hw hd.
              let add =
                add_row (entry (s.uuids 0) s.now actor action target_type target_id details) in
              (h (s.uuids 0) s.now).at
                (record s { working = add s.working; uuids = λ n. s.uuids (suc n) }) (ap add hw) hd;
        })

-- The details that `create_transfer` records.
pub transfer_created_details :
    (amount : ℕ)
    → validate_audit_details "transfer.created" (some (("amount", Value.num amount) ∷ []))
      ≡ some (some (("amount", Value.num amount) ∷ []))
unfolding validate_audit_details lookup_keys is_member safe_items is_sensitive
transfer_created_details amount = refl
