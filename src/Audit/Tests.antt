-- ===== src/Audit/Tests.antt =====
-- Tests of the audit policy.
use whs_secure_coding.Prelude.{[], none, refl, some, ◌∷◌, ◌≡◌}
use whs_secure_coding.Audit.Policy.{
  is_member, is_sensitive, lookup_keys, safe_details_for_display, safe_items,
  validate_audit_details,
}
use whs_secure_coding.Schema.{Details, Value}

abbrev change : Details
change = ("previous_status", Value.str "active") ∷ ("new_status", Value.str "hidden") ∷ []

-- A password among the details is refused, for every action.
no_password :
    validate_audit_details "admin.account_created" (some (("password", Value.str "x") ∷ [])) ≡ none
unfolding validate_audit_details lookup_keys is_member safe_items is_sensitive
no_password = refl

-- What is shown is in the order of the keys.
shown :
    safe_details_for_display "admin.product.hidden" (some change)
    ≡ ("new_status", Value.str "hidden") ∷ ("previous_status", Value.str "active") ∷ []
unfolding safe_details_for_display validate_audit_details lookup_keys is_member safe_items
    is_sensitive
shown = refl
