-- ===== src/Audit/Policy.antt =====
-- app/audit/policy.py: which details an action may record, and which are shown.
use whs_secure_coding.Prelude.{
  Bool, List, Option, String, [], all, any, false, if◌then◌else◌, ltb, none, some, str_eq, true,
  ◌&&◌, ◌==◌, ◌||◌, ◌∷◌,
}
use whs_secure_coding.Schema.{Details, Value}
use whs_secure_coding.Text.{Text, codes, contains_text, lower}

abbrev pub status_change : List String
status_change = "previous_status" ∷ "new_status" ∷ []

abbrev pub restriction : List String
restriction = "previous_status" ∷ "new_status" ∷ "report_count" ∷ []

abbrev pub report_decision : List String
report_decision = "target_type" ∷ "decision" ∷ "previous_status" ∷ "new_status" ∷ []

abbrev pub visibility_change : List String
visibility_change = "previous_visibility" ∷ "new_visibility" ∷ "scope" ∷ []

-- `ACTION_DETAIL_KEYS`
abbrev pub action_detail_keys : List (String × List String)
action_detail_keys =
    ("transfer.created", "amount" ∷ [])
    ∷ ("report.created", "target_type" ∷ [])
    ∷ ("moderation.product.auto_hidden", restriction)
    ∷ ("moderation.user.auto_dormant", restriction)
    ∷ ("admin.account_created", "username" ∷ [])
    ∷ ("admin.user.dormant", status_change)
    ∷ ("admin.user.active", status_change)
    ∷ ("admin.product.hidden", status_change)
    ∷ ("admin.product.restored", status_change)
    ∷ ("admin.product.deleted", status_change)
    ∷ ("admin.report.confirmed", report_decision)
    ∷ ("admin.report.rejected", report_decision)
    ∷ ("admin.message.hidden", visibility_change)
    ∷ ("admin.message.visible", visibility_change)
    ∷ []

-- `FORBIDDEN_DETAIL_TERMS`
abbrev pub forbidden_detail_terms : List String
forbidden_detail_terms =
    "password" ∷ "password_hash" ∷ "secret" ∷ "csrf" ∷ "session" ∷ "cookie" ∷ "auth_version"
    ∷ "idempotency" ∷ "sid" ∷ "reason" ∷ "token" ∷ "balance" ∷ "recipient" ∷ []

-- `d.get(k)`
unfoldable pub lookup_keys : String → List (String × List String) → Option (List String)
lookup_keys k [] = none
lookup_keys k ((j, v) ∷ m) = if str_eq j k then some v else lookup_keys k m

-- `isinstance(value, SCALAR_TYPES)`
abbrev pub is_scalar : Value → Bool
is_scalar Value.other = false
is_scalar _ = true

unfoldable pub is_sensitive : String → Bool
unfolding any lower contains_text
is_sensitive key =
    any (λ (term : String). contains_text (codes term) (lower (codes key))) forbidden_detail_terms

-- `key in allowed_keys`
unfoldable pub is_member : String → List String → Bool
unfolding any
is_member key keys = any (λ (k : String). str_eq k key) keys

-- The loop over `details.items()`; `none` is the ValueError.
unfoldable pub safe_items : Details → Option Details
safe_items [] = some []
safe_items ((key, value) ∷ rest) =
    let later = safe_items rest in
    if is_sensitive key
    then none
    else if is_scalar value
    then elim later [ none ↦ none | some safe ↦ some ((key, value) ∷ safe) ]
    else none

-- `validate_audit_details`; `none` is the ValueError, `some none` is the result None.
unfoldable pub validate_audit_details : String → Option Details → Option (Option Details)
unfolding all
validate_audit_details action details = elim (lookup_keys action action_detail_keys) [
  | none ↦ none
  | some allowed ↦ elim details [
    | none ↦ some none
    | some items ↦
        if all (λ ((key, value) : String × Value). is_member key allowed) items
        then elim (safe_items items) [ none ↦ none | some safe ↦ some (some safe) ]
        else none
  ]
]

-- The order of texts by code points.
unfoldable pub text_leb : Text → Text → Bool
text_leb [] t = true
text_leb (c ∷ s) [] = false
text_leb (c ∷ s) (d ∷ t) = ltb c d || (c == d && text_leb s t)

unfoldable pub insert_item : (String × Value) → Details → Details
unfolding text_leb
insert_item e [] = e ∷ []
insert_item e (f ∷ rest) =
    if text_leb (codes e.0) (codes f.0) then e ∷ f ∷ rest else f ∷ insert_item e rest

-- `sorted(details.items())`: the keys of a dict differ, so the values are never compared.
unfoldable pub sorted_items : Details → Details
unfolding insert_item
sorted_items [] = []
sorted_items (e ∷ rest) = insert_item e (sorted_items rest)

-- `safe_details_for_display`; the argument is None where the stored JSON is no object.
unfoldable pub safe_details_for_display : String → Option Details → Details
unfolding sorted_items
safe_details_for_display action none = []
safe_details_for_display action (some items) = elim (validate_audit_details action (some items)) [
  | none ↦ []
  | some safe ↦ elim safe [ none ↦ [] | some kept ↦ sorted_items kept ]
]
