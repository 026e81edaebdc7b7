-- ===== src/Audit/Display.antt =====
-- What `safe_details_for_display` lets through.
use whs_secure_coding.Prelude.{
  Bool, Option, Option-cases, String, [], all, ap, arith, false, if◌then◌else◌, inl, inr, none, not,
  refl, some, true, ◌&&◌, ◌∙◌, ◌∷◌, ◌≡◌,
}
use whs_secure_coding.Audit.Laws.{safe_items-eq}
use whs_secure_coding.Audit.Policy.{
  action_detail_keys, insert_item, is_scalar, is_sensitive, lookup_keys, safe_details_for_display,
  safe_items, sorted_items, text_leb, validate_audit_details,
}
use whs_secure_coding.Schema.{Details, Value}
use whs_secure_coding.Text.{codes}

-- A detail whose key has no forbidden term, and whose value is a scalar.
abbrev pub is_clean : String × Value → Bool
is_clean (key, value) = not (is_sensitive key) && is_scalar value

passed_clean : (items kept : Details) → safe_items items ≡ some kept → all is_clean items ≡ true
unfolding safe_items all
passed_clean [] kept h = refl
passed_clean ((k, v) ∷ items) kept h = elim (Option-cases (safe_items items)) [
  | inl e ↦ ground arith
  | inr (later, e) ↦ ground (arith, passed_clean items later e)
]

module _ (q : String × Value → Bool) where
  all-insert_item :
      (e : String × Value) (items : Details) → all q (insert_item e items) ≡ (q e && all q items)
  unfolding all insert_item
  all-insert_item e [] = refl
  all-insert_item e (f ∷ rest) =
      by_order (text_leb (codes e.0) (codes f.0)) (all-insert_item e rest)
    where
      by_order :
          (b : Bool)
          → all q (insert_item e rest) ≡ (q e && all q rest)
          → all q (if b then e ∷ f ∷ rest else f ∷ insert_item e rest)
            ≡ (q e && (q f && all q rest))
      by_order true h = refl
      by_order false h = ground (arith, h)

  all-sorted_items : (items : Details) → all q (sorted_items items) ≡ all q items
  unfolding all sorted_items
  all-sorted_items [] = refl
  all-sorted_items (e ∷ rest) =
      all-insert_item e (sorted_items rest) ∙ ap (λ b. q e && b) (all-sorted_items rest)

abbrev shown_of : Option (Option Details) → Details
shown_of none = []
shown_of (some none) = []
shown_of (some (some kept)) = sorted_items kept

validated_items :
    (action : String) (items kept : Details)
    → validate_audit_details action (some items) ≡ some (some kept)
    → safe_items items ≡ some kept
unfolding validate_audit_details
validated_items action items kept h = elim (Option-cases (lookup_keys action action_detail_keys)) [
  | inl e ↦ ground arith
  | inr (allowed, e) ↦ elim (Option-cases (safe_items items)) [
    | inl f ↦ ground arith
    | inr (later, f) ↦ ground arith
  ]
]

shown_clean :
    (action : String) (items : Details) (o : Option (Option Details))
    → validate_audit_details action (some items) ≡ o
    → all is_clean (shown_of o) ≡ true
unfolding all
shown_clean action items none h = refl
shown_clean action items (some none) h = refl
shown_clean action items (some (some kept)) h =
    let passed = validated_items action items kept h in
    all-sorted_items is_clean kept
    ∙ (rw (safe_items-eq items kept passed) (passed_clean items kept passed))

-- Every detail that is shown is a scalar under a key without a forbidden term.
pub safe_details_for_display-clean :
    (action : String) (details : Option Details)
    → all is_clean (safe_details_for_display action details) ≡ true
unfolding safe_details_for_display all
safe_details_for_display-clean action none = refl
safe_details_for_display-clean action (some items) =
    shown_clean action items (validate_audit_details action (some items)) refl
