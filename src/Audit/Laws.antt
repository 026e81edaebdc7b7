-- ===== src/Audit/Laws.antt =====
-- What the audit policy lets through.
use whs_secure_coding.Prelude.{
  Bool, List, Option-cases, String, [], all, arith, inl, inr, not, some, true, ◌∷◌, ◌≡◌,
}
use whs_secure_coding.Audit.Policy.{is_member, is_scalar, is_sensitive, safe_items}
use whs_secure_coding.Schema.{Details, Value}

-- An entry that an action may record: its key is among `allowed` and its value is a scalar.
abbrev pub IsSafe : List String → String × Value → Type 0
IsSafe allowed e = (is_member e.0 allowed ≡ true) × (is_scalar e.1 ≡ true)

abbrev clean_keys : List String → Bool
clean_keys keys = all (λ (k : String). not (is_sensitive k)) keys

pub safe_items-eq : (items kept : Details) → safe_items items ≡ some kept → kept ≡ items
unfolding safe_items
safe_items-eq [] kept h = ground arith
safe_items-eq ((k, v) ∷ items) kept h = elim (Option-cases (safe_items items)) [
  | inl e ↦ ground arith
  | inr (later, e) ↦ ground (arith, safe_items-eq items later e)
]
