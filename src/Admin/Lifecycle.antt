-- ===== src/Admin/Lifecycle.antt =====
-- How `change_product_status` ends, whatever the database does.
use whs_secure_coding.Prelude.{Bool, refl, some, ℕ, ◌≡◌, ◌≢◌, ◌⊎◌}
use whs_secure_coding.Admin.{AdminMutationResult, Mutation, ok_or_idempotent, only}
use whs_secure_coding.Admin.Products.{
  ProductAction, change_product_status, get_product, moderate, product_action_of,
  product_audit_action, product_details, put_product,
}
use whs_secure_coding.Admin.Recorded.{Recorded, commit_with_audit-Recorded}
use whs_secure_coding.Audit.{add_row, entry}
use whs_secure_coding.Audit.Policy.{
  is_member, is_sensitive, lookup_keys, safe_items, validate_audit_details,
}
use whs_secure_coding.Schema.{Db, Product, ProductStatus}
use whs_secure_coding.Session.{pure}
use whs_secure_coding.Session.Ends.{
  Ends, Ends-modify, Ends-or_return, Ends-pure, Ends-query, Post, Unless,
}
use whs_secure_coding.Text.{Text}

pub data ProductEffect (actor_id product_id : ℕ) (action : Text) (db d : Db) (o : Mutation)
    : Type 0 where
  kept :
      d ≡ db
      → o.result ≢ AdminMutationResult.done
      → o.result ≢ AdminMutationResult.idempotent
      → ProductEffect actor_id product_id action db d o
  settled :
      (act : ProductAction) (p q : Product) (changed : Bool) (audit_id now : ℕ)
      → product_action_of action ≡ some act
      → get_product product_id db ≡ some p
      → moderate act p p.status ≡ some (q, changed)
      → d
        ≡ add_row
            (entry audit_id now
              (some actor_id)
              (product_audit_action act)
              "product"
              (some p.id)
              (some (product_details p q)))
            (put_product q db)
      → (o ≡ only (ok_or_idempotent changed)) ⊎ (o ≡ only AdminMutationResult.database_error)
      → ProductEffect actor_id product_id action db d o

product_details_safe :
    (act : ProductAction) (p q : Product) (s t : ProductStatus)
    → s ≡ p.status
    → t ≡ q.status
    → validate_audit_details (product_audit_action act) (some (product_details p q))
      ≡ some (some (product_details p q))
unfolding validate_audit_details lookup_keys is_member safe_items is_sensitive
product_details_safe ProductAction.hide p q s t e f = refl
product_details_safe ProductAction.restore p q s t e f = refl
product_details_safe ProductAction.delete p q s t e f = refl

module _ (actor_id product_id : ℕ) (action : Text) (db : Db) where
  abbrev pub ProductPost : Post Mutation
  ProductPost = Unless db (λ d o. ProductEffect actor_id product_id action db d o)

  Recorded-ProductEffect :
      (act : ProductAction) (p q : Product) (changed : Bool)
      → product_action_of action ≡ some act
      → get_product product_id db ≡ some p
      → moderate act p p.status ≡ some (q, changed)
      → (d : Db) (o : Mutation)
      → Recorded db
          (put_product q db)
          (only (ok_or_idempotent changed))
          actor_id
          (product_audit_action act)
          "product"
          p.id
          (product_details p q)
          d
          o
      → ProductEffect actor_id product_id action db d o
  Recorded-ProductEffect act p q changed known found next_is d o (Recorded.rolled_back same reply) =
      kept same (λ e. cc) (λ e. cc)
  Recorded-ProductEffect act p q changed known found next_is d o
        (Recorded.recorded audit_id now after reply) =
      settled act p q changed audit_id now known found next_is after reply

  refused-Ends :
      (r : AdminMutationResult)
      → r ≢ AdminMutationResult.done
      → r ≢ AdminMutationResult.idempotent
      → Ends db db (pure (only r)) ProductPost
  refused-Ends r h k = Ends-pure _ (kept refl h k)

  pub change_product_status-Ends :
      Ends db db (change_product_status actor_id product_id action) ProductPost
  unfolding change_product_status
  change_product_status-Ends =
      Ends-or_return _ (λ bad. refused-Ends _ (λ e. cc) (λ e. cc))
        λ act known.
          Ends-query _ _ (λ e. refl)
            (Ends-or_return _ (λ missing. refused-Ends _ (λ e. cc) (λ e. cc))
              λ p found.
                Ends-or_return _ (λ bad. refused-Ends _ (λ e. cc) (λ e. cc))
                  λ moderated next_is. Ends-modify _ _ (
                    commit_with_audit-Recorded
                      (λ d o. ProductEffect actor_id product_id action db d o) _ actor_id _
                      "product" _ _ refl (product_details_safe act p moderated.0 _ _ refl refl)
                      (Recorded-ProductEffect act p moderated.0 moderated.1 known found next_is)))
