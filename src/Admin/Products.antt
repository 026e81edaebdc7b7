-- ===== src/Admin/Products.antt =====
-- app/admin/services.py: `_restore_status` and `change_product_status`.
use whs_secure_coding.Prelude.{
  Bool, Option, String, [], false, find, if◌then◌else◌, none, some, true, update, ℕ, ◌==◌, ◌∷◌,
}
use whs_secure_coding.Admin.{
  AdminMutationResult, Mutation, commit_with_audit, ok_or_idempotent, only,
}
use whs_secure_coding.Schema.{Db, Details, Product, ProductStatus, Value}
use whs_secure_coding.Session.{Tx, modify, or_return, pure, query, ◌>>=◌, ◌>>◌}
use whs_secure_coding.Text.{Text, codes, text_eq}

pub data ProductAction : Type 0 where
  hide restore delete : ProductAction

-- `action not in {"hide", "restore", "delete"}`, with the action where it is one.
abbrev pub product_action_of : Text → Option ProductAction
product_action_of t =
    if text_eq t (codes "hide")
    then some ProductAction.hide
    else if text_eq t (codes "restore")
    then some ProductAction.restore
    else if text_eq t (codes "delete")
    then some ProductAction.delete
    else none

abbrev pub product_status_word : ProductStatus → String
product_status_word ProductStatus.active = "active"
product_status_word ProductStatus.hidden = "hidden"
product_status_word ProductStatus.sold = "sold"
product_status_word ProductStatus.deleted = "deleted"

abbrev pub product_audit_action : ProductAction → String
product_audit_action ProductAction.hide = "admin.product.hidden"
product_audit_action ProductAction.restore = "admin.product.restored"
product_audit_action ProductAction.delete = "admin.product.deleted"

-- `previous if previous in {"active", "sold"} else "active"`
abbrev pub restored_status : Option ProductStatus → ProductStatus
restored_status (some ProductStatus.sold) = ProductStatus.sold
restored_status _ = ProductStatus.active

-- `_restore_status`
abbrev pub restore_status : Option ProductStatus → ProductStatus → Option ProductStatus
restore_status previous ProductStatus.hidden = some (restored_status previous)
restore_status previous _ = none

abbrev hidden_from : ProductStatus → Product → Product
hidden_from previous p = record p {
  moderation_previous_status = some previous;
  status = ProductStatus.hidden;
}

abbrev settled_as : ProductStatus → Product → Product
settled_as new p = record p { moderation_previous_status = none; status = new }

-- What an action makes of a product, and `changed`; `none` is INVALID_STATE.
unfoldable pub moderate : ProductAction → Product → ProductStatus → Option (Product × Bool)
moderate ProductAction.hide p ProductStatus.hidden = some (p, false)
moderate ProductAction.hide p ProductStatus.active = some (hidden_from ProductStatus.active p, true)
moderate ProductAction.hide p ProductStatus.sold = some (hidden_from ProductStatus.sold p, true)
moderate ProductAction.hide p ProductStatus.deleted = none
moderate ProductAction.restore p ProductStatus.hidden =
    some (settled_as (restored_status p.moderation_previous_status) p, true)
moderate ProductAction.restore p _ = none
moderate ProductAction.delete p ProductStatus.deleted = some (p, false)
moderate ProductAction.delete p _ = some (settled_as ProductStatus.deleted p, true)

-- `db.session.get(Product, id)`
abbrev pub get_product : ℕ → Db → Option Product
get_product id db = find (λ (p : Product). p.id == id) db.products

abbrev pub put_product : Product → Db → Db
put_product q db = record db {
  products = update (λ (p : Product). p.id == q.id) (λ p. q) db.products;
}

abbrev pub product_details : Product → Product → Details
product_details before after =
    ("previous_status", Value.str (product_status_word before.status))
    ∷ ("new_status", Value.str (product_status_word after.status))
    ∷ []

unfoldable pub change_product_status : ℕ → ℕ → Text → Tx Mutation
change_product_status actor_id product_id action =
    or_return (product_action_of action) (pure (only AdminMutationResult.invalid_state)) λ act. do
      product ← query (get_product product_id)
      or_return product (pure (only AdminMutationResult.not_found)) λ (p : Product).
          or_return (moderate act p p.status) (pure (only AdminMutationResult.invalid_state))
            λ moderated. do
              modify (put_product moderated.0)
              commit_with_audit (only (ok_or_idempotent moderated.1)) actor_id
                  (product_audit_action act) "product" p.id (product_details p moderated.0)
