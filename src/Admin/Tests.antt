-- ===== src/Admin/Tests.antt =====
-- Tests of the administrators' mutations on a small shop, and the theorems at concrete inputs.
use whs_secure_coding.Prelude.{
  All, List, String, [], all, any, arith, count, false, find, map, none, refl, some, true, update,
  ℕ, ◌==◌, ◌∷◌, ◌≡◌,
}
use whs_secure_coding.Admin.{AdminMutationResult, commit_with_audit, only}
use whs_secure_coding.Admin.Decisions.{DecisionCall, after_decisions, decision_final}
use whs_secure_coding.Admin.Guard.{StatusEffect}
use whs_secure_coding.Admin.ListingLaws.{audit_display_clean, listings_complete, on_page}
use whs_secure_coding.Admin.Listings.{
  Search, list_messages, list_products, list_users, message_filter, message_key, message_view,
  messages_with_senders, product_filter, product_key, product_summary, products_with_sellers,
  user_filter, user_key, user_summary,
}
use whs_secure_coding.Admin.Messages.{change_message_visibility, get_message, visibility_details}
use whs_secure_coding.Admin.Reports.{get_report}
use whs_secure_coding.Admin.StatusLaws.{
  IsGuarded, StatusCall, after_status_calls, after_status_calls-IsGuarded,
  change_user_status_guarded, run_status_call,
}
use whs_secure_coding.Admin.Trails.{
  AdminAuditLogView, audit_filter, audit_key, audit_view, list_audit_logs, list_reports,
  list_transfers, report_filter, report_key, report_summary, reports_with_reporters,
  transfer_filter, transfer_view, transfers_with_users,
}
use whs_secure_coding.Admin.Users.{change_user_status, settle_user_status}
use whs_secure_coding.Admin.Visibility.{change_message_visibility_sets, shown_as}
use whs_secure_coding.Audit.{add_audit_log, entry}
use whs_secure_coding.Audit.Display.{is_clean}
use whs_secure_coding.Audit.Policy.{
  is_member, is_sensitive, lookup_keys, safe_items, validate_audit_details,
}
use whs_secure_coding.Listing.{list_page, meets_query, ordered, pages_of}
use whs_secure_coding.Listing.Laws.{numbered_pages}
use whs_secure_coding.Samples.{ids, market}
use whs_secure_coding.Schema.{
  ChatMessage, Db, Product, ProductStatus, Report, ReportStatus, TargetType, Value,
}
use whs_secure_coding.Session.{Signal, ok, open_session, ◌>>=◌}
use whs_secure_coding.Session.Ends.{Unless}
use whs_secure_coding.Text.{Text, codes, contains_text, lower, text_eq}
use whs_secure_coding.Admin.Trails.{entry_key}

abbrev shop_product : ProductStatus → Product
shop_product status = record {
  id = 20;
  seller_id = 2;
  title = codes "bicycle";
  description = [];
  price = 5000;
  image_filename = none;
  status = status;
  moderation_previous_status = none;
  created_at = 1;
}

abbrev filed : ReportStatus → Report
filed status = record {
  id = 30;
  reporter_id = 1;
  target_type = TargetType.product;
  target_id = 20;
  reason = codes "a counterfeit";
  status = status;
  reviewed_by_id = none;
  reviewed_at = none;
  created_at = 2;
}

abbrev said : ChatMessage
said = record {
  id = 40;
  sender_id = 2;
  conversation_id = none;
  body = codes "hello";
  is_hidden = false;
  created_at = 3;
}

abbrev shop : ProductStatus → ReportStatus → Db
shop p r = record market {
  products = shop_product p ∷ [];
  reports = filed r ∷ [];
  messages = said ∷ [];
}

abbrev open_shop : Db
open_shop = shop ProductStatus.active ReportStatus.pending

abbrev status_call : ℕ → String → String → List Signal → StatusCall
status_call actor name status signals = record {
  actor_id = actor;
  target_username = codes name;
  new_status = codes status;
  signals = signals;
  uuids = ids;
  now = 5;
}

abbrev decision_call : String → DecisionCall
decision_call decision = record {
  actor_id = 3;
  report_id = 30;
  decision = codes decision;
  signals = [];
  uuids = ids;
  now = 5;
}

abbrev status_calls : List StatusCall
status_calls =
    status_call 3 "alice" "dormant" []
    ∷ status_call 3 "carol" "dormant" []
    ∷ status_call 1 "carol" "dormant" (Signal.fine ∷ Signal.fine ∷ Signal.lost ∷ [])
    ∷ []

-- Carol, the only active administrator, cannot be made dormant by a request of another id.
last_admin_stays :
    (run_status_call (status_call 1 "carol" "dormant" []) market).0
    ≡ ok (only AdminMutationResult.last_admin)
unfolding change_user_status settle_user_status commit_with_audit add_audit_log
    validate_audit_details lookup_keys is_member safe_items is_sensitive ◌>>=◌ text_eq find count
    update
last_admin_stays = refl

alice_dormant :
    (run_status_call (status_call 3 "alice" "dormant" []) market).0
    ≡ ok (record { result = AdminMutationResult.done; disconnects = some 1 })
unfolding change_user_status settle_user_status commit_with_audit add_audit_log
    validate_audit_details lookup_keys is_member safe_items is_sensitive ◌>>=◌ text_eq find count
    update
alice_dormant = refl

market-IsGuarded : IsGuarded market
unfolding count
market-IsGuarded = record { one_row = λ i. ground arith; some_admin = ground arith }

after_status_calls-IsGuarded_example : IsGuarded (after_status_calls status_calls market)
after_status_calls-IsGuarded_example =
    after_status_calls-IsGuarded status_calls market market-IsGuarded

change_user_status_guarded_example :
    let (r, t) =
      change_user_status 3
        (codes "alice")
        (codes "dormant")
        (open_session market (Signal.fine ∷ Signal.lost ∷ []) ids 5) in
    Unless market
      (λ d o. StatusEffect 3 (codes "alice") (codes "dormant") market d o)
      r
      t.working
      t.committed
change_user_status_guarded_example =
    change_user_status_guarded 3 (codes "alice") (codes "dormant") market
      (Signal.fine ∷ Signal.lost ∷ []) ids 5

decision_final_example :
    get_report 30 (
      after_decisions
        (decision_call "confirm" ∷ decision_call "reject" ∷ [])
        (shop ProductStatus.active ReportStatus.rejected))
    ≡ some (filed ReportStatus.rejected)
unfolding find
decision_final_example =
    decision_final (decision_call "confirm" ∷ decision_call "reject" ∷ [])
      (shop ProductStatus.active ReportStatus.rejected) 30 (filed ReportStatus.rejected) refl refl

change_message_visibility_sets_example :
    let (r, t) = change_message_visibility 3 40 (codes "hide") (open_session open_shop [] ids 5) in
    (r ≡ ok (only AdminMutationResult.done))
    × (t.committed.audit_logs
        ≡ entry 100 5
            (some 3)
            "admin.message.hidden"
            "message"
            (some 40)
            (some (visibility_details said true))
          ∷ [])
    × (get_message 40 t.committed ≡ some (shown_as true said))
    × ((i : ℕ) → (40 == i) ≡ false → get_message i t.committed ≡ get_message i open_shop)
    × (t.committed
        ≡ record open_shop { messages = t.committed.messages; audit_logs = t.committed.audit_logs })
unfolding find text_eq
change_message_visibility_sets_example =
    change_message_visibility_sets 3 40 (codes "hide") open_shop ids 5 true said refl refl

abbrev by_name : Search
by_name = record { query = some (codes "A"); sort = codes "oldest"; page = 1; per_page = 2 }

-- Alice, Carol and Daniel have an `a` in their names.
listed_users : (list_users by_name [] [] market).pages ≡ 2
unfolding list_users list_page pages_of count user_filter meets_query any contains_text lower
    text_eq
listed_users = refl

abbrev any_word : Text
any_word = []

listings_complete_example :
    (numbered_pages
        (λ n. list_users (on_page by_name n) any_word any_word open_shop)
        (list_users by_name any_word any_word open_shop).pages
      ≡ map user_summary
          (ordered user_key (user_filter by_name.query any_word any_word) true open_shop.users))
    × (numbered_pages
          (λ n. list_products (on_page by_name n) any_word open_shop)
          (list_products by_name any_word open_shop).pages
        ≡ map product_summary (
            ordered product_key
              (product_filter by_name.query any_word)
              true
              (products_with_sellers open_shop)))
    × (numbered_pages
          (λ n. list_messages (on_page by_name n) any_word any_word open_shop)
          (list_messages by_name any_word any_word open_shop).pages
        ≡ map message_view (
            ordered message_key
              (message_filter by_name.query any_word any_word)
              true
              (messages_with_senders open_shop)))
    × (numbered_pages
          (λ n. list_transfers (on_page by_name n) open_shop)
          (list_transfers by_name open_shop).pages
        ≡ map transfer_view (
            ordered entry_key
              (transfer_filter by_name.query)
              true
              (transfers_with_users open_shop)))
    × (numbered_pages
          (λ n. list_audit_logs (on_page by_name n) any_word open_shop)
          (list_audit_logs by_name any_word open_shop).pages
        ≡ map
            (audit_view open_shop)
            (ordered audit_key (audit_filter by_name.query any_word) true open_shop.audit_logs))
    × (numbered_pages
          (λ n. list_reports (on_page by_name n) any_word any_word open_shop)
          (list_reports by_name any_word any_word open_shop).pages
        ≡ map (report_summary open_shop) (
            ordered report_key
              (report_filter by_name.query any_word any_word)
              true
              (reports_with_reporters open_shop)))
unfolding text_eq
listings_complete_example = listings_complete by_name any_word any_word open_shop (omega arith)

abbrev leaked : Db
leaked = record market {
  audit_logs =
      entry 50 1 none "admin.user.dormant" "user" none
        (some (("password_hash", Value.str "x") ∷ []))
      ∷ [];
}

audit_display_clean_example :
    All
      (λ (v : AdminAuditLogView). all is_clean v.details ≡ true)
      (list_audit_logs by_name any_word leaked).items
audit_display_clean_example = audit_display_clean by_name any_word leaked
