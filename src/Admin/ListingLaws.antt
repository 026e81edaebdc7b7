-- ===== src/Admin/ListingLaws.antt =====
-- What the administrators' listings show.
use whs_secure_coding.Prelude.{All, all, map, refl, true, ℕ, ◌≡◌, ◌≤◌}
use whs_secure_coding.Admin.Listings.{
  Search, list_messages, list_products, list_users, message_filter, message_key, message_view,
  messages_with_senders, product_filter, product_key, product_summary, products_with_sellers,
  user_filter, user_key, user_summary,
}
use whs_secure_coding.Admin.Trails.{
  AdminAuditLogView, audit_filter, audit_key, audit_view, list_audit_logs, list_reports,
  list_transfers, report_filter, report_key, report_summary, reports_with_reporters,
  transfer_filter, transfer_view, transfers_with_users, entry_key,
}
use whs_secure_coding.Audit.Display.{is_clean, safe_details_for_display-clean}
use whs_secure_coding.Listing.{is_oldest, list_page, ordered}
use whs_secure_coding.Listing.Laws.{list_page_complete, numbered_pages, page-view}
use whs_secure_coding.Schema.{Db}
use whs_secure_coding.Text.{Text}

-- With the page `n`.
abbrev pub on_page : Search → ℕ → Search
on_page q n = record q { page = n }

-- Whatever the filters, and for at least one row per page: page after page, up to `pages`, the
-- listings of users, products, messages, transfers, audit rows and reports show each row that the
-- filters take once, in the order asked for.
pub listings_complete :
    (q : Search) (x y : Text) (db : Db)
    → 1 ≤ q.per_page
    → (numbered_pages (λ n. list_users (on_page q n) x y db) (list_users q x y db).pages
        ≡ map user_summary (ordered user_key (user_filter q.query x y) (is_oldest q.sort) db.users))
      × (numbered_pages (λ n. list_products (on_page q n) x db) (list_products q x db).pages
          ≡ map product_summary (
              ordered product_key
                (product_filter q.query x)
                (is_oldest q.sort)
                (products_with_sellers db)))
      × (numbered_pages (λ n. list_messages (on_page q n) x y db) (list_messages q x y db).pages
          ≡ map message_view (
              ordered message_key
                (message_filter q.query x y)
                (is_oldest q.sort)
                (messages_with_senders db)))
      × (numbered_pages (λ n. list_transfers (on_page q n) db) (list_transfers q db).pages
          ≡ map transfer_view (
              ordered entry_key
                (transfer_filter q.query)
                (is_oldest q.sort)
                (transfers_with_users db)))
      × (numbered_pages (λ n. list_audit_logs (on_page q n) x db) (list_audit_logs q x db).pages
          ≡ map
              (audit_view db)
              (ordered audit_key (audit_filter q.query x) (is_oldest q.sort) db.audit_logs))
      × (numbered_pages (λ n. list_reports (on_page q n) x y db) (list_reports q x y db).pages
          ≡ map (report_summary db) (
              ordered report_key
                (report_filter q.query x y)
                (is_oldest q.sort)
                (reports_with_reporters db)))
unfolding list_users list_products list_messages list_transfers list_audit_logs list_reports
    list_page
listings_complete q x y db h = (
  list_page_complete user_key user_summary (user_filter q.query x y) (is_oldest q.sort) q.per_page
      db.users h,
  list_page_complete product_key product_summary (product_filter q.query x) (is_oldest q.sort)
      q.per_page (products_with_sellers db) h,
  list_page_complete message_key message_view (message_filter q.query x y) (is_oldest q.sort)
      q.per_page (messages_with_senders db) h,
  list_page_complete entry_key transfer_view (transfer_filter q.query) (is_oldest q.sort) q.per_page
      (transfers_with_users db) h,
  list_page_complete audit_key (audit_view db) (audit_filter q.query x) (is_oldest q.sort)
      q.per_page db.audit_logs h,
  list_page_complete report_key (report_summary db) (report_filter q.query x y) (is_oldest q.sort)
      q.per_page (reports_with_reporters db) h,
)

-- Whatever the audit log holds, and whatever the filters and the page: every detail that
-- `list_audit_logs` shows is a scalar under a key without a forbidden term.
pub audit_display_clean :
    (q : Search) (target_type : Text) (db : Db)
    → All
        (λ (v : AdminAuditLogView). all is_clean v.details ≡ true)
        (list_audit_logs q target_type db).items
unfolding list_audit_logs list_page
audit_display_clean q target_type db =
    page-view (λ a. true) (λ (v : AdminAuditLogView). all is_clean v.details ≡ true) (audit_view db)
      audit_key (audit_filter q.query target_type) (is_oldest q.sort) q.page q.per_page
      db.audit_logs (λ a h. refl) (λ a h. safe_details_for_display-clean a.action a.details)
