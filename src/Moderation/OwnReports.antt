-- ===== src/Moderation/OwnReports.antt =====
-- app/moderation/services.py: `get_reportable_user`, `get_reportable_product` and `list_own_reports`,
-- with the views of app/moderation/views.py.
use whs_secure_coding.Prelude.{
  ==_iff, All, Bool, Memᴰ, Option, arith, count, false, find, find_sound, map, none, not,
  option_map, refl, some, some_injective, sym, true, ℕ, ◌&&◌, ◌==◌, ◌≡◌, ◌≢◌, ◌≤◌,
}
use whs_secure_coding.Admin.Trails.{target_display}
use whs_secure_coding.Listing.{Key, Page, list_page, ordered, pages_of}
use whs_secure_coding.Listing.Laws.{list_page_complete, numbered_pages}
use whs_secure_coding.Listing.Members.{find-Memᴰ, page_members}
use whs_secure_coding.Moderation.Policy.{is_reportable}
use whs_secure_coding.Schema.{Db, Product, Report, ReportStatus, TargetType, User, is_active}
use whs_secure_coding.Text.{Text, text_eq}

pub record ReportTargetView : Type 0 where
  pub target_type : TargetType
  pub display_name : Text

pub record OwnReportView : Type 0 where
  pub target_type : TargetType
  pub target_display_name : Text
  pub reason : Text
  pub status : ReportStatus
  pub created_at : ℕ

unfoldable pub get_reportable_user : Text → Db → Option ReportTargetView
get_reportable_user username db =
    option_map (λ (u : User). record { target_type = TargetType.user; display_name = u.username })
      (find (λ (u : User). text_eq u.username username && is_active u.status) db.users)

-- `if reporter_id is not None: filters.append(Product.seller_id != reporter_id)`
abbrev pub sold_by_other : Option ℕ → Product → Bool
sold_by_other none p = true
sold_by_other (some reporter_id) p = not (p.seller_id == reporter_id)

unfoldable pub get_reportable_product : ℕ → Option ℕ → Db → Option ReportTargetView
get_reportable_product product_id reporter_id db =
    option_map
      (λ (p : Product). record { target_type = TargetType.product; display_name = p.title })
      (find
        (λ (p : Product).
          p.id == product_id && is_reportable p.status && sold_by_other reporter_id p)
        db.products)

abbrev pub own_report_key : Report → Key
own_report_key r = record { created_at = r.created_at; id = r.id }

-- The name of the target, or that there is none.
abbrev pub own_report_view : Db → Report → OwnReportView
own_report_view db r = record {
  target_type = r.target_type;
  target_display_name = target_display r.target_type r.target_id db;
  reason = r.reason;
  status = r.status;
  created_at = r.created_at;
}

unfoldable pub list_own_reports : ℕ → ℕ → ℕ → Db → Page OwnReportView
list_own_reports reporter_id page per_page db =
    list_page own_report_key (own_report_view db) (λ (r : Report). r.reporter_id == reporter_id)
      false page per_page db.reports

-- What is shown is a report of the database and of the user.
pub record IsOwnReport (reporter_id : ℕ) (db : Db) (v : OwnReportView) : Type 0 where
  pub report : Report
  pub stored : Memᴰ report db.reports
  pub own : report.reporter_id ≡ reporter_id
  pub view : v ≡ own_report_view db report

-- What is offered for a report: a product of the database with the id, public and of another user.
pub record IsReportable (product_id reporter_id : ℕ) (db : Db) (v : ReportTargetView) : Type 0 where
  pub product : Product
  pub stored : Memᴰ product db.products
  pub of_id : product.id ≡ product_id
  pub public : is_reportable product.status ≡ true
  pub of_other : product.seller_id ≢ reporter_id
  pub view : v ≡ record { target_type = TargetType.product; display_name = product.title }

-- `list_own_reports` shows a user only the reports of the user; page after page it shows each of them
-- once, the newest first; and a product that is offered for a report is one of the database with the
-- id that is asked for, public and not of the user.
pub own_reports_complete :
    (reporter_id page per_page product_id : ℕ) (db : Db)
    → 1 ≤ per_page
    → All (IsOwnReport reporter_id db) (list_own_reports reporter_id page per_page db).items
      × (numbered_pages
            (λ n. list_own_reports reporter_id n per_page db)
            (pages_of (count (λ (r : Report). r.reporter_id == reporter_id) db.reports) per_page)
          ≡ map (own_report_view db) (
              ordered own_report_key
                (λ (r : Report). r.reporter_id == reporter_id)
                false
                db.reports))
      × ((v : ReportTargetView)
          → get_reportable_product product_id (some reporter_id) db ≡ some v
          → IsReportable product_id reporter_id db v)
unfolding list_own_reports get_reportable_product list_page
own_reports_complete reporter_id page per_page product_id db h = (
  page_members (IsOwnReport reporter_id db) (own_report_view db) _
      (λ (r : Report). r.reporter_id == reporter_id) page per_page db.reports
      (λ r m own. record {
        report = r;
        stored = m;
        own = (==_iff r.reporter_id reporter_id).0 own;
        view = refl;
      }),
  list_page_complete own_report_key (own_report_view db)
      (λ (r : Report). r.reporter_id == reporter_id) false per_page db.reports h,
  λ v e. reportable v _ refl e,
)
  where
    reportable :
        (v : ReportTargetView) (o : Option Product)
        → find
            (λ (p : Product).
              p.id == product_id && is_reportable p.status && sold_by_other (some reporter_id) p)
            db.products
          ≡ o
        → option_map
            (λ (p : Product). record { target_type = TargetType.product; display_name = p.title })
            o
          ≡ some v
        → IsReportable product_id reporter_id db v
    reportable v none found e = absurd (cc)
    reportable v (some p) found e =
        let h =
          find_sound
            (λ (q : Product).
              q.id == product_id && is_reportable q.status && sold_by_other (some reporter_id) q)
            db.products p found in
        record {
          product = p;
          stored = find-Memᴰ _ db.products p found;
          of_id = ground arith;
          public = ground arith;
          of_other = λ own. grind (arith, own);
          view = sym (some_injective e);
        }
