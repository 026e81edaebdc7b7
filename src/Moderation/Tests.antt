-- ===== src/Moderation/Tests.antt =====
-- Tests of reports: a bicycle of Bobby's that two users have reported, and a third report.
use whs_secure_coding.Prelude.{
  All, List, [], all, any, arith, count, false, find, map, none, refl, select, some, ℕ, ◌==◌, ◌∷◌,
  ◌≡◌, ◌≤◌,
}
use whs_secure_coding.Admin.Products.{get_product}
use whs_secure_coding.Admin.StatusLaws.{IsGuarded}
use whs_secure_coding.Admin.Trails.{target_display}
use whs_secure_coding.Listing.{insert_row, limit_offset, list_page, order_by, ordered, pages_of}
use whs_secure_coding.Listing.Laws.{numbered_pages}
use whs_secure_coding.Moderation.{
  ReportCreateResult, already_reported, answer, create_product_report, effective_report_count,
  is_same_report,
}
use whs_secure_coding.Moderation.Filing.{ReportEffect}
use whs_secure_coding.Moderation.OwnReports.{
  IsOwnReport, IsReportable, OwnReportView, ReportTargetView, get_reportable_product,
  list_own_reports, own_report_key, own_report_view, own_reports_complete,
}
use whs_secure_coding.Moderation.Policy.{normalize_report_reason}
use whs_secure_coding.Moderation.Restriction.{
  CanReport, Subject, create_report_atomic, create_report_of, hidden_product, third_report_hides,
}
use whs_secure_coding.Moderation.Runs.{
  IsOnce, ReportCall, after_reports, after_reports-IsGuarded, after_reports-IsOnce,
}
use whs_secure_coding.Samples.{ids, market, plain}
use whs_secure_coding.Schema.{Db, Product, ProductStatus, Report, ReportStatus, TargetType}
use whs_secure_coding.Schema.Constraints.{report_allowed}
use whs_secure_coding.Session.{Signal, ok, open_session}
use whs_secure_coding.Session.Ends.{Unless}
use whs_secure_coding.Text.{codes, encoded_length, is_space, replace_cr, replace_crlf, strip}
use whs_secure_coding.Wallet.Policy.{Arg}

abbrev bicycle : Product
bicycle = record {
  id = 20;
  seller_id = 2;
  title = codes "bicycle";
  description = [];
  price = 5000;
  image_filename = none;
  status = ProductStatus.sold;
  moderation_previous_status = none;
  created_at = 1;
}

abbrev reported_by : ℕ → ℕ → Report
reported_by id reporter = record {
  id = id;
  reporter_id = reporter;
  target_type = TargetType.product;
  target_id = 20;
  reason = codes "a counterfeit";
  status = ReportStatus.pending;
  reviewed_by_id = none;
  reviewed_at = none;
  created_at = 2;
}

abbrev fair : Db
fair = record market { products = bicycle ∷ []; reports = reported_by 30 1 ∷ reported_by 31 4 ∷ [] }

abbrev why : Arg
why = Arg.str (codes "  it is stolen\r\n")

abbrev report_call : ℕ → Subject → List Signal → ReportCall
report_call reporter subject signals = record {
  reporter_id = reporter;
  subject = subject;
  reason = why;
  signals = signals;
  uuids = ids;
  now = 5;
}

abbrev report_calls : List ReportCall
report_calls =
    report_call 3 (Subject.numbered 20) (Signal.fine ∷ Signal.fine ∷ Signal.integrity ∷ [])
    ∷ report_call 3 (Subject.numbered 20) []
    ∷ report_call 3 (Subject.numbered 20) []
    ∷ report_call 2 (Subject.named (codes "carol")) []
    ∷ []

create_report_atomic_example :
    let (r, s) = create_report_of plain 3 (Subject.numbered 20) why (open_session fair [] ids 5) in
    Unless fair
      (λ d o. ReportEffect 3 (CanReport 3 (Subject.numbered 20) fair) fair d o)
      r
      s.working
      s.committed
create_report_atomic_example = create_report_atomic plain 3 (Subject.numbered 20) why fair [] ids 5

third_report_hides_example :
    let (r, s) = create_product_report plain 3 20 why (open_session fair [] ids 5) in
    (r ≡ ok (answer ReportCreateResult.auto_restricted))
    × (get_product 20 s.committed ≡ some (hidden_product bicycle))
    × ((i : ℕ) → (i == 20) ≡ false → get_product i s.committed ≡ get_product i fair)
unfolding find any all count normalize_report_reason already_reported report_allowed
    effective_report_count strip is_space replace_crlf replace_cr encoded_length
third_report_hides_example =
    third_report_hides plain 3 20 why fair ids 5 bicycle (codes "it is stolen") refl refl refl refl
      refl refl (omega arith)

fair-IsOnce : IsOnce fair
unfolding count
fair-IsOnce = record { at = λ i t j. by_type i t j }
  where
    by_type : (i : ℕ) (t : TargetType) (j : ℕ) → count (is_same_report i t j) fair.reports ≤ 1
    by_type i TargetType.user j = ground arith
    by_type i TargetType.product j = ground arith

after_reports-IsOnce_example : IsOnce (after_reports plain report_calls fair)
after_reports-IsOnce_example = after_reports-IsOnce plain report_calls fair fair-IsOnce

fair-IsGuarded : IsGuarded fair
unfolding count
fair-IsGuarded = record { one_row = λ i. ground arith; some_admin = ground arith }

after_reports-IsGuarded_example : IsGuarded (after_reports plain report_calls fair)
after_reports-IsGuarded_example = after_reports-IsGuarded plain report_calls fair fair-IsGuarded

abbrev reported : Db
reported = record market {
  products =
      record {
        id = 50;
        seller_id = 2;
        title = codes "bicycle";
        description = codes "red";
        price = 5000;
        image_filename = none;
        status = ProductStatus.active;
        moderation_previous_status = none;
        created_at = 0;
      }
      ∷ [];
  reports =
      record {
        id = 60;
        reporter_id = 1;
        target_type = TargetType.product;
        target_id = 50;
        reason = codes "not a bicycle";
        status = ReportStatus.pending;
        reviewed_by_id = none;
        reviewed_at = none;
        created_at = 3;
      }
      ∷ [];
}

own_reports_complete_example :
    All (IsOwnReport 1 reported) (list_own_reports 1 1 20 reported).items
    × (numbered_pages
          (λ n. list_own_reports 1 n 20 reported)
          (pages_of (count (λ (r : Report). r.reporter_id == 1) reported.reports) 20)
        ≡ map
            (own_report_view reported)
            (ordered own_report_key (λ (r : Report). r.reporter_id == 1) false reported.reports))
    × ((v : ReportTargetView)
        → get_reportable_product 50 (some 1) reported ≡ some v
        → IsReportable 50 1 reported v)
own_reports_complete_example = own_reports_complete 1 1 20 50 reported (omega arith)

own_reports_shown :
    map (λ (v : OwnReportView). v.target_display_name) (list_own_reports 1 1 20 reported).items
    ≡ codes "bicycle" ∷ []
unfolding list_own_reports list_page limit_offset order_by insert_row select target_display find
own_reports_shown = refl
