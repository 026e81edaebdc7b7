-- ===== src/Moderation/Filing.antt =====
-- How a report ends, whatever the database does: nothing is committed, or the report and its audit
-- row are, together with the restriction of its target where the effective reports reach the
-- threshold.
use whs_secure_coding.Prelude.{
  [], if◌then◌else◌, inl, inr, none, refl, some, true, ℕ, ◌∷◌, ◌≡◌, ◌≢◌, ◌⊎◌,
}
use whs_secure_coding.Admin.Reports.{target_word}
use whs_secure_coding.Audit.{add_row, entry, valid_target_type}
use whs_secure_coding.Audit.Policy.{
  is_member, is_sensitive, lookup_keys, safe_items, validate_audit_details,
}
use whs_secure_coding.Audit.Writes.{Ends-add_audit_log}
use whs_secure_coding.Moderation.{
  ReportCreateResult, ReportOutcome, Target, add_report, answer, create_report,
  effective_report_count, file_report, on_report_error, report_reason, restrict, restrict_target,
  restricted_answer, restriction_action, restriction_details, restricts, target_id_of,
  target_type_of,
}
use whs_secure_coding.Moderation.Policy.{Reason, normalize_report_reason}
use whs_secure_coding.Platform.{Platform}
use whs_secure_coding.Schema.{Db, Report, ReportStatus, TargetType, Value}
use whs_secure_coding.Schema.Constraints.{report_allowed}
use whs_secure_coding.Session.{
  Error, commit, integrity_error, pure, sqlalchemy_error, value_error, ◌>>◌,
}
use whs_secure_coding.Session.Ends.{
  Caught, Ends, Ends-attempt, Ends-commit, Ends-flush, Ends-modify, Ends-new_uuid, Ends-pure,
  Ends-query, Ends-raise, Ends-return_if, Ends-rollback, Ends-utc_now, Post, Unless,
}
use whs_secure_coding.Text.{Text}
use whs_secure_coding.Wallet.Policy.{Arg}

-- What a report that is filed has drawn: ids and times.
pub record Filing : Type 0 where
  pub report : Report
  pub audit_id : ℕ
  pub audited_at : ℕ
  pub restriction_id : ℕ
  pub restricted_at : ℕ

-- The database with the report and its audit row.
abbrev pub filed : Target → Filing → Db → Db
filed t f db =
    add_row
      (entry f.audit_id f.audited_at (some f.report.reporter_id) "report.created" "report"
        (some f.report.id)
        (some (("target_type", Value.str (target_word (target_type_of t))) ∷ [])))
      (add_report f.report db)

-- The effective reports of the target then.
abbrev pub effective_then : Target → Filing → Db → ℕ
effective_then t f db = effective_report_count (target_type_of t) (target_id_of t) (filed t f db)

-- The restriction of the target with its audit row.
abbrev pub restricted : Target → Filing → ℕ → Db → Db
restricted t f n db =
    add_row
      (entry f.restriction_id f.restricted_at none (restriction_action t)
        (target_word (target_type_of t)) (some (target_id_of t)) (some (restriction_details t n)))
      (restrict_target t db)

-- The database after a report.
abbrev pub after_report : Target → Filing → Db → Db
after_report t f db =
    if restricts t (effective_then t f db)
    then restricted t f (effective_then t f db) (filed t f db)
    else filed t f db

abbrev pub report_answer : Target → ℕ → ReportOutcome
report_answer t n = if restricts t n then restricted_answer t else answer ReportCreateResult.created

-- A report of the target by the reporter that the constraints allow.
pub record IsFiled (reporter_id : ℕ) (t : Target) (db : Db) (r : Report) : Type 0 where
  pub reporter_is : r.reporter_id ≡ reporter_id
  pub type_is : r.target_type ≡ target_type_of t
  pub id_is : r.target_id ≡ target_id_of t
  pub pending : r.status ≡ ReportStatus.pending
  pub allowed : report_allowed db r ≡ true

-- The call has committed nothing, or the report that it should.
pub data ReportEffect (reporter_id : ℕ) (Can : Target → Type 0) (db d : Db) (o : ReportOutcome)
    : Type 0 where
  kept :
      d ≡ db
      → o.result ≢ ReportCreateResult.created
      → o.result ≢ ReportCreateResult.auto_restricted
      → o.disconnects ≡ none
      → ReportEffect reporter_id Can db d o
  reported :
      (t : Target) (f : Filing)
      → Can t
      → IsFiled reporter_id t db f.report
      → d ≡ after_report t f db
      → (o ≡ report_answer t (effective_then t f db))
        ⊎ (o ≡ answer ReportCreateResult.database_error)
      → ReportEffect reporter_id Can db d o

pub restriction_safe :
    (t : Target) (n : ℕ)
    → validate_audit_details (restriction_action t) (some (restriction_details t n))
      ≡ some (some (restriction_details t n))
unfolding validate_audit_details lookup_keys is_member safe_items is_sensitive
restriction_safe (Target.user_target u) n = refl
restriction_safe (Target.product_target p) n = refl

pub created_safe :
    (t : TargetType)
    → validate_audit_details "report.created"
        (some (("target_type", Value.str (target_word t)) ∷ []))
      ≡ some (some (("target_type", Value.str (target_word t)) ∷ []))
unfolding validate_audit_details lookup_keys is_member safe_items is_sensitive
created_safe TargetType.user = refl
created_safe TargetType.product = refl

word_valid : (t : TargetType) → valid_target_type (target_word t) ≡ true
word_valid TargetType.user = refl
word_valid TargetType.product = refl

module _ (reporter_id : ℕ) (Can : Target → Type 0) (db : Db) where
  abbrev pub ReportPost : Post ReportOutcome
  ReportPost = Unless db (λ d o. ReportEffect reporter_id Can db d o)

  kept_answer :
      (w : Db) (r : ReportCreateResult)
      → r ≢ ReportCreateResult.created
      → r ≢ ReportCreateResult.auto_restricted
      → Ends w db (pure (answer r)) ReportPost
  kept_answer w r h k = Ends-pure _ (kept refl h k refl)

  -- An exception that leaves what was committed.
  on_report_error-kept :
      (w : Db) (t : Target) (e : Error) → Ends w db (on_report_error reporter_id t e) ReportPost
  unfolding on_report_error
  on_report_error-kept w t integrity_error = Ends-rollback _ (
      Ends-query _ _ (λ e. refl)
        (Ends-return_if _ (λ h. kept_answer db _ (λ e. cc) (λ e. cc))
          (λ h. kept_answer db _ (λ e. cc) (λ e. cc))))
  on_report_error-kept w t sqlalchemy_error = Ends-rollback _ (kept_answer db _ (λ e. cc) (λ e. cc))
  on_report_error-kept w t value_error = Ends-rollback _ (kept_answer db _ (λ e. cc) (λ e. cc))

  -- The commit that raises and took effect.
  on_report_error-lost :
      (w d : Db) (t : Target)
      → ReportEffect reporter_id Can db d (answer ReportCreateResult.database_error)
      → Ends w d (on_report_error reporter_id t sqlalchemy_error) ReportPost
  unfolding on_report_error
  on_report_error-lost w d t h = Ends-rollback _ (Ends-pure _ h)

  commit-Ends :
      (w : Db) (t : Target) (o : ReportOutcome)
      → ReportEffect reporter_id Can db w o
      → ReportEffect reporter_id Can db w (answer ReportCreateResult.database_error)
      → Ends w db (commit >> pure o) (Caught (on_report_error reporter_id t) ReportPost)
  commit-Ends w t o h k =
      Ends-commit _ (λ e. on_report_error-kept w t e) (on_report_error-lost w w t k) (Ends-pure _ h)

  restrict-Ends :
      (t : Target) (r : Report) (audit_id audited_at : ℕ)
      → Can t
      → IsFiled reporter_id t db r
      → let base =
          filed t
            (record {
              report = r;
              audit_id = audit_id;
              audited_at = audited_at;
              restriction_id = 0;
              restricted_at = 0;
            })
            db in
        Ends base db
          (restrict t (effective_report_count (target_type_of t) (target_id_of t) base))
          (Caught (on_report_error reporter_id t) ReportPost)
  unfolding restrict
  restrict-Ends t r audit_id audited_at can is_filed =
      let filing : ℕ → ℕ → Filing = λ i n. record {
        report = r;
        audit_id = audit_id;
        audited_at = audited_at;
        restriction_id = i;
        restricted_at = n;
      } in
      Ends-return_if _
        (λ reached. Ends-modify _ _ (
          Ends-add_audit_log _ _ _ _ _ _ (word_valid (target_type_of t)) (restriction_safe t _)
            λ i n.
              commit-Ends _ t _
                (reported t (filing i n) can is_filed (rw reached refl) (inl (rw reached refl)))
                (reported t (filing i n) can is_filed (rw reached refl) (inr refl))))
        (λ short.
          commit-Ends _ t _
            (reported t (filing 0 0) can is_filed (rw short refl) (inl (rw short refl)))
            (reported t (filing 0 0) can is_filed (rw short refl) (inr refl)))

  file_report-Ends :
      (t : Target) (reason : Text)
      → Can t
      → Ends db db (file_report reporter_id t reason) ReportPost
  unfolding file_report
  file_report-Ends t reason can = Ends-attempt _ (
      Ends-new_uuid _ λ id. Ends-utc_now _ λ now.
        Ends-flush _ _ _ (λ e. on_report_error-kept db t e)
          λ allowed.
            Ends-add_audit_log _ _ _ _ _ _ refl (created_safe (target_type_of t))
              λ audit_id audited_at.
                Ends-query _ _ (λ e. on_report_error-kept _ t e)
                  (restrict-Ends t _ audit_id audited_at can (record {
                    reporter_is = refl;
                    type_is = refl;
                    id_is = refl;
                    pending = refl;
                    allowed = allowed;
                  })))

  report_reason-Ends :
      (t : Target) (r : Reason) → Can t → Ends db db (report_reason reporter_id t r) ReportPost
  report_reason-Ends t (Reason.valid text) can =
      Ends-query _ _ (λ e. refl)
        (Ends-return_if _ (λ h. kept_answer db _ (λ e. cc) (λ e. cc))
          (λ h. file_report-Ends t text can))
  report_reason-Ends t Reason.invalid can = kept_answer db _ (λ e. cc) (λ e. cc)
  report_reason-Ends t Reason.unencodable can = Ends-raise _ refl

  pub create_report-Ends :
      (p : Platform) (t : Target) (reason : Arg)
      → Can t
      → Ends db db (create_report p reporter_id t reason) ReportPost
  unfolding create_report
  create_report-Ends p t reason can = report_reason-Ends t (normalize_report_reason p reason) can
