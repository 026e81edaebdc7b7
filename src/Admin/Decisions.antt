-- ===== src/Admin/Decisions.antt =====
-- How `decide_report` ends, whatever the database does, and that a decision is final.
use whs_secure_coding.Prelude.{
  Bool-cases, List, [], arith, false, find-update_others, find_sound, inl, inr, refl, some, true, ℕ,
  ◌==◌, ◌∙◌, ◌∷◌, ◌≡◌, ◌≢◌, ◌⊎◌,
}
use whs_secure_coding.Admin.{AdminMutationResult, Mutation, only}
use whs_secure_coding.Admin.Recorded.{Recorded, commit_with_audit-Recorded}
use whs_secure_coding.Admin.Reports.{
  Decision, decide_report, decided, decision_details, decision_of, get_report, is_pending,
  report_audit_action, set_decision,
}
use whs_secure_coding.Audit.{add_row, entry}
use whs_secure_coding.Audit.Policy.{
  is_member, is_sensitive, lookup_keys, safe_items, validate_audit_details,
}
use whs_secure_coding.Schema.{Db, Report}
use whs_secure_coding.Session.{Result, Session, Signal, open_session}
use whs_secure_coding.Session.Ends.{
  Ends, Ends-modify, Ends-or_return, Ends-pure, Ends-query, Ends-return_if, Ends-utc_now, Post,
  Unless, Unless-committed,
}
use whs_secure_coding.Text.{Text}

pub data DecisionEffect (actor_id report_id : ℕ) (decision : Text) (db d : Db) (o : Mutation)
    : Type 0 where
  kept :
      d ≡ db
      → o.result ≢ AdminMutationResult.done
      → DecisionEffect actor_id report_id decision db d o
  settled :
      (choice : Decision) (r : Report) (decided_at audit_id now : ℕ)
      → decision_of decision ≡ some choice
      → get_report report_id db ≡ some r
      → is_pending r.status ≡ true
      → d
        ≡ add_row
            (entry audit_id now
              (some actor_id)
              (report_audit_action choice)
              "report"
              (some r.id)
              (some (decision_details r choice)))
            (set_decision actor_id r choice decided_at db)
      → (o ≡ only AdminMutationResult.done) ⊎ (o ≡ only AdminMutationResult.database_error)
      → DecisionEffect actor_id report_id decision db d o

decision_details_safe :
    (r : Report) (choice : Decision)
    → validate_audit_details (report_audit_action choice) (some (decision_details r choice))
      ≡ some (some (decision_details r choice))
unfolding validate_audit_details lookup_keys is_member safe_items is_sensitive
decision_details_safe r Decision.confirm = refl
decision_details_safe r Decision.reject = refl

module _ (actor_id report_id : ℕ) (decision : Text) (db : Db) where
  abbrev pub DecisionPost : Post Mutation
  DecisionPost = Unless db (λ d o. DecisionEffect actor_id report_id decision db d o)

  Recorded-DecisionEffect :
      (choice : Decision) (r : Report) (decided_at : ℕ)
      → decision_of decision ≡ some choice
      → get_report report_id db ≡ some r
      → is_pending r.status ≡ true
      → (d : Db) (o : Mutation)
      → Recorded db
          (set_decision actor_id r choice decided_at db)
          (only AdminMutationResult.done)
          actor_id
          (report_audit_action choice)
          "report"
          r.id
          (decision_details r choice)
          d
          o
      → DecisionEffect actor_id report_id decision db d o
  Recorded-DecisionEffect choice r decided_at known found open_yet d o
        (Recorded.rolled_back same reply) =
      kept same (λ e. cc)
  Recorded-DecisionEffect choice r decided_at known found open_yet d o
        (Recorded.recorded audit_id now after reply) =
      settled choice r decided_at audit_id now known found open_yet after reply

  pub decide_report-Ends : Ends db db (decide_report actor_id report_id decision) DecisionPost
  unfolding decide_report
  decide_report-Ends =
      Ends-or_return _ (λ bad. Ends-pure _ (kept refl (λ e. cc)))
        λ choice known.
          Ends-query _ _ (λ e. refl)
            (Ends-or_return _ (λ missing. Ends-pure _ (kept refl (λ e. cc)))
              λ r found.
                Ends-return_if _ (λ over. Ends-pure _ (kept refl (λ e. cc)))
                  λ undecided. Ends-utc_now _ λ now. Ends-modify _ _ (
                    commit_with_audit-Recorded
                      (λ d o. DecisionEffect actor_id report_id decision db d o) _ actor_id _
                      "report" _ _ refl (decision_details_safe r choice)
                      (Recorded-DecisionEffect choice r now known found (ground arith))))

-- One call, with what the database does to it.
pub record DecisionCall : Type 0 where
  pub actor_id : ℕ
  pub report_id : ℕ
  pub decision : Text
  pub signals : List Signal
  pub uuids : ℕ → ℕ
  pub now : ℕ

abbrev pub run_decision : DecisionCall → Db → Result Mutation × Session
run_decision c db =
    decide_report c.actor_id c.report_id c.decision (open_session db c.signals c.uuids c.now)

-- What is committed after calls, one after another.
abbrev pub after_decisions : List DecisionCall → Db → Db
after_decisions [] db = db
after_decisions (c ∷ cs) db = after_decisions cs (run_decision c db).1.committed

-- A report that has been decided is as it was.
abbrev StaysDecided : ℕ → Report → Db → Type 0
StaysDecided id r d = get_report id d ≡ some r

DecisionEffect-StaysDecided :
    (actor_id report_id : ℕ) (decision : Text) (db d : Db) (o : Mutation) (id : ℕ) (r : Report)
    → get_report id db ≡ some r
    → is_pending r.status ≡ false
    → DecisionEffect actor_id report_id decision db d o
    → StaysDecided id r d
DecisionEffect-StaysDecided actor_id report_id decision db d o id r found over
      (DecisionEffect.kept same x) =
    rw same found
DecisionEffect-StaysDecided actor_id report_id decision db d o id r found over
      (DecisionEffect.settled choice q decided_at audit_id now known at undecided after reply) =
    rw after (elim (Bool-cases (q.id == id)) [
      | inl own ↦
          let asked = find_sound (λ (x : Report). x.id == report_id) db.reports q at in
          let same_id : report_id ≡ id = grind arith in let q_is : q ≡ r = cc in absurd (cc)
      | inr other ↦
          find-update_others (λ (x : Report). x.id == id) (λ (x : Report). x.id == q.id)
            (decided actor_id choice decided_at) db.reports (λ x h. grind arith)
            (λ x h. grind arith)
          ∙ found
    ])

-- Whatever the calls of `decide_report`, one after another, and whatever the database does to each, a report that is
-- not pending keeps its status, its reviewer and the time of its review.
pub decision_final :
    (calls : List DecisionCall) (db : Db) (id : ℕ) (r : Report)
    → get_report id db ≡ some r
    → is_pending r.status ≡ false
    → get_report id (after_decisions calls db) ≡ some r
decision_final [] db id r found over = found
decision_final (c ∷ cs) db id r found over =
    let (x, t) = run_decision c db in
    decision_final cs t.committed id r
      (Unless-committed (λ d o. DecisionEffect c.actor_id c.report_id c.decision db d o)
        (StaysDecided id r) x t.working t.committed
        ((decide_report-Ends c.actor_id c.report_id c.decision db).at
          (open_session db c.signals c.uuids c.now) refl refl)
        found
        (λ o.
          DecisionEffect-StaysDecided c.actor_id c.report_id c.decision db t.committed o id r found
            over))
      over
