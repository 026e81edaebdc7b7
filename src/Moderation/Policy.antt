-- ===== src/Moderation/Policy.antt =====
-- app/moderation/policy.py.
use whs_secure_coding.Prelude.{
  Bool, Option, all, false, if◌then◌else◌, leb, length, ltb, none, not, some, true, ℕ, ◌&&◌, ◌==◌,
  ◌||◌,
}
use whs_secure_coding.Config.{
  report_reason_max_bytes, report_reason_max_chars, report_reason_min_chars,
}
use whs_secure_coding.Platform.{Platform}
use whs_secure_coding.Schema.{ProductStatus, ReportStatus}
use whs_secure_coding.Text.{Text, encoded_length, replace_cr, replace_crlf, strip}
use whs_secure_coding.Wallet.Policy.{Arg}

-- `status in REPORTABLE_PRODUCT_STATUSES`
abbrev pub is_reportable : ProductStatus → Bool
is_reportable ProductStatus.active = true
is_reportable ProductStatus.sold = true
is_reportable _ = false

-- `status in EFFECTIVE_REPORT_STATUSES`
abbrev pub is_effective : ReportStatus → Bool
is_effective ReportStatus.rejected = false
is_effective _ = true

-- A character that a reason may hold.
abbrev pub is_reason_char : ℕ → Bool
is_reason_char c = not (c == 127 || (ltb c 32 && not (c == 9 || c == 10)))

-- The normalized text; a ReportReasonError; the UnicodeEncodeError of a lone surrogate, which
-- `except ReportReasonError` does not catch.
pub data Reason : Type 0 where
  valid : Text → Reason
  invalid unencodable : Reason

abbrev check_reason_bytes : Text → Option ℕ → Reason
check_reason_bytes s none = Reason.unencodable
check_reason_bytes s (some n) =
    if leb n report_reason_max_bytes && all is_reason_char s then Reason.valid s else Reason.invalid

unfoldable pub normalize_report_reason : Platform → Arg → Reason
normalize_report_reason p (Arg.str value) =
    let normalized = strip (p.nfc (replace_cr (replace_crlf value))) in
    if leb report_reason_min_chars (length normalized)
      && leb (length normalized) report_reason_max_chars
    then check_reason_bytes normalized (encoded_length normalized)
    else Reason.invalid
normalize_report_reason p _ = Reason.invalid
