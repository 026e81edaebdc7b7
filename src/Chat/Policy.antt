-- ===== src/Chat/Policy.antt =====
-- app/chat/policy.py: `normalize_message_body`.
use whs_secure_coding.Prelude.{
  Bool, Bool-cases, Option, Option-cases, all, arith, if◌then◌else◌, inl, inr, leb, length, ltb,
  none, not, some, subst, true, ℕ, ◌&&◌, ◌==◌, ◌||◌, ◌≡◌, ◌≤◌,
}
use whs_secure_coding.Config.{chat_message_max_bytes, chat_message_max_chars}
use whs_secure_coding.Platform.{Platform}
use whs_secure_coding.Text.{Text, encoded_length, replace_cr, replace_crlf, strip}
use whs_secure_coding.Text.Laws.{strip_idem}
use whs_secure_coding.Wallet.Policy.{Arg}

-- The valid body; an invalid one; the UnicodeEncodeError of a lone surrogate, which the function does
-- not catch.
pub data Body : Type 0 where
  valid : Text → Body
  invalid unencodable : Body

-- A character that a message may hold.
abbrev pub is_body_char : ℕ → Bool
is_body_char c = not (c == 127 || (ltb c 32 && not (c == 10 || c == 9)))

abbrev check_body_bytes : Text → Option ℕ → Body
check_body_bytes s none = Body.unencodable
check_body_bytes s (some n) =
    if leb 1 n && leb n chat_message_max_bytes && all is_body_char s
    then Body.valid s
    else Body.invalid

abbrev check_body : Text → Body
check_body s =
    if leb 1 (length s) && leb (length s) chat_message_max_chars
    then check_body_bytes s (encoded_length s)
    else Body.invalid

unfoldable pub normalize_message_body : Platform → Arg → Body
normalize_message_body p (Arg.str value) =
    check_body (strip (p.nfc (replace_cr (replace_crlf value))))
normalize_message_body p _ = Body.invalid

-- What a body is that is sent.
pub record IsBody (s : Text) : Type 0 where
  pub not_empty : 1 ≤ length s
  pub short : length s ≤ chat_message_max_chars
  pub characters : all is_body_char s ≡ true
  pub stripped : strip s ≡ s

check_body-IsBody : (s t : Text) → strip s ≡ s → check_body s ≡ Body.valid t → IsBody t
check_body-IsBody s t e h =
    elim (Bool-cases (leb 1 (length s) && leb (length s) chat_message_max_chars)) [
      | inr bad ↦ absurd (cc)
      | inl fits ↦ elim (Option-cases (encoded_length s)) [
        | inl bad ↦ absurd (cc)
        | inr (n, size) ↦
            elim (Bool-cases (leb 1 n && leb n chat_message_max_bytes && all is_body_char s)) [
              | inr bad ↦ absurd (cc)
              | inl clean ↦
                  let same : s ≡ t = cc in
                  subst IsBody same (record {
                    not_empty = ground arith;
                    short = ground arith;
                    characters = ground arith;
                    stripped = e;
                  })
            ]
      ]
    ]

-- A body that `normalize_message_body` takes is stripped, has 1 to 500 characters, and holds no
-- control character but line feeds and tabs.
pub normalize_message_body-IsBody :
    (p : Platform) (value : Arg) (s : Text)
    → normalize_message_body p value ≡ Body.valid s
    → IsBody s
unfolding normalize_message_body
normalize_message_body-IsBody p (Arg.str value) s h =
    check_body-IsBody (strip (p.nfc (replace_cr (replace_crlf value)))) s
      (strip_idem (p.nfc (replace_cr (replace_crlf value)))) h
normalize_message_body-IsBody p (Arg.int n) s h = absurd (cc)
normalize_message_body-IsBody p (Arg.negative n) s h = absurd (cc)
normalize_message_body-IsBody p (Arg.bool b) s h = absurd (cc)
normalize_message_body-IsBody p Arg.other s h = absurd (cc)
