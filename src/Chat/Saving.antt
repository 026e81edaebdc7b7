-- ===== src/Chat/Saving.antt =====
-- How `save_message` of app/chat/services.py can end.
use whs_secure_coding.Prelude.{Option, false, inl, inr, refl, some, ℕ, ◌≡◌, ◌⊎◌}
use whs_secure_coding.Chat.Histories.{ChatMessageView, chat_view}
use whs_secure_coding.Chat.Messages.{MessageSaveResult, add_message, save_message}
use whs_secure_coding.Schema.{ChatMessage, Db, User}
use whs_secure_coding.Session.{Error, ok, pure, raised, rollback, sqlalchemy_error}
use whs_secure_coding.Session.Ends.{
  Ends, Ends-attempt, Ends-commit, Ends-flush, Ends-new_uuid, Ends-or_return, Ends-pure, Ends-query,
  Ends-rollback, Ends-utc_now, Post,
}
use whs_secure_coding.Text.{Text}
use whs_secure_coding.Wallet.{find_sender}
use whs_secure_coding.Session.{◌>>◌}

-- The row that it adds, of the sender, the conversation and the body that it is given.
pub record IsRow (sender_id : ℕ) (conversation_id : Option ℕ) (body : Text) (m : ChatMessage)
    : Type 0 where
  pub sent_by : m.sender_id ≡ sender_id
  pub sent_to : m.conversation_id ≡ conversation_id
  pub says : m.body ≡ body
  pub shown : m.is_hidden ≡ false

-- The row is committed, of a sender who is there, and the view shows the two.
pub record IsSaved (db : Db) (sender_id : ℕ) (conversation_id : Option ℕ) (body : Text)
    (v : ChatMessageView) (d : Db) : Type 0 where
  pub row : ChatMessage
  pub sender : User
  pub added : d ≡ add_message row db
  pub known : find_sender sender_id db ≡ some sender
  pub is_row : IsRow sender_id conversation_id body row
  pub view : v ≡ chat_view (row, sender)

-- Nothing is added, or the row is.
abbrev pub Attempted : Db → ℕ → Option ℕ → Text → Db → Type 0
Attempted db sender_id conversation_id body d =
    (d ≡ db) ⊎ ((m : ChatMessage) × IsRow sender_id conversation_id body m × (d ≡ add_message m db))

abbrev pub SavePost : Db → ℕ → Option ℕ → Text → Post MessageSaveResult
SavePost db sender conversation body (ok (MessageSaveResult.saved v)) w d =
    IsSaved db sender conversation body v d × (w ≡ d)
SavePost db sender conversation body (ok MessageSaveResult.database_error) w d =
    Attempted db sender conversation body d × (w ≡ d)
SavePost db sender conversation body (raised e) w d = (d ≡ db) × (w ≡ d)

module _ (db : Db) (sender_id : ℕ) (conversation_id : Option ℕ) (body : Text) where
  fails-Ends :
      (w d : Db) (e : Error)
      → Attempted db sender_id conversation_id body d
      → Ends w d
          (do rollback; pure MessageSaveResult.database_error)
          (SavePost db sender_id conversation_id body)
  fails-Ends w d e h = Ends-rollback _ (Ends-pure _ (h, refl))

  -- From `db`, `save_message` commits the row and answers with its view, or answers an error after
  -- a rollback; an exception leaves the database.
  pub save_message-Ends :
      Ends db db
        (save_message sender_id conversation_id body)
        (SavePost db sender_id conversation_id body)
  unfolding save_message
  save_message-Ends =
      Ends-query _ _ (λ e. (refl, refl))
        (Ends-or_return _ (λ missing. Ends-pure _ (inl refl, refl))
          (λ u known. Ends-utc_now _ λ now. Ends-attempt _ (
            Ends-new_uuid _ λ id.
              Ends-flush _ _ _ (λ e. fails-Ends db db e (inl refl))
                (λ allowed.
                  Ends-commit _ (λ e. fails-Ends _ db e (inl refl))
                    (fails-Ends _ _ sqlalchemy_error (
                      inr (
                        _,
                        record { sent_by = refl; sent_to = refl; says = refl; shown = refl },
                        refl,
                      )))
                    (Ends-pure _ (
                      record {
                        row = record {
                          id = id;
                          sender_id = sender_id;
                          conversation_id = conversation_id;
                          body = body;
                          is_hidden = false;
                          created_at = now;
                        };
                        sender = u;
                        added = refl;
                        known = known;
                        is_row = record {
                          sent_by = refl;
                          sent_to = refl;
                          says = refl;
                          shown = refl;
                        };
                        view = refl;
                      },
                      refl,
                    ))))))
