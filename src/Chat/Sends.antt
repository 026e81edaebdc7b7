-- ===== src/Chat/Sends.antt =====
-- `send_global` and `send_direct` of app/chat/events.py, from a state in which the rooms are private.
use whs_secure_coding.Prelude.{
  List, Option, all, any_of_find, ap, arith, find_sound, inl, inr, none, refl, some, some_injective,
  subst, sym, true, ℕ, ◌&&◌, ◌==◌, ◌∙◌, ◌∷◌, ◌≡◌,
}
use whs_secure_coding.Chat.Broadcasts.{
  IsSent, conversation_of, is_audience, is_live_user, seated-audience, delivered, unsent,
}
use whs_secure_coding.Chat.Connections.{ConnectionRecord}
use whs_secure_coding.Chat.Conversations.{user_by_id}
use whs_secure_coding.Chat.Events.{
  consume_message_of, event_limits, finish_sending, is_authorized, save_and_emit, send_direct,
  send_global, valid_body,
}
use whs_secure_coding.Chat.Histories.{ChatMessageView}
use whs_secure_coding.Chat.Joins.{limiter-Keeps}
use whs_secure_coding.Chat.Keeps.{Keeps, Leads-authenticated, Leads-prune, Leads-query, all_live}
use whs_secure_coding.Chat.Leads.{
  Leads, Leads-alter, Leads-bind, Leads-change, Leads-check, Leads-done, Leads-on_db, Leads-read,
  Leads-some_or, Leads-stop,
}
use whs_secure_coding.Chat.Messages.{MessageSaveResult, get_direct_conversation, save_message}
use whs_secure_coding.Chat.Participants.{get_direct_conversation-participant}
use whs_secure_coding.Chat.Payloads.{Ack, Payload, field}
use whs_secure_coding.Chat.Policy.{
  Body, IsBody, normalize_message_body, normalize_message_body-IsBody,
}
use whs_secure_coding.Chat.Privacy.{may_join, session-IsPrivate}
use whs_secure_coding.Chat.RateLimit.{consume_message}
use whs_secure_coding.Chat.Saving.{Attempted, IsSaved, SavePost, save_message-Ends}
use whs_secure_coding.Chat.Server.{
  Delivery, Handler, Outcome, Reply, Request, Room, Server, done, emit, sids_in, some_or,
}
use whs_secure_coding.Platform.{Platform}
use whs_secure_coding.Schema.{Db, DirectConversation, User, is_active}
use whs_secure_coding.Session.{Session, ok}
use whs_secure_coding.Session.Ends.{Ends}
use whs_secure_coding.Text.{Text}
use whs_secure_coding.Wallet.Policy.{Arg}
use whs_secure_coding.Chat.Server.{◌>>=◌}

authorized_live :
    (q : Request) (r : ConnectionRecord) (db : Db)
    → is_authorized q r (user_by_id r.user_id db) ≡ true
    → is_live_user db r.user_id ≡ true
unfolding is_authorized
authorized_live q r db h = by_row (user_by_id r.user_id db) refl h
  where
    by_row :
        (o : Option User)
        → user_by_id r.user_id db ≡ o
        → is_authorized q r o ≡ true
        → is_live_user db r.user_id ≡ true
    by_row none e x = absurd (cc)
    by_row (some u) e x =
        any_of_find (λ (v : User). v.id == r.user_id)
          (λ (v : User). v.id == r.user_id && is_active v.status) db.users u e
          (rw (find_sound (λ (v : User). v.id == r.user_id) db.users u e) ground arith)

module _ {cs : List DirectConversation} {db : Db} {s : Server} (start : Keeps cs db s s) where
  unsent_at : {d : Db} (r : Reply) (t : Server) → Keeps cs d s t → IsSent cs s (Outcome.stopped r) t
  unsent_at r t h = unsent r refl h.is_private h.sent

  module _ (sender : ℕ) (room : Room) (body : Text) (may : may_join cs room sender ≡ true)
      (live_user : is_live_user db sender ≡ true) (clean : IsBody body) where
    conversations : db.conversations ≡ cs
    conversations = ap (λ (e : Db). e.conversations) (sym start.reads) ∙ start.is_private.seen

    Attempted-conversations :
        (d : Db) → Attempted db sender (conversation_of room) body d → d.conversations ≡ cs
    Attempted-conversations d (inl same) = ap (λ (e : Db). e.conversations) same ∙ conversations
    Attempted-conversations d (inr (m, is_row, added)) =
        ap (λ (e : Db). e.conversations) added ∙ conversations

    -- After `save_message`, with the session as it leaves it.
    saved-Keeps :
        (t : Server) (u : Session)
        → Keeps cs db s t
        → u.committed.conversations ≡ cs
        → u.working ≡ u.committed
        → Keeps cs u.committed s (record t { session = u })
    saved-Keeps t u h has reads = record {
      is_private =
          session-IsPrivate u t (ap (λ (e : Db). e.conversations) reads ∙ has) has h.is_private;
      reads = reads;
      has = refl;
      sent = h.sent;
      time = h.time;
      roomless = h.roomless;
    }

    emitted :
        (v : ChatMessageView) (d : Db) (t : Server)
        → IsSaved db sender (conversation_of room) body v d
        → Keeps cs d s t
        → all_live d t ≡ true
        → IsSent cs s (Outcome.next (Reply.acknowledged Ack.success)) (emit room sender v t)
    emitted v d t saved h live =
        let m : Delivery = record {
          room = room;
          sender_id = sender;
          message = v;
          recipients = sids_in room t.rooms;
        } in
        delivered m refl
          (record {
            seen = h.is_private.seen;
            kept = h.is_private.kept;
            seated = h.is_private.seated;
          })
          (ap (λ ds. m ∷ ds) h.sent)
          (record {
            audience =
                subst
                  (λ e.
                    all (is_audience cs e t.clock t.registry room) (sids_in room t.rooms) ≡ true)
                  (sym h.has)
                  (seated-audience cs d t.clock t.registry room t.rooms live h.is_private.seated);
            member = may;
            live = subst (λ e. is_live_user e sender ≡ true) (sym start.has) live_user;
            body = body;
            body-is_clean = clean;
            saved =
                subst (λ e. IsSaved e sender (conversation_of room) body v t.session.committed)
                  (sym start.has)
                  (subst (IsSaved db sender (conversation_of room) body v) (sym h.has) saved);
          })

    save_and_emit-IsSent :
        (t : Server)
        → Keeps cs db s t
        → Leads t (save_and_emit sender room (conversation_of room) body) (IsSent cs s)
    unfolding save_and_emit
    save_and_emit-IsSent t h =
        Leads-on_db (save_message sender (conversation_of room) body)
          (SavePost db sender (conversation_of room) body) _
          (subst
            (λ w.
              Ends w t.session.committed (save_message sender (conversation_of room) body)
                (SavePost db sender (conversation_of room) body))
            (sym h.reads)
            (subst
              (λ d.
                Ends db d (save_message sender (conversation_of room) body)
                  (SavePost db sender (conversation_of room) body))
              (sym h.has) (save_message-Ends db sender (conversation_of room) body)))
          (λ e u x.
            unsent_at Reply.unhandled _
              (saved-Keeps t u h (Attempted-conversations u.committed (inl x.0)) x.1))
          (λ result u x. after_save result u x)
      where
        after_save :
            (result : MessageSaveResult) (u : Session)
            → SavePost db sender (conversation_of room) body (ok result) u.working u.committed
            → Leads (record t { session = u }) (finish_sending sender room result) (IsSent cs s)
        after_save (MessageSaveResult.saved v) u (saved, reads) =
            let h₁ =
              saved-Keeps t u h (ap (λ (e : Db). e.conversations) saved.added ∙ conversations)
                reads in
            Leads-some_or _ _ _ (unsent_at _ _ h₁) λ w same.
              Leads-prune _ _ h₁ unsent_at λ t₂ h₂ live. Leads-alter _ _ (
                Leads-done _ (
                  emitted w _ t₂
                    (subst
                      (λ shown. IsSaved db sender (conversation_of room) body shown u.committed)
                      (some_injective same) saved)
                    h₂ live))
        after_save MessageSaveResult.database_error u (attempted, reads) =
            Leads-some_or _ _ _
              (unsent_at _ _ (saved-Keeps t u h (Attempted-conversations _ attempted) reads))
              λ w same. absurd (cc)

  -- A body that is valid is clean.
  Leads-valid_body :
      (p : Platform) (value : Arg) (k : Text → Handler Reply) (t : Server)
      → Keeps cs db s t
      → ((body : Text) → IsBody body → Leads t (k body) (IsSent cs s))
      → Leads t (valid_body (normalize_message_body p value) >>= k) (IsSent cs s)
  Leads-valid_body p value k t h goes = by_body (normalize_message_body p value) refl
    where
      by_body :
          (b : Body)
          → normalize_message_body p value ≡ b
          → Leads t (valid_body b >>= k) (IsSent cs s)
      by_body (Body.valid body) e =
          Leads-bind (done body)
            (Leads-done body (goes body (normalize_message_body-IsBody p value body e)))
      by_body Body.invalid e = Leads-bind (some_or none _) (Leads-stop _ (unsent_at _ t h))
      by_body Body.unencodable e = Leads-bind (some_or none _) (Leads-stop _ (unsent_at _ t h))

  pub send_global-IsSent :
      (p : Platform) (q : Request) (payload : Payload)
      → Leads s (send_global p q payload) (IsSent cs s)
  unfolding send_global may_join
  send_global-IsSent p q payload = Leads-authenticated q _ s start unsent_at λ r t h found allowed.
      Leads-change _ _ (
        let t₁ = (consume_message_of r.user_id t).1 in
        let h₁ = limiter-Keeps (consume_message event_limits t.clock r.user_id t.limiter).1 t h in
        Leads-check _ _ _ (unsent_at _ t₁ h₁) λ within.
          Leads-check _ _ _ (unsent_at _ t₁ h₁) λ exact.
            Leads-valid_body p (field "body" payload) _ t₁ h₁ λ body clean. Leads-read _ _ (
              Leads-check _ _ _ (unsent_at _ t₁ h₁) λ joined.
                save_and_emit-IsSent r.user_id Room.global body refl
                  (authorized_live q r db allowed) clean t₁ h₁))

  pub send_direct-IsSent :
      (p : Platform) (q : Request) (payload : Payload)
      → Leads s (send_direct p q payload) (IsSent cs s)
  unfolding send_direct
  send_direct-IsSent p q payload = Leads-authenticated q _ s start unsent_at λ r t h found allowed.
      Leads-change _ _ (
        let t₁ = (consume_message_of r.user_id t).1 in
        let h₁ = limiter-Keeps (consume_message event_limits t.clock r.user_id t.limiter).1 t h in
        Leads-check _ _ _ (unsent_at _ t₁ h₁) λ within.
          Leads-check _ _ _ (unsent_at _ t₁ h₁) λ exact.
            Leads-valid_body p (field "body" payload) _ t₁ h₁ λ body clean.
              Leads-some_or _ _ _ (unsent_at _ t₁ h₁) λ id named. Leads-read _ _ (
                Leads-check _ _ _ (unsent_at _ t₁ h₁) λ joined.
                  Leads-query (get_direct_conversation id r.user_id) _ t₁ h₁ unsent_at λ u h₂.
                    Leads-some_or _ _ _ (unsent_at _ _ h₂) λ v is_there.
                      Leads-check _ _ _ (unsent_at _ _ h₂) λ available.
                        save_and_emit-IsSent r.user_id (Room.direct id) body
                          (subst (λ c. may_join c (Room.direct id) r.user_id ≡ true) conversations
                            (get_direct_conversation-participant id r.user_id db v is_there))
                          (authorized_live q r db allowed) clean _ h₂))
    where
      conversations : db.conversations ≡ cs
      conversations = ap (λ (e : Db). e.conversations) (sym start.reads) ∙ start.is_private.seen
