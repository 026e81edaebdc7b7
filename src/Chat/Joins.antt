-- ===== src/Chat/Joins.antt =====
-- The handlers of app/chat/events.py that send nothing: a socket is connected, leaves, or joins a
-- room.
use whs_secure_coding.Prelude.{List, ap, false, refl, some, subst, sym, true, ℕ, ◌∙◌, ◌≡◌}
use whs_secure_coding.Chat.Connections.{ConnectionRecord, add, get}
use whs_secure_coding.Chat.Conversations.{user_by_id}
use whs_secure_coding.Chat.Events.{
  connect_chat, connected_user, consume_join_of, disconnect_chat, event_limits, join_direct,
  join_global,
}
use whs_secure_coding.Chat.Keeps.{
  Keeps, Leads-authenticated, Leads-prune, Leads-query, disconnect_socket-Keeps,
}
use whs_secure_coding.Chat.Leads.{
  Leads, Leads-alter, Leads-bind, Leads-change, Leads-check, Leads-done, Leads-or_stop,
  Leads-some_or,
}
use whs_secure_coding.Chat.Messages.{get_direct_conversation}
use whs_secure_coding.Chat.Participants.{get_direct_conversation-participant}
use whs_secure_coding.Chat.Payloads.{Payload}
use whs_secure_coding.Chat.Privacy.{
  IsPrivate, add-IsPrivate, is_in_rooms, join_room-IsPrivate, may_join,
}
use whs_secure_coding.Chat.RateLimit.{ChatEventLimiter, consume_join}
use whs_secure_coding.Chat.Server.{Outcome, Reply, Request, Room, Server, join_room}
use whs_secure_coding.Config.{chat_max_connections_per_user}
use whs_secure_coding.Platform.{Platform}
use whs_secure_coding.Schema.{Db, DirectConversation}

pub record IsQuiet (cs : List DirectConversation) (s : Server) (o : Outcome Reply) (t : Server)
    : Type 0 where
  pub still_private : IsPrivate cs t
  pub silent : t.deliveries ≡ s.deliveries

pub Keeps-IsQuiet :
    {cs : List DirectConversation} {db : Db} {s : Server} (o : Outcome Reply) (t : Server)
    → Keeps cs db s t
    → IsQuiet cs s o t
Keeps-IsQuiet o t h = record { still_private = h.is_private; silent = h.sent }

pub limiter-Keeps :
    {cs : List DirectConversation} {db : Db} {s : Server} (l : ChatEventLimiter) (t : Server)
    → Keeps cs db s t
    → Keeps cs db s (record t { limiter = l })
limiter-Keeps l t h = record {
  is_private = record {
    seen = h.is_private.seen;
    kept = h.is_private.kept;
    seated = h.is_private.seated;
  };
  reads = h.reads;
  has = h.has;
  sent = h.sent;
  time = h.time;
  roomless = h.roomless;
}

module _ {cs : List DirectConversation} {db : Db} {s : Server} (start : Keeps cs db s s) where
  stopped-IsQuiet : (r : Reply) (t : Server) → Keeps cs db s t → IsQuiet cs s (Outcome.stopped r) t
  stopped-IsQuiet r t h = Keeps-IsQuiet (Outcome.stopped r) t h

  joined-IsQuiet :
      (sid : ℕ) (room : Room) (r : ConnectionRecord) (t : Server) (o : Outcome Reply)
      → Keeps cs db s t
      → get sid t.registry ≡ some r
      → may_join cs room r.user_id ≡ true
      → IsQuiet cs s o (join_room sid room t)
  joined-IsQuiet sid room r t o h found may = record {
    still_private = join_room-IsPrivate sid room r t found may h.is_private;
    silent = h.sent;
  }

  added-IsQuiet :
      (sid : ℕ) (identity : ℕ × ℕ) (now : ℕ) (o : Outcome Reply) (t : Server)
      → Keeps cs db s t
      → is_in_rooms sid s ≡ false
      → IsQuiet cs s o (record t {
        registry = (add sid identity.0 identity.1 chat_max_connections_per_user now t.registry).1;
      })
  added-IsQuiet sid identity now o t h fresh = record {
    still_private =
        add-IsPrivate sid identity.0 identity.1 chat_max_connections_per_user now t
          (h.roomless sid fresh) h.is_private;
    silent = h.sent;
  }

  pub join_global-IsQuiet :
      (q : Request) (payload : Payload) → Leads s (join_global q payload) (IsQuiet cs s)
  unfolding join_global may_join
  join_global-IsQuiet q payload =
      Leads-authenticated q _ s start stopped-IsQuiet λ r t h found allowed. Leads-change _ _ (
        let t₁ = (consume_join_of r.user_id t).1 in
        let h₁ = limiter-Keeps (consume_join event_limits t.clock r.user_id t.limiter).1 t h in
        Leads-check _ _ _ (stopped-IsQuiet _ t₁ h₁) λ within.
          Leads-check _ _ _ (stopped-IsQuiet _ t₁ h₁) λ valid.
            Leads-alter _ _ (Leads-done _ (joined-IsQuiet q.sid Room.global r t₁ _ h₁ found refl)))

  pub join_direct-IsQuiet :
      (p : Platform) (q : Request) (payload : Payload)
      → Leads s (join_direct p q payload) (IsQuiet cs s)
  unfolding join_direct
  join_direct-IsQuiet p q payload =
      Leads-authenticated q _ s start stopped-IsQuiet λ r t h found allowed. Leads-change _ _ (
        let t₁ = (consume_join_of r.user_id t).1 in
        let h₁ = limiter-Keeps (consume_join event_limits t.clock r.user_id t.limiter).1 t h in
        Leads-check _ _ _ (stopped-IsQuiet _ t₁ h₁) λ within.
          Leads-check _ _ _ (stopped-IsQuiet _ t₁ h₁) λ valid.
            Leads-some_or _ _ _ (stopped-IsQuiet _ t₁ h₁) λ id named.
              Leads-query (get_direct_conversation id r.user_id) _ t₁ h₁ stopped-IsQuiet λ u h₂.
                Leads-some_or _ _ _ (stopped-IsQuiet _ _ h₂) λ v is_there. Leads-alter _ _ (
                  Leads-done _ (
                    joined-IsQuiet q.sid (Room.direct id) r _ _ h₂ found (
                      subst (λ c. may_join c (Room.direct id) r.user_id ≡ true) conversations
                        (get_direct_conversation-participant id r.user_id db v is_there)))))
    where
      conversations : db.conversations ≡ cs
      conversations = ap (λ (d : Db). d.conversations) (sym start.reads) ∙ start.is_private.seen

  -- A socket that is in no room connects.
  pub connect_chat-IsQuiet :
      (q : Request) (auth : Payload)
      → is_in_rooms q.sid s ≡ false
      → Leads s (connect_chat q auth) (IsQuiet cs s)
  unfolding connect_chat connected_user
  connect_chat-IsQuiet q auth fresh = Leads-check _ _ _ (stopped-IsQuiet _ s start) λ exact.
      Leads-some_or _ _ _ (stopped-IsQuiet _ s start) λ token is_text.
        Leads-check _ _ _ (stopped-IsQuiet _ s start) λ taken.
          Leads-prune _ s start stopped-IsQuiet λ t h live. Leads-bind _ (
            Leads-some_or _ _ _ (stopped-IsQuiet _ t h) λ id logged_in.
              Leads-some_or _ _ _ (stopped-IsQuiet _ t h) λ version known.
                Leads-query (user_by_id id) _ t h stopped-IsQuiet λ u h₁.
                  Leads-or_stop _ _ (stopped-IsQuiet _ _ h₁) λ identity live_user.
                    Leads-change _ _ (
                      Leads-or_stop _ _ (added-IsQuiet q.sid identity t.clock _ _ h₁ fresh)
                        λ reply accepted. added-IsQuiet q.sid identity t.clock _ _ h₁ fresh))

  pub disconnect_chat-IsQuiet : (q : Request) → Leads s (disconnect_chat q) (IsQuiet cs s)
  unfolding disconnect_chat
  disconnect_chat-IsQuiet q =
      Leads-alter _ _ (Leads-done _ (Keeps-IsQuiet _ _ (disconnect_socket-Keeps q.sid s start)))
