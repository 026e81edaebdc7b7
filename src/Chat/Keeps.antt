-- ===== src/Chat/Keeps.antt =====
-- What the steps of a handler keep before it saves a message, and what leads there: the pruning and
-- the check of the session of app/chat/connections.py.
use whs_secure_coding.Prelude.{
  Bool, List, Option, [], all, ap, false, if◌then◌else◌, none, not, refl, some, subst, sym, true, ℕ,
  ◌∙◌, ◌∷◌, ◌≡◌,
}
use whs_secure_coding.Chat.Connections.{
  ConnectionRecord, disconnect_sids, get, is_stale, prune_stale_connections,
}
use whs_secure_coding.Chat.Conversations.{user_by_id}
use whs_secure_coding.Chat.Events.{
  authenticated_event, failure, is_authorized, prune_against, prune_connections, prune_some,
  run_authorized, terminate,
}
use whs_secure_coding.Chat.Leads.{
  Goal, Leads, Leads-bind, Leads-done, Leads-last, Leads-on_db, Leads-read, Then,
}
use whs_secure_coding.Chat.Payloads.{Code}
use whs_secure_coding.Chat.Privacy.{
  IsPrivate, any-leave_rooms, disconnect_socket-IsPrivate, is_in_rooms, session-IsPrivate,
}
use whs_secure_coding.Chat.Server.{
  Handler, Outcome, Reply, Request, Server, alter, disconnect_socket, disconnect_sockets, on_db,
}
use whs_secure_coding.Chat.Sockets.{prune-not_stale}
use whs_secure_coding.Schema.{Db, DirectConversation}
use whs_secure_coding.Session.{Session, query}
use whs_secure_coding.Session.Ends.{Ends}
use whs_secure_coding.Session.Reads.{QueryPost, query-Ends}
use whs_secure_coding.Chat.Server.{◌>>=◌}

-- From `s`, nothing was sent, `db` is what is seen and what is committed, and the rooms are private.
pub record Keeps (cs : List DirectConversation) (db : Db) (s t : Server) : Type 0 where
  pub is_private : IsPrivate cs t
  pub reads : t.session.working ≡ db
  pub has : t.session.committed ≡ db
  pub sent : t.deliveries ≡ s.deliveries
  pub time : t.clock ≡ s.clock
  pub roomless : (sid : ℕ) → is_in_rooms sid s ≡ false → is_in_rooms sid t ≡ false

-- Every connection is of a live user, with a session that is not outdated.
abbrev pub all_live : Db → Server → Bool
all_live db t = all (λ (r : ConnectionRecord). not (is_stale db t.clock r)) t.registry.by_sid

-- The sockets that are disconnected leave the registry, and the session is as it was.
pub disconnect_sockets-registry :
    (sids : List ℕ) (s : Server)
    → (disconnect_sockets sids s).registry ≡ disconnect_sids sids s.registry
unfolding disconnect_sockets disconnect_sids disconnect_socket
disconnect_sockets-registry [] s = refl
disconnect_sockets-registry (sid ∷ sids) s =
    disconnect_sockets-registry sids (disconnect_socket sid s)

pub disconnect_sockets-clock :
    (sids : List ℕ) (s : Server) → (disconnect_sockets sids s).clock ≡ s.clock
unfolding disconnect_sockets disconnect_socket
disconnect_sockets-clock [] s = refl
disconnect_sockets-clock (sid ∷ sids) s = disconnect_sockets-clock sids (disconnect_socket sid s)

module _ {cs : List DirectConversation} {db : Db} {s₀ : Server} where
  pub disconnect_socket-Keeps :
      (sid : ℕ) (s : Server) → Keeps cs db s₀ s → Keeps cs db s₀ (disconnect_socket sid s)
  unfolding disconnect_socket
  disconnect_socket-Keeps sid s h = record {
    is_private = disconnect_socket-IsPrivate sid s h.is_private;
    reads = h.reads;
    has = h.has;
    sent = h.sent;
    time = h.time;
    roomless = λ x out. any-leave_rooms x sid s.rooms (h.roomless x out);
  }

  disconnect_sockets-Keeps :
      (sids : List ℕ) (s : Server) → Keeps cs db s₀ s → Keeps cs db s₀ (disconnect_sockets sids s)
  unfolding disconnect_sockets
  disconnect_sockets-Keeps [] s h = h
  disconnect_sockets-Keeps (sid ∷ sids) s h =
      disconnect_sockets-Keeps sids (disconnect_socket sid s) (disconnect_socket-Keeps sid s h)

  -- A socket that is disconnected is answered that it is not authorized.
  pub terminate-Leads :
      {C : Type 0} {R : Goal C} (sid : ℕ) (s : Server)
      → Keeps cs db s₀ s
      → ((r : Reply) (t : Server) → Keeps cs db s₀ t → R (Outcome.stopped r) t)
      → Leads s (terminate sid) R
  unfolding terminate
  terminate-Leads sid s h stop = record {
    at = stop (failure Code.unauthorized) _ (disconnect_socket-Keeps sid s h);
  }

  module _ {B : Type 0} {Q : Goal B} where
    pub Leads-query :
        {A : Type 0} (f : Db → A) (k : A → Handler B) (s : Server)
        → Keeps cs db s₀ s
        → ((r : Reply) (t : Server) → Keeps cs db s₀ t → Q (Outcome.stopped r) t)
        → ((t : Session)
            → Keeps cs db s₀ (record s { session = t })
            → Leads (record s { session = t }) (k (f db)) Q)
        → Leads s (on_db (query f) >>= k) Q
    Leads-query f k s h stop goes =
        Leads-on_db (query f) (QueryPost db f) k
          (subst (λ w. Ends w s.session.committed (query f) (QueryPost db f)) (sym h.reads)
            (subst (λ d. Ends db d (query f) (QueryPost db f)) (sym h.has) (query-Ends db f)))
          (λ e t x. stop Reply.unhandled _ (keeps t x.0 x.1))
          (λ a t x.
            subst (λ v. Leads (record s { session = t }) (k v) Q) (sym x.0)
              (goes t (keeps t x.1 x.2)))
      where
        conversations : db.conversations ≡ cs
        conversations = ap (λ (d : Db). d.conversations) (sym h.reads) ∙ h.is_private.seen

        keeps :
            (t : Session)
            → t.working ≡ db
            → t.committed ≡ db
            → Keeps cs db s₀ (record s { session = t })
        keeps t hw hd = record {
          is_private =
              session-IsPrivate t s (ap (λ (d : Db). d.conversations) hw ∙ conversations)
                (ap (λ (d : Db). d.conversations) hd ∙ conversations) h.is_private;
          reads = hw;
          has = hd;
          sent = h.sent;
          time = h.time;
          roomless = h.roomless;
        }

  module _ {B : Type 0} {Q : Goal B} where
    -- After the pruning, every connection is live.
    pub Leads-prune :
        (k : Unit {0} → Handler B) (s : Server)
        → Keeps cs db s₀ s
        → ((r : Reply) (t : Server) → Keeps cs db s₀ t → Q (Outcome.stopped r) t)
        → ((t : Server) → Keeps cs db s₀ t → all_live db t ≡ true → Leads t (k tt) Q)
        → Leads s (prune_connections >>= k) Q
    unfolding prune_connections prune_stale_connections all
    Leads-prune k s h stop goes =
        Leads-bind _
          (Leads-read (λ t. t.registry.by_sid) prune_some (pruned s.registry.by_sid refl))
      where
        pruned :
            (rs : List ConnectionRecord)
            → s.registry.by_sid ≡ rs
            → Leads s (prune_some rs) (Then k Q)
        pruned [] none_yet = Leads-done tt (goes s h (rw none_yet refl))
        pruned (r ∷ rs) x =
            Leads-query {Q = Then k Q} (λ d. d) (λ d. alter (prune_against d)) s h stop
              (λ t kept. Leads-last (prune_against db) (
                let gone = (prune_stale_connections db s.clock s.registry).0 in
                let s₁ : Server = record s { session = t } in
                goes (disconnect_sockets gone s₁) (disconnect_sockets-Keeps gone s₁ kept) (
                  rw (disconnect_sockets-clock gone s₁, disconnect_sockets-registry gone s₁)
                    (prune-not_stale db s.clock s.registry))))

    -- The handler runs where the socket has a connection, whose user is active and has the session
    -- that the request carries.
    pub Leads-authenticated :
        (q : Request) (handler : ConnectionRecord → Handler B) (s : Server)
        → Keeps cs db s₀ s
        → ((r : Reply) (t : Server) → Keeps cs db s₀ t → Q (Outcome.stopped r) t)
        → ((r : ConnectionRecord) (t : Server)
            → Keeps cs db s₀ t
            → get q.sid t.registry ≡ some r
            → is_authorized q r (user_by_id r.user_id db) ≡ true
            → Leads t (handler r) Q)
        → Leads s (authenticated_event q handler) Q
    unfolding authenticated_event
    Leads-authenticated q handler s h stop goes = Leads-prune _ s h stop (λ t kept live.
        Leads-read (λ u. get q.sid u.registry) (run_authorized q handler)
          (found_as t kept (get q.sid t.registry) refl))
      where
        decided :
            (r : ConnectionRecord) (t : Server) (b : Bool)
            → Keeps cs db s₀ t
            → get q.sid t.registry ≡ some r
            → is_authorized q r (user_by_id r.user_id db) ≡ b
            → Leads t (if b then handler r else terminate q.sid) Q
        decided r t true kept found e = goes r t kept found e
        decided r t false kept found e = terminate-Leads q.sid t kept stop

        found_as :
            (t : Server)
            → Keeps cs db s₀ t
            → (o : Option ConnectionRecord) → get q.sid t.registry ≡ o
            → Leads t (run_authorized q handler o) Q
        found_as t kept none e = terminate-Leads q.sid t kept stop
        found_as t kept (some r) e =
            Leads-query (user_by_id r.user_id) _ t kept stop
              (λ u again. decided r (record t { session = u }) _ again e refl)
