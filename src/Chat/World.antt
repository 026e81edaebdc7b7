-- ===== src/Chat/World.antt =====
-- The socket handlers of app/chat/events.py over the life of the server: events, one after another,
-- with what the rest of the program and the time do between them.
use whs_secure_coding.Prelude.{
  Bool, List, [], all, any, arith, false, refl, subst, sym, true, ℕ, ◌++◌, ◌==◌, ◌∷◌, ◌≡◌, ◌≤◌,
}
use whs_secure_coding.Chat.Broadcasts.{IsSent}
use whs_secure_coding.Chat.Connections.{new_registry}
use whs_secure_coding.Chat.Events.{
  connect_chat, disconnect_chat, join_direct, join_global, send_direct, send_global,
}
use whs_secure_coding.Chat.Joins.{
  IsQuiet, connect_chat-IsQuiet, disconnect_chat-IsQuiet, join_direct-IsQuiet, join_global-IsQuiet,
}
use whs_secure_coding.Chat.Keeps.{Keeps}
use whs_secure_coding.Chat.Leads.{Goal, Leads}
use whs_secure_coding.Chat.Payloads.{Payload}
use whs_secure_coding.Chat.Privacy.{
  IsPrivate, all-seated, disconnect_sockets-IsPrivate, is_holder, is_seated, may_join,
  session-IsPrivate,
}
use whs_secure_coding.Chat.RateLimit.{reset}
use whs_secure_coding.Chat.Sends.{send_direct-IsSent, send_global-IsSent}
use whs_secure_coding.Chat.Server.{
  Handler, Membership, Outcome, Reply, Request, Room, Server, disconnect_sockets,
}
use whs_secure_coding.Platform.{Platform}
use whs_secure_coding.Schema.{Db, DirectConversation}
use whs_secure_coding.Session.{Session, Signal, open_session}

pub data Call : Type 0 where
  connect : Payload → Call
  disconnect : Call
  join_all : Payload → Call
  join_pair : Payload → Call
  send_all : Payload → Call
  send_pair : Payload → Call

-- The handler of an event.
abbrev pub handle_call : Platform → Request → Call → Handler Reply
handle_call p q (Call.connect auth) = connect_chat q auth
handle_call p q Call.disconnect = disconnect_chat q
handle_call p q (Call.join_all payload) = join_global q payload
handle_call p q (Call.join_pair payload) = join_direct p q payload
handle_call p q (Call.send_all payload) = send_global p q payload
handle_call p q (Call.send_pair payload) = send_direct p q payload

-- What Socket.IO grants: the socket of a new connection is in no room.
pub data IsDue (q : Request) (rooms : List Membership) : Call → Type 0 where
  new_socket :
      (auth : Payload)
      → any (λ (m : Membership). m.sid == q.sid) rooms ≡ false
      → IsDue q rooms (Call.connect auth)
  gone : IsDue q rooms Call.disconnect
  global_join : (payload : Payload) → IsDue q rooms (Call.join_all payload)
  direct_join : (payload : Payload) → IsDue q rooms (Call.join_pair payload)
  global_send : (payload : Payload) → IsDue q rooms (Call.send_all payload)
  direct_send : (payload : Payload) → IsDue q rooms (Call.send_pair payload)

-- What the database does during a request, the values of `uuid.uuid4()`, and the time.
pub record Surroundings : Type 0 where
  pub signals : List Signal
  pub uuids : ℕ → ℕ
  pub now : ℕ

-- Each event has a session of its own.
abbrev pub opened : Surroundings → Server → Server
opened w s = record s { session = open_session s.session.committed w.signals w.uuids w.now }

abbrev pub after_call : Platform → Request → Call → Surroundings → Server → Server
after_call p q c w s = (handle_call p q c (opened w s)).1

abbrev pub at_start : Db → Surroundings → ℕ → Server
at_start db w clock = record {
  session = open_session db w.signals w.uuids w.now;
  registry = new_registry;
  limiter = reset;
  rooms = [];
  deliveries = [];
  clock = clock;
}

-- The states of the server. Other requests change the database, where they may start conversations
-- and never end one, and close the sockets of a user.
pub data Reach (p : Platform) : Server → Type 0 where
  start : (db : Db) (w : Surroundings) (clock : ℕ) → Reach p (at_start db w clock)
  event :
      (s : Server) (q : Request) (c : Call) (w : Surroundings)
      → Reach p s
      → IsDue q s.rooms c
      → Reach p (after_call p q c w s)
  elsewhere :
      (s : Server) (db : Db) (w : Surroundings) (more : List DirectConversation)
      → Reach p s
      → db.conversations ≡ s.session.committed.conversations ++ more
      → Reach p (record s { session = open_session db w.signals w.uuids w.now })
  closed :
      (s : Server) (user : ℕ) → Reach p s → Reach p (disconnect_sockets (s.registry.by_user user) s)
  later : (s : Server) (time : ℕ) → Reach p s → s.clock ≤ time → Reach p (record s { clock = time })

-- What an event may do.
abbrev pub Effect : Call → List DirectConversation → Server → Goal Reply
Effect (Call.send_all payload) cs s = IsSent cs s
Effect (Call.send_pair payload) cs s = IsSent cs s
Effect _ cs s = IsQuiet cs s

abbrev pub conversations_of : Server → List DirectConversation
conversations_of s = s.session.committed.conversations

-- A state in which the rooms are private opens one.
opened-Keeps :
    (cs : List DirectConversation) (w : Surroundings) (s : Server)
    → IsPrivate cs s
    → Keeps cs s.session.committed (opened w s) (opened w s)
opened-Keeps cs w s h = record {
  is_private = session-IsPrivate _ s h.kept h.kept h;
  reads = refl;
  has = refl;
  sent = refl;
  time = refl;
  roomless = λ sid out. out;
}

handle_call-Effect :
    (p : Platform) (cs : List DirectConversation) (q : Request) (c : Call) (db : Db) (s : Server)
    → Keeps cs db s s
    → IsDue q s.rooms c
    → Leads s (handle_call p q c) (Effect c cs s)
handle_call-Effect p cs q (Call.connect auth) db s h (IsDue.new_socket _ fresh) =
    connect_chat-IsQuiet h q auth fresh
handle_call-Effect p cs q Call.disconnect db s h due = disconnect_chat-IsQuiet h q
handle_call-Effect p cs q (Call.join_all payload) db s h due = join_global-IsQuiet h q payload
handle_call-Effect p cs q (Call.join_pair payload) db s h due = join_direct-IsQuiet h p q payload
handle_call-Effect p cs q (Call.send_all payload) db s h due = send_global-IsSent h p q payload
handle_call-Effect p cs q (Call.send_pair payload) db s h due = send_direct-IsSent h p q payload

IsSent-IsPrivate :
    {cs : List DirectConversation} {s t : Server} {o : Outcome Reply}
    → IsSent cs s o t
    → IsPrivate cs t
IsSent-IsPrivate (IsSent.unsent r e h d) = h
IsSent-IsPrivate (IsSent.delivered m e h d a) = h

Effect-IsPrivate :
    (c : Call) (cs : List DirectConversation) (s t : Server) (o : Outcome Reply)
    → Effect c cs s o t
    → IsPrivate cs t
Effect-IsPrivate (Call.connect auth) cs s t o e = e.still_private
Effect-IsPrivate Call.disconnect cs s t o e = e.still_private
Effect-IsPrivate (Call.join_all payload) cs s t o e = e.still_private
Effect-IsPrivate (Call.join_pair payload) cs s t o e = e.still_private
Effect-IsPrivate (Call.send_all payload) cs s t o e = IsSent-IsPrivate e
Effect-IsPrivate (Call.send_pair payload) cs s t o e = IsSent-IsPrivate e

any_append_mono :
    {A : Type 0} (p : A → Bool) (xs ys : List A) → any p xs ≡ true → any p (xs ++ ys) ≡ true
unfolding any
any_append_mono p [] ys h = absurd (cc)
any_append_mono p (x ∷ xs) ys h = ground (arith, any_append_mono p xs ys)

any_mono :
    {A : Type 0} (p q : A → Bool) (xs : List A)
    → ((x : A) → p x ≡ true → q x ≡ true)
    → any p xs ≡ true
    → any q xs ≡ true
unfolding any
any_mono p q [] h a = a
any_mono p q (x ∷ xs) h a = ground (arith, any_mono p q xs h, h x)

may_join_more :
    (cs more : List DirectConversation) (room : Room) (user : ℕ)
    → may_join cs room user ≡ true
    → may_join (cs ++ more) room user ≡ true
unfolding may_join
may_join_more cs more Room.global user h = refl
may_join_more cs more (Room.direct c) user h = any_append_mono _ cs more h

-- New conversations leave the rooms private.
more-IsPrivate :
    (cs more : List DirectConversation) (s : Server) (t : Session)
    → t.working.conversations ≡ cs ++ more
    → t.committed.conversations ≡ cs ++ more
    → IsPrivate cs s
    → IsPrivate (cs ++ more) (record s { session = t })
unfolding is_seated
more-IsPrivate cs more s t seen kept h = record {
  seen = seen;
  kept = kept;
  seated =
      all-seated (is_seated cs s.registry) (is_seated (cs ++ more) s.registry) s.rooms
        (λ m x.
          any_mono (is_holder cs m) (is_holder (cs ++ more) m) s.registry.by_sid
            (λ r y. let z = may_join_more cs more m.room r.user_id in ground arith) x)
        h.seated;
}

own_conversations :
    (cs : List DirectConversation) (s : Server) → IsPrivate cs s → IsPrivate (conversations_of s) s
own_conversations cs s h = subst (λ c. IsPrivate c s) (sym h.kept) h

-- In every state of the server, each socket in a room belongs to a connection whose user may be in
-- the room: anyone in the global one, in that of a conversation its two participants.
pub Reach-IsPrivate : (p : Platform) (s : Server) → Reach p s → IsPrivate (conversations_of s) s
unfolding all
Reach-IsPrivate p _ (Reach.start db w clock) = record { seen = refl; kept = refl; seated = refl }
Reach-IsPrivate p _ (Reach.event s q c w r due) =
    let cs = conversations_of s in
    own_conversations cs _ (
      Effect-IsPrivate c cs (opened w s) _ _
        (handle_call-Effect p cs q c _ (opened w s) (opened-Keeps cs w s (Reach-IsPrivate p s r))
          due).at)
Reach-IsPrivate p _ (Reach.elsewhere s db w more r grown) =
    let t = open_session db w.signals w.uuids w.now in
    own_conversations (conversations_of s ++ more) (record s { session = t })
      (more-IsPrivate (conversations_of s) more s t grown grown (Reach-IsPrivate p s r))
Reach-IsPrivate p _ (Reach.closed s user r) =
    own_conversations (conversations_of s) _
      (disconnect_sockets-IsPrivate (s.registry.by_user user) s (Reach-IsPrivate p s r))
Reach-IsPrivate p _ (Reach.later s time r on) =
    let h = Reach-IsPrivate p s r in record { seen = h.seen; kept = h.kept; seated = h.seated }

-- In every state of the server, an event that sends a message is either stopped with a reply, and
-- nothing is sent, or it is acknowledged, and one message is: it is committed, with a clean body,
-- its sender is active and may be in the room, and it goes to sockets of live connections of those
-- who may be in the room only. Every other event sends nothing.
pub Reach-broadcasts :
    (p : Platform) (s : Server) (q : Request) (c : Call) (w : Surroundings)
    → Reach p s
    → IsDue q s.rooms c
    → Leads (opened w s) (handle_call p q c) (Effect c (conversations_of s) (opened w s))
Reach-broadcasts p s q c w r due =
    handle_call-Effect p (conversations_of s) q c s.session.committed (opened w s)
      (opened-Keeps (conversations_of s) w s (Reach-IsPrivate p s r)) due
