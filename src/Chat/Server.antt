-- ===== src/Chat/Server.antt =====
-- The state that the socket handlers of app/chat/events.py share: the session of the event, the
-- registry and the limiter of app/chat/__init__.py, and what Flask-SocketIO keeps, the rooms of
-- the sockets and what it has sent to them. A handler is a chain of steps in which a `return
-- ack_error(...)` or an exception stops the rest.
-- `GLOBAL_ROOM`, and `direct_room(conversation_id)`.
use whs_secure_coding.Prelude.{
  Bool, List, Option, [], any, false, map, none, not, select, some, true, ℕ, ◌&&◌, ◌==◌, ◌∷◌,
}
use whs_secure_coding.Chat.Connections.{ConnectionRegistry, remove}
use whs_secure_coding.Chat.Histories.{ChatMessageView}
use whs_secure_coding.Chat.Payloads.{Ack}
use whs_secure_coding.Chat.RateLimit.{ChatEventLimiter}
use whs_secure_coding.Schema.{Db}
use whs_secure_coding.Session.{Result, Session, Tx, ok, raised}
use whs_secure_coding.Text.{Text}

pub data Room : Type 0 where
  global : Room
  direct : ℕ → Room

pub record Membership : Type 0 where
  pub sid : ℕ
  pub room : Room

-- A message that was sent to the sockets of a room, which are `recipients`.
pub record Delivery : Type 0 where
  pub room : Room
  pub sender_id : ℕ
  pub message : ChatMessageView
  pub recipients : List ℕ

pub record Server : Type 0 where
  pub session : Session
  pub registry : ConnectionRegistry
  pub limiter : ChatEventLimiter
  pub rooms : List Membership
  pub deliveries : List Delivery
  pub clock : ℕ

abbrev pub committed_db : Server → Db
committed_db s = s.session.committed

-- The request of an event: its socket, what its Flask session holds (`none` where that is not of
-- the type that is asked for), `current_user.get_id()` of an authenticated `current_user`, and the
-- CSRF tokens that `validate_csrf` takes. The last two are Flask-Login's and Flask-WTF's.
pub record Request : Type 0 where
  pub sid : ℕ
  pub session_user_id : Option ℕ
  pub session_version : Option ℕ
  pub current_user_id : Option ℕ
  pub csrf_valid : Text → Bool

-- What an event is answered: an acknowledgement, a refused connection, or the error handler's.
pub data Reply : Type 0 where
  acknowledged : Ack → Reply
  refused_connection : Reply
  unhandled : Reply

pub data Outcome (A : Type 0) : Type 0 where
  next : A → Outcome A
  stopped : Reply → Outcome A

abbrev pub Handler : Type 0 → Type 0
Handler A = Server → Outcome A × Server

abbrev pub continue_with : {A B : Type 0} → Outcome A → (A → Handler B) → Handler B
continue_with (Outcome.next a) k s = k a s
continue_with (Outcome.stopped r) k s = (Outcome.stopped r, s)

abbrev pub of_result : {A : Type 0} → Result A → Outcome A
of_result (ok a) = Outcome.next a
of_result (raised e) = Outcome.stopped Reply.unhandled

module _ {A : Type 0} where
  unfoldable pub done : A → Handler A
  done a s = (Outcome.next a, s)

  -- A statement of the database.
  unfoldable pub on_db : Tx A → Handler A
  on_db m s = let (r, t) = m s.session in (of_result r, record s { session = t })

  -- `if o is None: return reply`
  unfoldable pub some_or : Option A → Reply → Handler A
  some_or none r s = (Outcome.stopped r, s)
  some_or (some a) r s = (Outcome.next a, s)

  unfoldable pub read : (Server → A) → Handler A
  read f s = (Outcome.next (f s), s)

  -- A call that changes the state and returns a value.
  unfoldable pub change : (Server → A × Server) → Handler A
  change f s = let (a, t) = f s in (Outcome.next a, t)

-- `if not test: return reply`
unfoldable pub check : Bool → Reply → Handler (Unit {0})
check true r s = (Outcome.next tt, s)
check false r s = (Outcome.stopped r, s)

unfoldable pub alter : (Server → Server) → Handler (Unit {0})
alter f s = (Outcome.next tt, f s)

-- The rest of a handler.
infixl 10 ◌>>=◌ ◌>>◌
unfoldable pub ◌>>=◌ : {A B : Type 0} → Handler A → (A → Handler B) → Handler B
unfolding done on_db some_or read change check alter
◌>>=◌ m k s = let (o, t) = m s in continue_with o k t

abbrev pub ◌>>◌ : {A B : Type 0} → Handler A → Handler B → Handler B
m >> k = m >>= λ _. k

abbrev pub is_same_room : Room → Room → Bool
is_same_room Room.global Room.global = true
is_same_room (Room.direct c) (Room.direct d) = c == d
is_same_room _ _ = false

-- `room in rooms(namespace=CHAT_NAMESPACE)`
unfoldable pub is_in_room : ℕ → Room → List Membership → Bool
is_in_room sid room rooms = any (λ (m : Membership). m.sid == sid && is_same_room m.room room) rooms

-- `join_room`
abbrev pub join_room : ℕ → Room → Server → Server
join_room sid room s = record s { rooms = record { sid = sid; room = room } ∷ s.rooms }

-- A socket that is disconnected leaves its rooms.
unfoldable pub leave_rooms : ℕ → List Membership → List Membership
leave_rooms sid rooms = select (λ (m : Membership). not (m.sid == sid)) rooms

-- `registry.remove(sid)` and `socketio.server.disconnect(sid)`.
unfoldable pub disconnect_socket : ℕ → Server → Server
disconnect_socket sid s = record s {
  registry = (remove sid s.registry).1;
  rooms = leave_rooms sid s.rooms;
}

-- `_disconnect_sids`
unfoldable pub disconnect_sockets : List ℕ → Server → Server
disconnect_sockets [] s = s
disconnect_sockets (sid ∷ sids) s = disconnect_sockets sids (disconnect_socket sid s)

-- The sids in a room.
unfoldable pub sids_in : Room → List Membership → List ℕ
sids_in room rooms =
    map (λ (m : Membership). m.sid) (select (λ (m : Membership). is_same_room m.room room) rooms)

-- `socketio.emit("chat:message", ..., to=room)`
abbrev pub emit : Room → ℕ → ChatMessageView → Server → Server
emit room sender_id message s = record s {
  deliveries =
      record {
        room = room;
        sender_id = sender_id;
        message = message;
        recipients = sids_in room s.rooms;
      }
      ∷ s.deliveries;
}
