-- ===== src/Chat/Events.antt =====
-- app/chat/events.py and `authenticated_chat_event` of app/chat/connections.py.
use whs_secure_coding.Prelude.{
  Bool, List, Option, [], false, holds, if◌then◌else◌, none, not, option_map, some, ℕ, ◌&&◌, ◌==◌,
  ◌∷◌,
}
use whs_secure_coding.Chat.Connections.{
  ConnectionRecord, ConnectionRegistry, add, get, prune_stale_connections,
}
use whs_secure_coding.Chat.Conversations.{user_by_id}
use whs_secure_coding.Chat.Histories.{ChatMessageView}
use whs_secure_coding.Chat.Messages.{MessageSaveResult, get_direct_conversation, save_message}
use whs_secure_coding.Chat.Payloads.{
  Ack, Code, Payload, canonical_uuid, exact_payload, field, is_filled,
}
use whs_secure_coding.Chat.Policy.{Body, normalize_message_body}
use whs_secure_coding.Chat.RateLimit.{ChatEventLimiter, Limits, consume_join, consume_message}
use whs_secure_coding.Chat.Server.{
  Handler, Outcome, Reply, Request, Room, Server, alter, check, disconnect_socket,
  disconnect_sockets, done, emit, is_in_room, join_room, on_db, read, some_or,
}
use whs_secure_coding.Config.{
  chat_join_limit, chat_join_window_seconds, chat_max_connections_per_user,
  chat_message_burst_limit, chat_message_burst_window_seconds, chat_message_hourly_limit,
}
use whs_secure_coding.Platform.{Platform}
use whs_secure_coding.Schema.{Db, User, is_active}
use whs_secure_coding.Session.{query}
use whs_secure_coding.Text.{Text}
use whs_secure_coding.Wallet.Policy.{Arg}
use whs_secure_coding.Chat.Server.{◌>>=◌, ◌>>◌, change}

abbrev pub failure : Code → Reply
failure c = Reply.acknowledged (Ack.error c)

abbrev pub is_some_id : Option ℕ → ℕ → Bool
is_some_id o k = holds o k

abbrev pub prune_against : Db → Server → Server
prune_against db s = disconnect_sockets (prune_stale_connections db s.clock s.registry).0 s

abbrev pub prune_some : List ConnectionRecord → Handler (Unit {0})
prune_some [] = done tt
prune_some (r ∷ rs) = do db ← on_db (query (λ db. db)); alter (prune_against db)

-- `prune_stale_connections`: with no connection the database is not asked.
unfoldable pub prune_connections : Handler (Unit {0})
prune_connections = do records ← read (λ s. s.registry.by_sid); prune_some records

-- `_terminate_current_socket`, and `return ack_error("unauthorized")`.
unfoldable pub terminate : {A : Type 0} → ℕ → Handler A
terminate sid s = (Outcome.stopped (failure Code.unauthorized), disconnect_socket sid s)

-- The test of the wrapper on the row of the user, the record and the session.
unfoldable pub is_authorized : Request → ConnectionRecord → Option User → Bool
is_authorized q r none = false
is_authorized q r (some u) =
    is_active u.status
    && u.auth_version == r.auth_version
    && holds q.session_user_id r.user_id
    && holds q.session_version u.auth_version
    && holds q.current_user_id r.user_id

-- What the wrapper does with the record that it found.
abbrev pub run_authorized :
    {A : Type 0} → Request → (ConnectionRecord → Handler A) → Option ConnectionRecord → Handler A
run_authorized q handler none = terminate q.sid
run_authorized q handler (some r) = do
  row ← on_db (query (user_by_id r.user_id))
  if is_authorized q r row then handler r else terminate q.sid

-- `authenticated_chat_event`, with the handler that it wraps.
unfoldable pub authenticated_event :
    {A : Type 0} → Request → (ConnectionRecord → Handler A) → Handler A
authenticated_event q handler = do
  prune_connections
  found ← read (λ s. get q.sid s.registry)
  run_authorized q handler found

-- `CHAT_*` of the configuration.
abbrev pub event_limits : Limits
event_limits = record {
  message_burst_limit = chat_message_burst_limit;
  message_burst_window = chat_message_burst_window_seconds;
  message_hourly_limit = chat_message_hourly_limit;
  join_limit = chat_join_limit;
  join_window = chat_join_window_seconds;
}

abbrev pub with_limiter : Bool × ChatEventLimiter → Server → Bool × Server
with_limiter (allowed, limiter) s = (allowed, record s { limiter = limiter })

-- `_event_limiter().consume_join(user_id)`
abbrev pub consume_join_of : ℕ → Server → Bool × Server
consume_join_of user s = with_limiter (consume_join event_limits s.clock user s.limiter) s

-- `_event_limiter().consume_message(user_id)`
abbrev pub consume_message_of : ℕ → Server → Bool × Server
consume_message_of user s = with_limiter (consume_message event_limits s.clock user s.limiter) s

-- The test of `_connected_user` on the row of the user.
abbrev pub identity_of : Request → Option User → Option (ℕ × ℕ)
identity_of q none = none
identity_of q (some u) =
    if is_active u.status && holds q.session_version u.auth_version && holds q.current_user_id u.id
    then some (u.id, u.auth_version)
    else none

-- `_connected_user`
unfoldable pub connected_user : Request → Handler (ℕ × ℕ)
connected_user q = do
  user_id ← some_or q.session_user_id Reply.refused_connection
  version ← some_or q.session_version Reply.refused_connection
  row ← on_db (query (user_by_id user_id))
  some_or (identity_of q row) Reply.refused_connection

abbrev pub text_of : Arg → Option Text
text_of (Arg.str s) = some s
text_of _ = none

abbrev pub with_registry :
    Option ConnectionRecord × ConnectionRegistry → Server → Option ConnectionRecord × Server
with_registry (r, registry) s = (r, record s { registry = registry })

unfoldable pub connect_chat : Request → Payload → Handler Reply
connect_chat q auth = do
  check (exact_payload auth ("csrf_token" ∷ [])) Reply.refused_connection
  token ← some_or (text_of (field "csrf_token" auth)) Reply.refused_connection
  check (q.csrf_valid token) Reply.refused_connection
  prune_connections
  identity ← connected_user q
  added ← change (λ s.
      with_registry
        (add q.sid identity.0 identity.1 chat_max_connections_per_user s.clock s.registry) s)
  some_or (option_map (λ r. Reply.acknowledged Ack.success) added) Reply.refused_connection

-- `disconnect_chat`, and the rooms that Socket.IO closes.
unfoldable pub disconnect_chat : Request → Handler Reply
disconnect_chat q = do alter (disconnect_socket q.sid); done (Reply.acknowledged Ack.success)

unfoldable pub join_global : Request → Payload → Handler Reply
join_global q payload = authenticated_event q λ r. do
  allowed ← change (consume_join_of r.user_id)
  check allowed (failure Code.rate_limited)
  check (not (is_filled payload)) (failure Code.invalid_payload)
  alter (join_room q.sid Room.global)
  done (Reply.acknowledged Ack.success)

unfoldable pub join_direct : Platform → Request → Payload → Handler Reply
join_direct p q payload = authenticated_event q λ r. do
  allowed ← change (consume_join_of r.user_id)
  check allowed (failure Code.rate_limited)
  check (exact_payload payload ("conversation_id" ∷ [])) (failure Code.invalid_payload)
  id ← some_or (canonical_uuid p (field "conversation_id" payload)) (failure Code.invalid_payload)
  found ← on_db (query (get_direct_conversation id r.user_id))
  conversation ← some_or found (failure Code.not_found)
  alter (join_room q.sid (Room.direct id))
  done (Reply.acknowledged Ack.success)

-- `validation.body` of a valid body; the UnicodeEncodeError reaches the error handler.
abbrev pub valid_body : Body → Handler Text
valid_body (Body.valid s) = done s
valid_body Body.invalid = some_or none (failure Code.invalid_payload)
valid_body Body.unencodable = some_or none Reply.unhandled

abbrev pub saved_message : MessageSaveResult → Option ChatMessageView
saved_message (MessageSaveResult.saved v) = some v
saved_message MessageSaveResult.database_error = none

-- What is done with the result of `save_message`; `_emit_message` prunes before it emits.
abbrev pub finish_sending : ℕ → Room → MessageSaveResult → Handler Reply
finish_sending sender_id room result = do
  message ← some_or (saved_message result) (failure Code.server_error)
  prune_connections
  alter (emit room sender_id message)
  done (Reply.acknowledged Ack.success)

-- From `save_message` to the end.
unfoldable pub save_and_emit : ℕ → Room → Option ℕ → Text → Handler Reply
save_and_emit sender_id room conversation_id body = do
  result ← on_db (save_message sender_id conversation_id body)
  finish_sending sender_id room result

unfoldable pub send_global : Platform → Request → Payload → Handler Reply
send_global p q payload = authenticated_event q λ r. do
  allowed ← change (consume_message_of r.user_id)
  check allowed (failure Code.rate_limited)
  check (exact_payload payload ("body" ∷ [])) (failure Code.invalid_payload)
  body ← valid_body (normalize_message_body p (field "body" payload))
  joined ← read (λ s. is_in_room q.sid Room.global s.rooms)
  check joined (failure Code.not_joined)
  save_and_emit r.user_id Room.global none body

-- `validation` is computed before the test on `conversation_id`.
unfoldable pub send_direct : Platform → Request → Payload → Handler Reply
send_direct p q payload = authenticated_event q λ r. do
  allowed ← change (consume_message_of r.user_id)
  check allowed (failure Code.rate_limited)
  check (exact_payload payload ("conversation_id" ∷ "body" ∷ [])) (failure Code.invalid_payload)
  body ← valid_body (normalize_message_body p (field "body" payload))
  id ← some_or (canonical_uuid p (field "conversation_id" payload)) (failure Code.invalid_payload)
  joined ← read (λ s. is_in_room q.sid (Room.direct id) s.rooms)
  check joined (failure Code.not_joined)
  found ← on_db (query (get_direct_conversation id r.user_id))
  conversation ← some_or found (failure Code.not_found)
  check conversation.counterpart_is_active (failure Code.unavailable)
  save_and_emit r.user_id (Room.direct id) (some id) body
