-- ===== src/Chat/EventTests.antt =====
-- Tests of the socket handlers, and the theorems on them at concrete inputs.
use whs_secure_coding.Prelude.{
  List, [], all, any, count, find, if◌then◌else◌, map, refl, select, some, true, ℕ, ◌==◌, ◌∷◌, ◌≡◌,
}
use whs_secure_coding.Chat.Connections.{
  ConnectionRecord, add, get, is_stale, prune_stale_connections,
}
use whs_secure_coding.Chat.Events.{
  authenticated_event, connect_chat, connected_user, failure, is_authorized, join_direct,
  prune_connections, save_and_emit, send_direct,
}
use whs_secure_coding.Chat.Leads.{Leads}
use whs_secure_coding.Chat.Messages.{get_direct_conversation, save_message}
use whs_secure_coding.Chat.Payloads.{Code, Payload, canonical_uuid, exact_payload, field}
use whs_secure_coding.Chat.Policy.{normalize_message_body}
use whs_secure_coding.Chat.Privacy.{IsPrivate}
use whs_secure_coding.Chat.RateLimit.{consume_join, consume_message, message_refused, prune}
use whs_secure_coding.Chat.Server.{
  Delivery, Outcome, Request, Room, Server, disconnect_sockets, is_in_room, sids_in,
}
use whs_secure_coding.Chat.World.{
  IsDue, Reach, Surroundings, at_start, conversations_of, handle_call, opened, Reach-IsPrivate,
  Reach-broadcasts,
}
use whs_secure_coding.Listing.{join, pair_with}
use whs_secure_coding.Samples.{ids, market, plain}
use whs_secure_coding.Schema.{Db}
use whs_secure_coding.Schema.Constraints.{message_allowed}
use whs_secure_coding.Session.{
  attempt, commit, execute, flush, new_uuid, or_return, pure, query, rollback, utc_now,
}
use whs_secure_coding.Text.{
  Text, codes, encoded_length, is_space, lstrip, replace_cr, replace_crlf, rstrip, strip, text_eq,
}
use whs_secure_coding.Wallet.Policy.{Arg}
use whs_secure_coding.Chat.Server.{◌>>=◌}
use whs_secure_coding.Chat.World.{Call, after_call, Effect}
use whs_secure_coding.Session

abbrev with_pair : Db
with_pair = record market {
  conversations = record { id = 65; user1_id = 1; user2_id = 2; created_at = 0 } ∷ [];
}

abbrev quiet_run : Surroundings
quiet_run = record { signals = []; uuids = ids; now = 5 }

abbrev asks : ℕ → ℕ → Request
asks sid user = record {
  sid = sid;
  session_user_id = some user;
  session_version = some 1;
  current_user_id = some user;
  csrf_valid = λ t. true;
}

abbrev login_payload : Payload
login_payload = Payload.object (("csrf_token", Arg.str (codes "t")) ∷ [])

abbrev pair_payload : Payload
pair_payload = Payload.object (("conversation_id", Arg.str (plain.uuid_text 65)) ∷ [])

abbrev message_payload : Payload
message_payload =
    Payload.object
      (("conversation_id", Arg.str (plain.uuid_text 65)) ∷ ("body", Arg.str (codes " hi ")) ∷ [])

abbrev first_state : Server
first_state = at_start with_pair quiet_run 10

abbrev one_connected : Server
one_connected = after_call plain (asks 70 1) (Call.connect login_payload) quiet_run first_state

abbrev two_connected : Server
two_connected = after_call plain (asks 71 2) (Call.connect login_payload) quiet_run one_connected

abbrev one_joined : Server
one_joined = after_call plain (asks 70 1) (Call.join_pair pair_payload) quiet_run two_connected

abbrev two_joined : Server
two_joined = after_call plain (asks 71 2) (Call.join_pair pair_payload) quiet_run one_joined

abbrev message_sent : Server
message_sent = after_call plain (asks 70 1) (Call.send_pair message_payload) quiet_run two_joined

abbrev shown_parts : Delivery → ℕ × List ℕ × Text
shown_parts m = (m.sender_id, m.recipients, m.message.body)

abbrev connected_as : ℕ → ℕ → ConnectionRecord
connected_as sid user = record {
  sid = sid;
  user_id = user;
  auth_version = 1;
  connected_monotonic = 10;
}

-- Alice and Bobby in the room of their conversation.
abbrev both_there : Server
both_there = record (at_start with_pair quiet_run 10) {
  registry = record {
    by_sid = connected_as 71 2 ∷ connected_as 70 1 ∷ [];
    by_user = λ user. (if user == 1 then 70 else 71) ∷ [];
  };
  rooms =
      record { sid = 71; room = Room.direct 65 } ∷ record { sid = 70; room = Room.direct 65 } ∷ [];
}

-- Both participants get the message, without the spaces around it.
message_delivered :
    map shown_parts (send_direct plain (asks 70 1) message_payload both_there).1.deliveries
    ≡ (1, 71 ∷ 70 ∷ [], codes "hi") ∷ []
unfolding ◌>>=◌ exact_payload all field find prune_connections any query send_direct
    authenticated_event disconnect_sockets prune_stale_connections select is_stale get is_authorized
    canonical_uuid text_eq get_direct_conversation join consume_message count save_and_emit
    save_message normalize_message_body message_refused prune is_in_room sids_in pair_with
    message_allowed attempt commit execute flush new_uuid or_return pure rollback utc_now
    encoded_length is_space lstrip replace_cr replace_crlf rstrip strip
    whs_secure_coding.Session.◌>>=◌
message_delivered = refl

one_connected-Reach : Reach plain one_connected
unfolding any
one_connected-Reach =
    Reach.event first_state (asks 70 1) (Call.connect login_payload) quiet_run
      (Reach.start with_pair quiet_run 10) (IsDue.new_socket login_payload refl)

two_connected-Reach : Reach plain two_connected
unfolding connect_chat ◌>>=◌ exact_payload all field find prune_connections connected_user any query
    add
two_connected-Reach =
    Reach.event one_connected (asks 71 2) (Call.connect login_payload) quiet_run one_connected-Reach
      (IsDue.new_socket login_payload refl)

two_joined-Reach : Reach plain two_joined
two_joined-Reach =
    Reach.event one_joined (asks 71 2) (Call.join_pair pair_payload) quiet_run
      (Reach.event two_connected (asks 70 1) (Call.join_pair pair_payload) quiet_run
        two_connected-Reach (IsDue.direct_join pair_payload))
      (IsDue.direct_join pair_payload)

Reach-IsPrivate_example : IsPrivate (conversations_of two_joined) two_joined
Reach-IsPrivate_example = Reach-IsPrivate plain two_joined two_joined-Reach

Reach-broadcasts_example :
    Leads
      (opened quiet_run two_joined)
      (handle_call plain (asks 70 1) (Call.send_pair message_payload))
      (Effect
        (Call.send_pair message_payload)
        (conversations_of two_joined)
        (opened quiet_run two_joined))
Reach-broadcasts_example =
    Reach-broadcasts plain two_joined (asks 70 1) (Call.send_pair message_payload) quiet_run
      two_joined-Reach (IsDue.direct_send message_payload)

-- Carol is not told whether there is a conversation of others.
stranger_refused :
    (join_direct plain (asks 72 3) pair_payload (record both_there {
      registry = record { by_sid = connected_as 72 3 ∷ []; by_user = λ user. 72 ∷ [] };
    })).0
    ≡ Outcome.stopped (failure Code.not_found)
unfolding ◌>>=◌ exact_payload all field find prune_connections any query join_direct
    authenticated_event disconnect_sockets prune_stale_connections select is_stale get is_authorized
    canonical_uuid text_eq get_direct_conversation join consume_join prune pair_with
stranger_refused = refl
