-- ===== src/Chat/Tests.antt =====
-- Tests of the chat, and its theorems at concrete inputs.
use whs_secure_coding.Prelude.{
  All, Bool, List, String, [], all, any, arith, count, false, find, map, none, refl, select, some,
  true, ℕ, ◌∷◌, ◌≡◌,
}
use whs_secure_coding.Chat.Agreement.{IsAgreed, IsFresh, operate_all-IsAgreed}
use whs_secure_coding.Chat.Connections.{
  add, discard, drop_sid, get, is_stale, new_registry, prune_stale_connections, remove, set_add,
}
use whs_secure_coding.Chat.Conversations.{
  DirectConversationResult, on_start_error, open_pair, start_direct_conversation,
}
use whs_secure_coding.Chat.Histories.{
  ChatMessageView, IsShown, get_message_history, history_hides, message_shown, reversed,
}
use whs_secure_coding.Chat.Pairs.{IsPaired, StartCall, after_starts, one_conversation}
use whs_secure_coding.Chat.Policy.{Body, normalize_message_body}
use whs_secure_coding.Chat.RateLimit.{Limits, consume_message, message_refused, prune, reset}
use whs_secure_coding.Chat.Rates.{Event, IsWithin, accepted, message_rate_bounded}
use whs_secure_coding.Chat.Registry.{Operation, operate_all}
use whs_secure_coding.Chat.Sockets.{Ended, IsLive, IsSound, prune_leaves-IsLive}
use whs_secure_coding.Listing.{join, limit_offset, order_by, pair_with}
use whs_secure_coding.Samples.{ids, market, member, plain}
use whs_secure_coding.Schema.{ChatMessage, Db, Role, UserStatus}
use whs_secure_coding.Schema.Constraints.{conversation_allowed}
use whs_secure_coding.Session.{Signal, open_session}
use whs_secure_coding.Text.{
  codes, encoded_length, is_space, replace_cr, replace_crlf, strip, text_eq,
}
use whs_secure_coding.Wallet.Policy.{Arg}
use whs_secure_coding.Session.{◌>>=◌, ok}

abbrev chat_limits : Limits
chat_limits = record {
  message_burst_limit = 5;
  message_burst_window = 10;
  message_hourly_limit = 120;
  join_limit = 30;
  join_window = 60;
}

abbrev says : ℕ → ℕ → Event
says user time = record { user = user; time = time }

abbrev flood : List Event
flood =
    says 1 100
    ∷ says 1 101
    ∷ says 2 101
    ∷ says 1 102
    ∷ says 1 103
    ∷ says 1 104
    ∷ says 1 105
    ∷ says 1 110
    ∷ []

flood-accepted : accepted chat_limits 1 reset flood ≡ 100 ∷ 101 ∷ 102 ∷ 103 ∷ 104 ∷ 110 ∷ []
unfolding accepted consume_message prune message_refused count
flood-accepted = refl

message_rate_bounded_example : IsWithin chat_limits 100 (accepted chat_limits 1 reset flood)
message_rate_bounded_example = message_rate_bounded chat_limits 1 100 flood (omega arith) (
  omega arith,
  (
    omega arith,
    (omega arith, (omega arith, (omega arith, (omega arith, (omega arith, (omega arith, tt)))))),
  ),
)

abbrev opened : List Operation
opened =
    Operation.connect 70 1 1 10
    ∷ Operation.connect 71 1 1 11
    ∷ Operation.connect 72 2 1 12
    ∷ Operation.leave 71
    ∷ []

new_registry-IsSound : IsSound 5 new_registry
unfolding all
new_registry-IsSound = record { bounded = λ user. omega arith; indexed = λ user. refl }

new_registry-IsAgreed : IsAgreed 5 new_registry
unfolding any
new_registry-IsAgreed = record {
  sound = new_registry-IsSound;
  known = λ user sid held. absurd (cc);
}

opened-IsFresh : IsFresh 5 opened new_registry
unfolding get find add drop_sid select set_add any
opened-IsFresh = (refl, (refl, (refl, tt)))

operate_all-IsAgreed_example : IsAgreed 5 (operate_all 5 opened new_registry)
operate_all-IsAgreed_example =
    operate_all-IsAgreed 5 opened new_registry new_registry-IsAgreed opened-IsFresh

-- Alice's socket is older than half an hour; Bobby's is not.
pruned : (prune_stale_connections market 1811 (operate_all 5 opened new_registry)).0 ≡ 70 ∷ []
unfolding prune_stale_connections add remove get drop_sid discard set_add select find any is_stale
pruned = refl

prune_leaves-IsLive_example :
    All
      (IsLive market 1811)
      (prune_stale_connections market 1811 (operate_all 5 opened new_registry)).1.by_sid
    × All
        (Ended market 1811 (operate_all 5 opened new_registry))
        (prune_stale_connections market 1811 (operate_all 5 opened new_registry)).0
prune_leaves-IsLive_example = prune_leaves-IsLive market 1811 (operate_all 5 opened new_registry)

-- A lone surrogate, as JSON can spell it, ends in a UnicodeEncodeError.
lone_surrogate : normalize_message_body plain (Arg.str (55296 ∷ [])) ≡ Body.unencodable
unfolding normalize_message_body strip is_space replace_crlf replace_cr encoded_length all
lone_surrogate = refl

abbrev start_call : ℕ → String → List Signal → StartCall
start_call id name signals = record {
  authenticated_id = id;
  target_username = codes name;
  signals = signals;
  uuids = ids;
  now = 5;
}

abbrev start_calls : List StartCall
start_calls =
    start_call 1 "bobby" (Signal.fine ∷ Signal.fine ∷ Signal.fine ∷ Signal.integrity ∷ [])
    ∷ start_call 2 "alice" []
    ∷ start_call 1 "bobby" []
    ∷ []

market-IsPaired : IsPaired market
unfolding count all
market-IsPaired = record { one = λ i j. omega arith; sorted = refl }

-- Alice starts the conversation, and Bobby then finds it.
one_conversation_example :
    let db = after_starts start_calls market in
    IsPaired db
    × ((start_direct_conversation 2 (codes "alice") (open_session db [] ids 9)).0
        ≡ ok (record { result = DirectConversationResult.existing; conversation_id = some 100 }))
unfolding start_direct_conversation open_pair ◌>>=◌ conversation_allowed on_start_error find any
    count text_eq
one_conversation_example =
    one_conversation start_calls market (member 2 "bobby" Role.user UserStatus.active)
      (member 1 "alice" Role.user UserStatus.active) (codes "alice")
      (record { id = 100; user1_id = 1; user2_id = 2; created_at = 5 }) ids 9 market-IsPaired refl
      refl refl refl refl

abbrev line_of : ℕ → Bool → ChatMessage
line_of id hidden = record {
  id = id;
  sender_id = 1;
  conversation_id = none;
  body = codes "hello";
  is_hidden = hidden;
  created_at = id;
}

abbrev talk : Db
talk = record market { messages = line_of 40 false ∷ line_of 41 true ∷ line_of 42 false ∷ [] }

history_hides_example : All (IsShown none talk) (get_message_history none 1 20 talk).content.items
history_hides_example = history_hides none 1 20 talk

-- The oldest of the page comes first, and the hidden message is left out.
talk_read :
    map (λ (v : ChatMessageView). v.id) (get_message_history none 1 20 talk).content.items
    ≡ 40 ∷ 42 ∷ []
unfolding get_message_history reversed limit_offset order_by select join pair_with message_shown
talk_read = refl
