-- ===== src/Chat/Broadcasts.antt =====
-- What the handlers of app/chat/events.py that send a message do.
use whs_secure_coding.Prelude.{
  Bool, Bool-cases, List, Option, [], all, any, ap, arith, inl, inr, none, not, refl, select, some,
  true, ℕ, ◌&&◌, ◌==◌, ◌∷◌, ◌≡◌,
}
use whs_secure_coding.Chat.Connections.{ConnectionRecord, ConnectionRegistry, is_stale}
use whs_secure_coding.Chat.Payloads.{Ack}
use whs_secure_coding.Chat.Policy.{IsBody}
use whs_secure_coding.Chat.Privacy.{IsPrivate, is_holder, is_seated, may_join}
use whs_secure_coding.Chat.Saving.{IsSaved}
use whs_secure_coding.Chat.Server.{
  Delivery, Membership, Outcome, Reply, Room, Server, is_same_room, sids_in,
}
use whs_secure_coding.Schema.{Db, DirectConversation, User, is_active}
use whs_secure_coding.Text.{Text}

abbrev pub conversation_of : Room → Option ℕ
conversation_of Room.global = none
conversation_of (Room.direct c) = some c

-- A live connection of the socket, of a user who may be in the room.
unfoldable pub is_audience : List DirectConversation → Db → ℕ → ConnectionRegistry → Room → ℕ → Bool
is_audience cs db now g room sid =
    any
      (λ (r : ConnectionRecord).
        r.sid == sid && may_join cs room r.user_id && not (is_stale db now r))
      g.by_sid

-- The user is there and active.
abbrev pub is_live_user : Db → ℕ → Bool
is_live_user db id = any (λ (u : User). u.id == id && is_active u.status) db.users

-- A delivery: it goes to live connections of those who may be in the room only, and it is of a
-- message with a clean body that is committed, of a live sender who may be in the room.
pub record IsAddressed (cs : List DirectConversation) (db : Db) (t : Server) (m : Delivery)
    : Type 0 where
  pub audience :
      all (is_audience cs t.session.committed t.clock t.registry m.room) m.recipients ≡ true
  pub member : may_join cs m.room m.sender_id ≡ true
  pub live : is_live_user db m.sender_id ≡ true
  pub body : Text
  pub body-is_clean : IsBody body
  pub saved : IsSaved db m.sender_id (conversation_of m.room) body m.message t.session.committed

-- The event is stopped with a reply and nothing is sent, or it is acknowledged and one message is.
pub data IsSent (cs : List DirectConversation) (s : Server) (o : Outcome Reply) (t : Server)
    : Type 0 where
  unsent :
      (r : Reply)
      → o ≡ Outcome.stopped r
      → IsPrivate cs t
      → t.deliveries ≡ s.deliveries
      → IsSent cs s o t
  delivered :
      (m : Delivery)
      → o ≡ Outcome.next (Reply.acknowledged Ack.success)
      → IsPrivate cs t
      → t.deliveries ≡ m ∷ s.deliveries
      → IsAddressed cs s.session.committed t m
      → IsSent cs s o t

same_room : (a b : Room) → is_same_room a b ≡ true → a ≡ b
same_room Room.global Room.global h = refl
same_room (Room.direct c) (Room.direct d) h = ap Room.direct (ground (arith, h))
same_room Room.global (Room.direct d) h = absurd (cc)
same_room (Room.direct c) Room.global h = absurd (cc)

any-both :
    (p l q : ConnectionRecord → Bool) (rs : List ConnectionRecord)
    → ((r : ConnectionRecord) → p r ≡ true → l r ≡ true → q r ≡ true)
    → all l rs ≡ true
    → any p rs ≡ true
    → any q rs ≡ true
unfolding any all
any-both p l q [] h live found = found
any-both p l q (r ∷ rs) h live found = ground (arith, any-both p l q rs h, h r)

-- The sockets of a private room are the audience, where every connection is live.
pub seated-audience :
    (cs : List DirectConversation) (db : Db) (now : ℕ) (g : ConnectionRegistry) (room : Room)
    (ms : List Membership)
    → all (λ (r : ConnectionRecord). not (is_stale db now r)) g.by_sid ≡ true
    → all (is_seated cs g) ms ≡ true
    → all (is_audience cs db now g room) (sids_in room ms) ≡ true
unfolding all sids_in select is_seated is_audience
seated-audience cs db now g room [] live h = refl
seated-audience cs db now g room (m ∷ ms) live h = elim (Bool-cases (is_same_room m.room room)) [
  | inl same ↦
      let heard =
        any-both (is_holder cs m) (λ (r : ConnectionRecord). not (is_stale db now r))
          (λ (r : ConnectionRecord).
            r.sid == m.sid && may_join cs room r.user_id && not (is_stale db now r))
          g.by_sid (λ r x y. let z = rw (same_room m.room room same) at x in ground arith) live
          (ground arith) in
      rw (same, heard, seated-audience cs db now g room ms live (ground arith)) refl
  | inr other ↦ rw other (seated-audience cs db now g room ms live (ground arith))
]
