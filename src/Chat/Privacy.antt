-- ===== src/Chat/Privacy.antt =====
-- Who is in a room: each socket that Socket.IO keeps in one belongs to a connection whose user may
-- join it.
use whs_secure_coding.Prelude.{
  Bool, Bool-cases, List, [], all, any, any_of_find, arith, false, find_sound, inl, inr, leb,
  length, refl, select, some, true, ℕ, ◌&&◌, ◌==◌, ◌||◌, ◌∷◌, ◌≡◌,
}
use whs_secure_coding.Chat.Connections.{
  ConnectionRecord, ConnectionRegistry, add, drop_sid, get, remove,
}
use whs_secure_coding.Chat.Messages.{is_participant}
use whs_secure_coding.Chat.Server.{
  Membership, Room, Server, disconnect_socket, disconnect_sockets, join_room, leave_rooms,
}
use whs_secure_coding.Chat.Sockets.{remove-by_sid}
use whs_secure_coding.Schema.{DirectConversation}
use whs_secure_coding.Session.{Session}

abbrev pub is_joinable : ℕ → DirectConversation → ℕ → Bool
is_joinable c k user = k.id == c && is_participant user k

-- The global room takes everybody; a direct one the participants of its conversation.
unfoldable pub may_join : List DirectConversation → Room → ℕ → Bool
may_join cs Room.global user = true
may_join cs (Room.direct c) user = any (λ (k : DirectConversation). is_joinable c k user) cs

-- A record of the socket, of a user who may be in the room.
abbrev pub is_holder : List DirectConversation → Membership → ConnectionRecord → Bool
is_holder cs m r = r.sid == m.sid && may_join cs m.room r.user_id

unfoldable pub is_seated : List DirectConversation → ConnectionRegistry → Membership → Bool
is_seated cs g m = any (is_holder cs m) g.by_sid

-- The conversations are `cs`, and each socket in a room is seated.
pub record IsPrivate (cs : List DirectConversation) (s : Server) : Type 0 where
  pub seen : s.session.working.conversations ≡ cs
  pub kept : s.session.committed.conversations ≡ cs
  pub seated : all (is_seated cs s.registry) s.rooms ≡ true

any-drop_sid :
    (p : ConnectionRecord → Bool) (sid : ℕ) (rs : List ConnectionRecord)
    → ((r : ConnectionRecord) → p r ≡ true → (r.sid == sid) ≡ false)
    → any p rs ≡ true
    → any p (drop_sid sid rs) ≡ true
unfolding any drop_sid select
any-drop_sid p sid [] h a = a
any-drop_sid p sid (r ∷ rs) h a = ground (arith, any-drop_sid p sid rs h, h r)

is_seated-drop :
    (cs : List DirectConversation) (sid : ℕ) (g : ConnectionRegistry) (m : Membership)
    → (m.sid == sid) ≡ false
    → is_seated cs g m ≡ true
    → any (is_holder cs m) (drop_sid sid g.by_sid) ≡ true
unfolding is_seated
is_seated-drop cs sid g m other h =
    any-drop_sid (is_holder cs m) sid g.by_sid (λ r x. ground arith) h

-- What holds of the sockets that stay in their rooms.
all-leave_rooms :
    (p q : Membership → Bool) (sid : ℕ) (ms : List Membership)
    → ((m : Membership) → (m.sid == sid) ≡ false → p m ≡ true → q m ≡ true)
    → all p ms ≡ true
    → all q (leave_rooms sid ms) ≡ true
unfolding all leave_rooms select
all-leave_rooms p q sid [] h a = refl
all-leave_rooms p q sid (m ∷ ms) h a = ground (arith, all-leave_rooms p q sid ms h, h m)

pub all-seated :
    (p q : Membership → Bool) (ms : List Membership)
    → ((m : Membership) → p m ≡ true → q m ≡ true)
    → all p ms ≡ true
    → all q ms ≡ true
unfolding all
all-seated p q [] h a = refl
all-seated p q (m ∷ ms) h a = ground (arith, all-seated p q ms h, h m)

-- The socket is in a room.
abbrev pub is_in_rooms : ℕ → Server → Bool
is_in_rooms sid s = any (λ (m : Membership). m.sid == sid) s.rooms

pub any-leave_rooms :
    (x sid : ℕ) (ms : List Membership)
    → any (λ (m : Membership). m.sid == x) ms ≡ false
    → any (λ (m : Membership). m.sid == x) (leave_rooms sid ms) ≡ false
unfolding any leave_rooms select
any-leave_rooms x sid [] h = h
any-leave_rooms x sid (m ∷ ms) h = ground (arith, any-leave_rooms x sid ms)

-- What holds of the sockets, where one is in no room.
all-fresh :
    (p q : Membership → Bool) (sid : ℕ) (ms : List Membership)
    → ((m : Membership) → (m.sid == sid) ≡ false → p m ≡ true → q m ≡ true)
    → any (λ (m : Membership). m.sid == sid) ms ≡ false
    → all p ms ≡ true
    → all q ms ≡ true
unfolding all any
all-fresh p q sid [] h f a = refl
all-fresh p q sid (m ∷ ms) h f a = ground (arith, all-fresh p q sid ms h, h m)

module _ {cs : List DirectConversation} where
  pub disconnect_socket-IsPrivate :
      (sid : ℕ) (s : Server) → IsPrivate cs s → IsPrivate cs (disconnect_socket sid s)
  unfolding disconnect_socket is_seated
  disconnect_socket-IsPrivate sid s h = record {
    seen = h.seen;
    kept = h.kept;
    seated =
        all-leave_rooms (is_seated cs s.registry) (is_seated cs (remove sid s.registry).1) sid
          s.rooms (λ m other x. rest m other x) h.seated;
  }
    where
      rest :
          (m : Membership)
          → (m.sid == sid) ≡ false
          → is_seated cs s.registry m ≡ true
          → is_seated cs (remove sid s.registry).1 m ≡ true
      rest m other x =
          rw (remove-by_sid sid s.registry) (is_seated-drop cs sid s.registry m other x)

  pub disconnect_sockets-IsPrivate :
      (sids : List ℕ) (s : Server) → IsPrivate cs s → IsPrivate cs (disconnect_sockets sids s)
  unfolding disconnect_sockets
  disconnect_sockets-IsPrivate [] s h = h
  disconnect_sockets-IsPrivate (sid ∷ sids) s h =
      disconnect_sockets-IsPrivate sids (disconnect_socket sid s)
        (disconnect_socket-IsPrivate sid s h)

  -- A user who may be in the room joins it with a connected socket.
  pub join_room-IsPrivate :
      (sid : ℕ) (room : Room) (r : ConnectionRecord) (s : Server)
      → get sid s.registry ≡ some r
      → may_join cs room r.user_id ≡ true
      → IsPrivate cs s
      → IsPrivate cs (join_room sid room s)
  unfolding all is_seated get
  join_room-IsPrivate sid room r s found may h = record {
    seen = h.seen;
    kept = h.kept;
    seated =
        let own : is_seated cs s.registry (record { sid = sid; room = room }) ≡ true =
          any_of_find (λ (x : ConnectionRecord). x.sid == sid)
            (is_holder cs (record { sid = sid; room = room })) s.registry.by_sid r found
            (rw (find_sound (λ (x : ConnectionRecord). x.sid == sid) s.registry.by_sid r found, may)
              refl) in
        rw (own, h.seated) refl;
  }

  -- A change of the session alone, that keeps the conversations.
  pub session-IsPrivate :
      (t : Session) (s : Server)
      → t.working.conversations ≡ cs
      → t.committed.conversations ≡ cs
      → IsPrivate cs s
      → IsPrivate cs (record s { session = t })
  session-IsPrivate t s seen kept h = record { seen = seen; kept = kept; seated = h.seated }

  -- A socket that is in no room is connected, or is refused.
  pub add-IsPrivate :
      (sid user version limit now : ℕ) (s : Server)
      → any (λ (m : Membership). m.sid == sid) s.rooms ≡ false
      → IsPrivate cs s
      → IsPrivate cs (record s { registry = (add sid user version limit now s.registry).1 })
  unfolding add is_seated any
  add-IsPrivate sid user version limit now s fresh h =
      elim (Bool-cases (leb limit (length (s.registry.by_user user)))) [
        | inl full ↦ rw full h
        | inr free ↦
            let added : ConnectionRecord = record {
              sid = sid;
              user_id = user;
              auth_version = version;
              connected_monotonic = now;
            } in
            rw free (record {
              seen = h.seen;
              kept = h.kept;
              seated =
                  all-fresh (is_seated cs s.registry)
                    (λ (m : Membership).
                      is_holder cs m added || any (is_holder cs m) (drop_sid sid s.registry.by_sid))
                    sid s.rooms
                    (λ m other x. rw (is_seated-drop cs sid s.registry m other x) ground arith)
                    fresh h.seated;
            })
      ]
