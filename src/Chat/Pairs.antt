-- ===== src/Chat/Pairs.antt =====
-- Direct conversations: one for each pair of users, from whichever side it is started.
use whs_secure_coding.Prelude.{
  ==_iff, ==_refl, Bool, Bool-cases, List, [], all, all-append, and_parts, any, arith, count,
  count-any-false, count-append, false, find, find-append_none, find-same, inl, inr, ltb, none,
  refl, some, subst, sym, true, ℕ, ◌++◌, ◌==◌, ◌||◌, ◌∙◌, ◌∷◌, ◌≡◌, ◌≢◌, ◌≤◌, ◌⊎◌,
}
use whs_secure_coding.Chat.Conversations.{
  DirectConversationResult, Started, add_conversation, find_conversation, is_between, larger,
  not_started, on_start_error, open_pair, smaller, start_direct_conversation, user_by_id,
}
use whs_secure_coding.Listing.{in_order}
use whs_secure_coding.Moderation.{find_active_user}
use whs_secure_coding.Schema.{Db, DirectConversation, User, is_active}
use whs_secure_coding.Schema.Constraints.{conversation_allowed}
use whs_secure_coding.Session.{
  Error, Result, Session, Signal, integrity_error, open_session, sqlalchemy_error, value_error,
}
use whs_secure_coding.Session.Ends.{
  Ends, Ends-attempt, Ends-commit, Ends-flush, Ends-new_uuid, Ends-or_return, Ends-pure, Ends-query,
  Ends-return_if, Ends-rollback, Ends-utc_now, Post, Unless, Unless-committed,
}
use whs_secure_coding.Text.{Text}
use whs_secure_coding.Session.{ok, ◌>>=◌}

pub data StartEffect (db d : Db) (o : Started) : Type 0 where
  kept : d ≡ db → o.result ≢ DirectConversationResult.created → StartEffect db d o
  started :
      (c : DirectConversation)
      → conversation_allowed db c ≡ true
      → d ≡ add_conversation c db
      → (o ≡ record { result = DirectConversationResult.created; conversation_id = some c.id })
        ⊎ (o ≡ not_started DirectConversationResult.database_error)
      → StartEffect db d o

module _ (db : Db) where
  abbrev pub StartPost : Post Started
  StartPost = Unless db (StartEffect db)

  on_start_error-kept :
      (w : Db) (user1 user2 : ℕ) (e : Error) → Ends w db (on_start_error user1 user2 e) StartPost
  unfolding on_start_error
  on_start_error-kept w user1 user2 integrity_error = Ends-rollback _ (
      Ends-query _ _ (λ e. refl)
        (Ends-or_return _ (λ missing. Ends-pure _ (kept refl (λ e. cc)))
          (λ c found. Ends-pure _ (kept refl (λ e. cc)))))
  on_start_error-kept w user1 user2 sqlalchemy_error =
      Ends-rollback _ (Ends-pure _ (kept refl (λ e. cc)))
  on_start_error-kept w user1 user2 value_error =
      Ends-rollback _ (Ends-pure _ (kept refl (λ e. cc)))

  on_start_error-lost :
      (w d : Db) (user1 user2 : ℕ)
      → StartEffect db d (not_started DirectConversationResult.database_error)
      → Ends w d (on_start_error user1 user2 sqlalchemy_error) StartPost
  unfolding on_start_error
  on_start_error-lost w d user1 user2 h = Ends-rollback _ (Ends-pure _ h)

  open_pair-Ends : (user1 user2 : ℕ) → Ends db db (open_pair user1 user2) StartPost
  unfolding open_pair
  open_pair-Ends user1 user2 =
      Ends-query _ _ (λ e. refl)
        (Ends-or_return _
          (λ missing. Ends-attempt _ (
            Ends-new_uuid _ λ id. Ends-utc_now _ λ now.
              Ends-flush _ _ _ (λ e. on_start_error-kept db user1 user2 e)
                λ allowed.
                  Ends-commit _ (λ e. on_start_error-kept _ user1 user2 e)
                    (on_start_error-lost _ _ user1 user2 (started _ allowed refl (inr refl)))
                    (Ends-pure _ (started _ allowed refl (inl refl)))))
          (λ c found. Ends-pure _ (kept refl (λ e. cc))))

  pub start_direct_conversation-Ends :
      (id : ℕ) (name : Text) → Ends db db (start_direct_conversation id name) StartPost
  unfolding start_direct_conversation
  start_direct_conversation-Ends id name =
      Ends-query _ _ (λ e. refl)
        (Ends-query _ _ (λ e. refl)
          (Ends-or_return _ (λ missing. Ends-pure _ (kept refl (λ e. cc)))
            λ u found.
              Ends-return_if _ (λ dormant. Ends-pure _ (kept refl (λ e. cc)))
                λ live.
                  Ends-or_return _ (λ missing. Ends-pure _ (kept refl (λ e. cc)))
                    λ v named.
                      Ends-return_if _ (λ own. Ends-pure _ (kept refl (λ e. cc)))
                        λ other. open_pair-Ends (smaller u.id v.id) (larger u.id v.id)))

-- The conversation is of the two users, in whichever order.
abbrev pub joins : ℕ → ℕ → DirectConversation → Bool
joins i j c = is_between i j c || is_between j i c

abbrev pub is_sorted : DirectConversation → Bool
is_sorted c = ltb c.user1_id c.user2_id

-- No pair has two conversations, in whichever order, and each is under the smaller id first.
pub record IsPaired (db : Db) : Type 0 where
  pub one : (i j : ℕ) → count (joins i j) db.conversations ≤ 1
  pub sorted : all is_sorted db.conversations ≡ true

allowed_pair :
    (db : Db) (c : DirectConversation)
    → conversation_allowed db c ≡ true
    → (any (is_between c.user1_id c.user2_id) db.conversations ≡ false) × (is_sorted c ≡ true)
unfolding conversation_allowed
allowed_pair db c h = (ground arith, ground arith)

-- A conversation that is sorted is of two users where it is under them in order.
sorted_joins :
    (i j : ℕ) (c : DirectConversation)
    → is_sorted c ≡ true
    → joins i j c ≡ is_between (smaller i j) (larger i j) c
sorted_joins i j c h = ground arith

count-same :
    {A : Type 0} (q p r : A → Bool) (xs : List A)
    → all q xs ≡ true
    → ((x : A) → q x ≡ true → p x ≡ r x)
    → count p xs ≡ count r xs
unfolding count all
count-same q p r [] h k = refl
count-same q p r (x ∷ xs) h k =
    let (first, rest) = and_parts (q x) (all q xs) h in
    rw (k x first, count-same q p r xs rest k) refl

add_conversation-IsPaired :
    (db : Db) (c : DirectConversation)
    → IsPaired db
    → conversation_allowed db c ≡ true
    → IsPaired (add_conversation c db)
unfolding count
add_conversation-IsPaired db c paired allowed =
    let (unused, in_order) = allowed_pair db c allowed in
    record {
      one = λ i j.
          let more = count-append (joins i j) db.conversations (c ∷ []) in
          let before = paired.one i j in
          elim (Bool-cases (joins i j c)) [
            | inl same ↦
                let none_yet =
                  count-any-false (is_between c.user1_id c.user2_id) db.conversations unused in
                let here : is_between (smaller i j) (larger i j) c ≡ true =
                  sym (sorted_joins i j c in_order) ∙ same in
                let (first, second) = and_parts (c.user1_id == smaller i j) _ here in
                let none_here : count (joins i j) db.conversations ≡ 0 =
                  count-same is_sorted (joins i j) (is_between (smaller i j) (larger i j))
                    db.conversations paired.sorted (λ x h. sorted_joins i j x h)
                  ∙ rw
                      (
                        sym ((==_iff c.user1_id (smaller i j)).0 first),
                        sym ((==_iff c.user2_id (larger i j)).0 second),
                      )
                      none_yet in
                rw (more, none_here, same) (omega arith)
            | inr other ↦ rw (more, other) (omega (arith, before))
          ];
      sorted = all-append is_sorted db.conversations c paired.sorted in_order;
    }

StartEffect-IsPaired : (db d : Db) (o : Started) → IsPaired db → StartEffect db d o → IsPaired d
StartEffect-IsPaired db d o paired (StartEffect.kept same x) = subst IsPaired (sym same) paired
StartEffect-IsPaired db d o paired (StartEffect.started c allowed after reply) =
    subst IsPaired (sym after) (add_conversation-IsPaired db c paired allowed)

-- One call, with what the database does to it.
pub record StartCall : Type 0 where
  pub authenticated_id : ℕ
  pub target_username : Text
  pub signals : List Signal
  pub uuids : ℕ → ℕ
  pub now : ℕ

abbrev pub run_start : StartCall → Db → Result Started × Session
run_start c db =
    start_direct_conversation c.authenticated_id c.target_username
      (open_session db c.signals c.uuids c.now)

-- What is committed after calls, one after another.
abbrev pub after_starts : List StartCall → Db → Db
after_starts [] db = db
after_starts (c ∷ cs) db = after_starts cs (run_start c db).1.committed

after_starts-IsPaired :
    (calls : List StartCall) (db : Db) → IsPaired db → IsPaired (after_starts calls db)
after_starts-IsPaired [] db paired = paired
after_starts-IsPaired (c ∷ cs) db paired =
    let (r, s) = run_start c db in
    after_starts-IsPaired cs s.committed (
      Unless-committed (StartEffect db) IsPaired r s.working s.committed
        ((start_direct_conversation-Ends db c.authenticated_id c.target_username).at
          (open_session db c.signals c.uuids c.now) refl refl)
        paired (λ o. StartEffect-IsPaired db s.committed o paired))

-- In a database with sorted conversations, a start by either side of a pair finds its conversation.
start_again :
    (u v : User) (name : Text) (c : DirectConversation) (db : Db) (uuids : ℕ → ℕ) (now : ℕ)
    → IsPaired db
    → user_by_id u.id db ≡ some u
    → find_active_user name db ≡ some v
    → is_active u.status ≡ true
    → (u.id == v.id) ≡ false
    → find (joins u.id v.id) db.conversations ≡ some c
    → (start_direct_conversation u.id name (open_session db [] uuids now)).0
      ≡ ok (record { result = DirectConversationResult.existing; conversation_id = some c.id })
unfolding start_direct_conversation open_pair ◌>>=◌
start_again u v name c db uuids now paired by_u named live apart joined =
    let found : find (is_between (smaller u.id v.id) (larger u.id v.id)) db.conversations ≡ some c =
      sym (
        find-same is_sorted (joins u.id v.id) (is_between (smaller u.id v.id) (larger u.id v.id))
          db.conversations paired.sorted (λ x h. sorted_joins u.id v.id x h))
      ∙ joined in
    rw (by_u, named, live, apart, found) refl

-- Of calls of `start_direct_conversation` that run one after another, whatever the database does to
-- each: if before them no pair of users has two conversations, in whichever order, and each is under
-- the smaller id first, then so after them; and an active user who then starts a conversation with
-- another who has one with the user, in whichever order, is answered EXISTING with its id, where the
-- database does not fail.
pub one_conversation :
    (calls : List StartCall) (db : Db) (u v : User) (name : Text) (c : DirectConversation)
    (uuids : ℕ → ℕ) (now : ℕ)
    → IsPaired db
    → user_by_id u.id (after_starts calls db) ≡ some u
    → find_active_user name (after_starts calls db) ≡ some v
    → is_active u.status ≡ true
    → (u.id == v.id) ≡ false
    → find (joins u.id v.id) (after_starts calls db).conversations ≡ some c
    → IsPaired (after_starts calls db)
      × ((start_direct_conversation u.id name (open_session (after_starts calls db) [] uuids now)).0
          ≡ ok (record { result = DirectConversationResult.existing; conversation_id = some c.id }))
one_conversation calls db u v name c uuids now paired by_u named live apart joined =
    let after = after_starts-IsPaired calls db paired in
    (after, start_again u v name c _ uuids now after by_u named live apart joined)

find_own : (c : DirectConversation) → find (is_between c.user1_id c.user2_id) (c ∷ []) ≡ some c
unfolding find
find_own c = rw (==_refl c.user1_id, ==_refl c.user2_id) refl

sorted_pair : (a b : ℕ) → (smaller a b ≡ smaller b a) × (larger a b ≡ larger b a)
sorted_pair a b = (ground arith, ground arith)

-- Where the database does not fail: of two active users without a conversation, one who starts it
-- is answered CREATED with a new id, and the other, who starts it afterwards, EXISTING with that id,
-- with nothing more committed.
pub same_conversation :
    (u v : User) (name_u name_v : Text) (db : Db) (uuids later : ℕ → ℕ) (now : ℕ)
    → user_by_id u.id db ≡ some u
    → user_by_id v.id db ≡ some v
    → find_active_user name_u db ≡ some u
    → find_active_user name_v db ≡ some v
    → is_active u.status ≡ true
    → is_active v.status ≡ true
    → (u.id == v.id) ≡ false
    → find_conversation (smaller u.id v.id) (larger u.id v.id) db ≡ none
    → conversation_allowed db (record {
      id = uuids 0;
      user1_id = smaller u.id v.id;
      user2_id = larger u.id v.id;
      created_at = now;
    })
      ≡ true
    → let (r, s) = start_direct_conversation u.id name_v (open_session db [] uuids now) in
      let (r', s') =
        start_direct_conversation v.id name_u (open_session s.committed [] later now) in
      (r
        ≡ ok (record {
          result = DirectConversationResult.created;
          conversation_id = some (uuids 0);
        }))
      × (r'
          ≡ ok (record {
            result = DirectConversationResult.existing;
            conversation_id = some (uuids 0);
          }))
      × (s'.committed ≡ s.committed)
unfolding start_direct_conversation open_pair ◌>>=◌
same_conversation u v name_u name_v db uuids later now by_u by_v named_u named_v live_u live_v apart
      fresh allowed =
    let (small, large) = sorted_pair v.id u.id in
    let apart_too : (v.id == u.id) ≡ false = ground arith in
    let c : DirectConversation = record {
      id = uuids 0;
      user1_id = smaller u.id v.id;
      user2_id = larger u.id v.id;
      created_at = now;
    } in
    let found : find (is_between (smaller u.id v.id) (larger u.id v.id))
          (db.conversations ++ c ∷ [])
        ≡ some c =
      find-append_none (is_between c.user1_id c.user2_id) db.conversations (c ∷ []) fresh
      ∙ find_own c in
    rw
      (
        by_u, named_v, live_u, apart, fresh, allowed, by_v, named_u, live_v, apart_too, small,
        large, found,
      )
      (refl, refl, refl)
