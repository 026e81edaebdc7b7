-- ===== src/Chat/Participants.antt =====
-- Whom `get_direct_conversation` of app/chat/services.py answers.
use whs_secure_coding.Prelude.{
  Bool, List, Option-cases, [], any, arith, find, find-append_none, inl, inr, refl, some, sym, true,
  ℕ, ◌&&◌, ◌==◌, ◌∙◌, ◌∷◌, ◌≡◌,
}
use whs_secure_coding.Chat.Messages.{
  DirectConversationView, conversation_rows, get_direct_conversation, is_counterpart,
  is_participant,
}
use whs_secure_coding.Chat.Privacy.{is_joinable, may_join}
use whs_secure_coding.Chat.Server.{Room}
use whs_secure_coding.Listing.{join, pair_with}
use whs_secure_coding.Schema.{Db, DirectConversation, User}

find-pair_with :
    {A B : Type 0} (g : A → Bool) (a : A) (p : B → Bool) (q : A × B → Bool) (bs : List B)
    (x : A × B)
    → ((b : B) → q (a, b) ≡ true → g a ≡ true)
    → find q (pair_with a p bs) ≡ some x
    → g a ≡ true
unfolding find pair_with
find-pair_with g a p q [] x h e = ground arith
find-pair_with g a p q (b ∷ bs) x h e = ground (arith, find-pair_with g a p q bs x h, h b)

-- A pair that is found in a join has a left row.
any-join :
    {A B : Type 0} (g : A → Bool) (on : A → B → Bool) (q : A × B → Bool) (rows : List A)
    (bs : List B) (x : A × B)
    → ((a : A) (b : B) → q (a, b) ≡ true → g a ≡ true)
    → find q (join on rows bs) ≡ some x
    → any g rows ≡ true
unfolding find any join
any-join g on q [] bs x h e = ground arith
any-join g on q (a ∷ rows) bs x h e = elim (Option-cases (find q (pair_with a (on a) bs))) [
  | inl later ↦
      rw
        (any-join g on q rows bs x h
          (sym (find-append_none q (pair_with a (on a) bs) (join on rows bs) later) ∙ e))
        ground arith
  | inr (y, here) ↦ rw (find-pair_with g a (on a) q bs y (h a) here) refl
]

-- The conversation is found for a user who takes part in it.
pub get_direct_conversation-participant :
    (id user : ℕ) (db : Db) (v : DirectConversationView)
    → get_direct_conversation id user db ≡ some v
    → may_join db.conversations (Room.direct id) user ≡ true
unfolding get_direct_conversation may_join
get_direct_conversation-participant id user db v e = elim (Option-cases (find wanted rows)) [
  | inl none_found ↦ ground (arith, e, none_found)
  | inr (x, found) ↦
      any-join (λ (c : DirectConversation). is_joinable id c user) (is_counterpart user) wanted
        db.conversations db.users x (λ c u h. h) found
]
  where
    wanted : DirectConversation × User → Bool
    wanted (c, u) = c.id == id && is_participant user c

    rows : List (DirectConversation × User)
    rows = conversation_rows user db
