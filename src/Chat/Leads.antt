-- ===== src/Chat/Leads.antt =====
-- Where a handler leads from a given state: rules for a postcondition on the outcome and the state.
use whs_secure_coding.Prelude.{Bool, Option, false, none, refl, some, true, ◌≡◌}
use whs_secure_coding.Chat.Server.{
  Handler, Outcome, Reply, Server, alter, check, continue_with, done, of_result, on_db, read,
  some_or,
}
use whs_secure_coding.Session.{Error, Result, Session, Tx, ok, raised}
use whs_secure_coding.Session.Ends.{Ends, Post}
use whs_secure_coding.Chat.Server.{◌>>=◌, change}

abbrev pub Goal : Type 0 → Type 1
Goal A = Outcome A → Server → Type 0

-- From `s`, `m` leads to `Q`.
pub record Leads {A : Type 0} (s : Server) (m : Handler A) (Q : Goal A) : Type 0 where
  pub at : Q (m s).0 (m s).1

-- What must hold after the first part of a chain for the whole to lead to `Q`.
abbrev pub Then : {A B : Type 0} → (A → Handler B) → Goal B → Goal A
Then k Q (Outcome.next a) s = Leads s (k a) Q
Then k Q (Outcome.stopped r) s = Q (Outcome.stopped r) s

continue_with-Leads :
    {A B : Type 0} (k : A → Handler B) (Q : Goal B) (o : Outcome A) (s : Server)
    → Then k Q o s
    → Q (continue_with o k s).0 (continue_with o k s).1
continue_with-Leads k Q (Outcome.next a) s h = h.at
continue_with-Leads k Q (Outcome.stopped r) s h = h

module _ {A B : Type 0} {s : Server} {Q : Goal B} where
  pub Leads-bind : (m : Handler A) {k : A → Handler B} → Leads s m (Then k Q) → Leads s (m >>= k) Q
  unfolding ◌>>=◌
  Leads-bind m {k} h = record { at = continue_with-Leads k Q (m s).0 (m s).1 h.at }

  pub Leads-read :
      (f : Server → A) (k : A → Handler B) → Leads s (k (f s)) Q → Leads s (read f >>= k) Q
  unfolding ◌>>=◌
  Leads-read f k h = record { at = h.at }

  pub Leads-change :
      (f : Server → A × Server) (k : A → Handler B)
      → Leads (f s).1 (k (f s).0) Q
      → Leads s (change f >>= k) Q
  unfolding ◌>>=◌
  Leads-change f k h = record { at = h.at }

  pub Leads-some_or :
      (o : Option A) (r : Reply) (k : A → Handler B)
      → Q (Outcome.stopped r) s
      → ((a : A) → o ≡ some a → Leads s (k a) Q)
      → Leads s (some_or o r >>= k) Q
  unfolding ◌>>=◌
  Leads-some_or none r k stop h = record { at = stop }
  Leads-some_or (some a) r k stop h = record { at = (h a refl).at }

  -- A statement of the database, with what is known of how it ends.
  pub Leads-on_db :
      (m : Tx A) (R : Post A) (k : A → Handler B)
      → Ends s.session.working s.session.committed m R
      → ((e : Error) (t : Session)
          → R (raised e) t.working t.committed
          → Q (Outcome.stopped Reply.unhandled) (record s { session = t }))
      → ((a : A) (t : Session)
          → R (ok a) t.working t.committed
          → Leads (record s { session = t }) (k a) Q)
      → Leads s (on_db m >>= k) Q
  unfolding ◌>>=◌
  Leads-on_db m R k h fails goes = record {
    at = by_result (m s.session).0 (m s.session).1 (h.at s.session refl refl);
  }
    where
      by_result :
          (r : Result A) (t : Session)
          → R r t.working t.committed
          → Q
              (continue_with (of_result r) k (record s { session = t })).0
              (continue_with (of_result r) k (record s { session = t })).1
      by_result (ok a) t x = (goes a t x).at
      by_result (raised e) t x = fails e t x

module _ {B : Type 0} {s : Server} {Q : Goal B} where
  pub Leads-done : (b : B) → Q (Outcome.next b) s → Leads s (done b) Q
  unfolding ◌>>=◌
  Leads-done b h = record { at = h }

  pub Leads-stop : (r : Reply) → Q (Outcome.stopped r) s → Leads s (some_or none r) Q
  unfolding ◌>>=◌
  Leads-stop r h = record { at = h }

  pub Leads-check :
      (b : Bool) (r : Reply) (k : Unit {0} → Handler B)
      → Q (Outcome.stopped r) s
      → (b ≡ true → Leads s (k tt) Q)
      → Leads s (check b r >>= k) Q
  unfolding ◌>>=◌
  Leads-check true r k stop h = record { at = (h refl).at }
  Leads-check false r k stop h = record { at = stop }

  pub Leads-alter :
      (f : Server → Server) (k : Unit {0} → Handler B)
      → Leads (f s) (k tt) Q
      → Leads s (alter f >>= k) Q
  unfolding ◌>>=◌
  Leads-alter f k h = record { at = h.at }

pub Leads-last :
    {s : Server} {Q : Goal (Unit {0})} (f : Server → Server)
    → Q (Outcome.next tt) (f s)
    → Leads s (alter f) Q
unfolding ◌>>=◌
Leads-last f h = record { at = h }

pub Leads-or_stop :
    {A : Type 0} {s : Server} {Q : Goal A} (o : Option A) (r : Reply)
    → Q (Outcome.stopped r) s
    → ((a : A) → o ≡ some a → Q (Outcome.next a) s)
    → Leads s (some_or o r) Q
unfolding ◌>>=◌
Leads-or_stop none r stop h = record { at = stop }
Leads-or_stop (some a) r stop h = record { at = h a refl }
