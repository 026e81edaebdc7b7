-- ===== src/Session/Reads.antt =====
-- How a read of the database on its own can end.
use whs_secure_coding.Prelude.{ap, ◌≡◌}
use whs_secure_coding.Schema.{Db}
use whs_secure_coding.Session.{Session, Signal, after, first_signal, ok, query, raised, answer}
use whs_secure_coding.Session.Ends.{Ends, Post}

abbrev pub QueryPost : {A : Type 0} → Db → (Db → A) → Post A
QueryPost db f (ok a) w d = (a ≡ f db) × (w ≡ db) × (d ≡ db)
QueryPost db f (raised e) w d = (w ≡ db) × (d ≡ db)

pub query-Ends : {A : Type 0} (db : Db) (f : Db → A) → Ends db db (query f) (QueryPost db f)
unfolding query
query-Ends {A} db f = record {
  at = λ s hw hd. answered (first_signal s.signals) (f s.working) (after s) (ap f hw) hw hd;
}
  where
    answered :
        (g : Signal) (a : A) (t : Session)
        → a ≡ f db
        → t.working ≡ db
        → t.committed ≡ db
        → QueryPost db f (answer g a) t.working t.committed
    answered Signal.fine a t h hw hd = (h, hw, hd)
    answered Signal.integrity a t h hw hd = (hw, hd)
    answered Signal.operational a t h hw hd = (hw, hd)
    answered Signal.lost a t h hw hd = (hw, hd)
