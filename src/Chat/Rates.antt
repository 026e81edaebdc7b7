-- ===== src/Chat/Rates.antt =====
-- How many messages a user gets through.
use whs_secure_coding.Prelude.{
  ==_iff, Bool, Bool-cases, List, [], ap, arith, count, count-append, false, if◌then◌else◌, inl,
  inr, leb, length, ltb, refl, subst, sym, true, ℕ, ◌&&◌, ◌++◌, ◌+◌, ◌<◌, ◌==◌, ◌∙◌, ◌∷◌, ◌≡◌, ◌≤◌,
}
use whs_secure_coding.Chat.RateLimit.{
  ChatEventLimiter, Limits, consume_message, hour, is_recent, message_refused, prune, put, reset,
}

-- A message that a user sends, and when.
pub record Event : Type 0 where
  pub user : ℕ
  pub time : ℕ

-- The times at which the messages of a user are let through.
unfoldable pub accepted : Limits → ℕ → ChatEventLimiter → List Event → List ℕ
accepted l user st [] = []
accepted l user st (e ∷ es) =
    let (allowed, st') = consume_message l e.time e.user st in
    let rest = accepted l user st' es in if allowed && user == e.user then e.time ∷ rest else rest

-- The clock does not run backwards.
abbrev pub IsMonotone : ℕ → List Event → Type 0
IsMonotone last [] = Unit
IsMonotone last (e ∷ es) = (last ≤ e.time) × IsMonotone e.time es

-- In the window of that length that begins at `s`.
abbrev pub within : ℕ → ℕ → ℕ → Bool
within s window t = leb s t && ltb t (s + window)

prune-prune : (w m n : ℕ) (ts : List ℕ) → m ≤ n → prune w n (prune w m ts) ≡ prune w n ts
unfolding prune
prune-prune w m n [] h = refl
prune-prune w m n (t ∷ ts) h = ground (arith, prune-prune w m n ts h)

prune-append : (w n : ℕ) (ts : List ℕ) → 1 ≤ w → prune w n (ts ++ n ∷ []) ≡ prune w n ts ++ n ∷ []
unfolding prune
prune-append w n [] h = ground arith
prune-append w n (t ∷ ts) h = ground (arith, prune-append w n ts h)

-- What is pruned is not recent.
count-prune :
    (w v n : ℕ) (ts : List ℕ)
    → w ≤ v
    → count (is_recent w n) (prune v n ts) ≡ count (is_recent w n) ts
unfolding prune count
count-prune w v n [] h = refl
count-prune w v n (t ∷ ts) h = ground (arith, count-prune w v n ts h)

count-within :
    (w s n : ℕ) (ts : List ℕ)
    → within s w n ≡ true
    → count (within s w) ts ≤ count (is_recent w n) ts
unfolding count
count-within w s n [] h = omega arith
count-within w s n (t ∷ ts) h = ground (arith, count-within w s n ts h)

count-le-length : (p : ℕ → Bool) (ts : List ℕ) → count p ts ≤ length ts
unfolding count
count-le-length p [] = omega arith
count-le-length p (t ∷ ts) = ground (arith, count-le-length p ts)

-- Both limits hold of the times so far.
pub record IsWithin (l : Limits) (s : ℕ) (times : List ℕ) : Type 0 where
  pub burst : count (within s l.message_burst_window) times ≤ l.message_burst_limit
  pub hourly : count (within s hour) times ≤ l.message_hourly_limit

-- One more message that is let through.
accept-IsWithin :
    (l : Limits) (s now : ℕ) (times : List ℕ)
    → l.message_burst_window ≤ hour
    → message_refused l now (prune hour now times) ≡ false
    → IsWithin l s times
    → IsWithin l s (times ++ now ∷ [])
unfolding message_refused count
accept-IsWithin l s now times short passed h =
    let more_burst = count-append (within s l.message_burst_window) times (now ∷ []) in
    let more_hourly = count-append (within s hour) times (now ∷ []) in
    let room_burst = count-prune l.message_burst_window hour now times short in
    let room_hourly = count-prune hour hour now times (omega arith) in
    let size = count-le-length (is_recent hour now) (prune hour now times) in
    let before_burst = h.burst in
    let before_hourly = h.hourly in
    let few : count (is_recent l.message_burst_window now) (prune hour now times)
        < l.message_burst_limit =
      ground arith in
    let few_hourly : length (prune hour now times) < l.message_hourly_limit = ground arith in
    record {
      burst = elim (Bool-cases (within s l.message_burst_window now)) [
        | inl inside ↦
            let covered = count-within l.message_burst_window s now times inside in
            rw (more_burst, inside) (omega (arith, covered, room_burst, few))
        | inr outside ↦ rw (more_burst, outside) (omega (arith, before_burst))
      ];
      hourly = elim (Bool-cases (within s hour now)) [
        | inl inside ↦
            let covered = count-within hour s now times inside in
            rw (more_hourly, inside) (omega (arith, covered, room_hourly, size, few_hourly))
        | inr outside ↦ rw (more_hourly, outside) (omega (arith, before_hourly))
      ];
    }

append_one : (xs ys : List ℕ) (x : ℕ) → (xs ++ x ∷ []) ++ ys ≡ xs ++ x ∷ ys
append_one [] ys x = refl
append_one (y ∷ xs) ys x = ap (λ zs. y ∷ zs) (append_one xs ys x)

append_none : (xs : List ℕ) → xs ++ [] ≡ xs
append_none [] = refl
append_none (x ∷ xs) = ap (λ zs. x ∷ zs) (append_none xs)

IsMonotone-weaken :
    (m n : ℕ) (events : List Event) → m ≤ n → IsMonotone n events → IsMonotone m events
IsMonotone-weaken m n [] h k = tt
IsMonotone-weaken m n (e ∷ es) h (k, rest) = (omega (arith, h, k), rest)

-- The state after an event.
abbrev stores : Event → List ℕ → ChatEventLimiter → ChatEventLimiter
stores e ts st = record st { messages = put e.user ts st.messages }

-- From a state that remembers the last hour of `past`.
accepted_after :
    (l : Limits) (user s last : ℕ) (st : ChatEventLimiter) (past : List ℕ) (events : List Event)
    → l.message_burst_window ≤ hour
    → st.messages user ≡ prune hour last past
    → IsMonotone last events
    → IsWithin l s past
    → IsWithin l s (past ++ accepted l user st events)
unfolding accepted consume_message
accepted_after l user s last st past [] short known monotone h = rw (append_none past) h
accepted_after l user s last st past (e ∷ es) short known (later, monotone) h =
    let kept = prune hour e.time (st.messages e.user) in
    let behind = IsMonotone-weaken last e.time es later monotone in
    elim (Bool-cases (user == e.user)) [
      | inr other ↦ elim (Bool-cases (message_refused l e.time kept)) [
        | inl full ↦ rw full (
            accepted_after l user s last (stores e kept st) past es short (rw other known) behind h)
        | inr room ↦
            rw (room, other)
              (accepted_after l user s last (stores e (kept ++ e.time ∷ []) st) past es short
                (rw other known) behind h)
      ]
      | inl own ↦
          let same = (==_iff user e.user).0 own in
          let kept_is : kept ≡ prune hour e.time past =
            ap (λ u. prune hour e.time (st.messages u)) (sym same)
            ∙ ap (prune hour e.time) known
            ∙ prune-prune hour last e.time past later in
          elim (Bool-cases (message_refused l e.time kept)) [
            | inl full ↦ rw full (
                accepted_after l user s e.time (stores e kept st) past es short (rw own kept_is)
                  monotone h)
            | inr room ↦
                rw (room, own)
                  (subst (IsWithin l s) (append_one past _ e.time) (
                    accepted_after l user s e.time (stores e (kept ++ e.time ∷ []) st)
                      (past ++ e.time ∷ []) es short
                      (rw own (
                        ap (λ ts. ts ++ e.time ∷ []) kept_is
                        ∙ sym (prune-append hour e.time past (omega arith))))
                      monotone
                      (accept-IsWithin l s e.time past short
                        (subst (λ ts. message_refused l e.time ts ≡ false) kept_is room) h)))
          ]
    ]

-- Whatever messages the users send, while the clock does not run backwards and the burst window is
-- at most an hour: of one user's messages, at most `message_burst_limit` are let through in any
-- window of the burst's length, and at most `message_hourly_limit` in any hour.
pub message_rate_bounded :
    (l : Limits) (user s : ℕ) (events : List Event)
    → l.message_burst_window ≤ hour
    → IsMonotone 0 events
    → IsWithin l s (accepted l user reset events)
unfolding prune count
message_rate_bounded l user s events short monotone =
    accepted_after l user s 0 reset [] events short refl monotone
      (record { burst = omega arith; hourly = omega arith })
