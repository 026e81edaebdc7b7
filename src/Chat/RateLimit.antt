-- ===== src/Chat/RateLimit.antt =====
-- app/chat/rate_limit.py: `ChatEventLimiter`. Times are numbers of ticks of its clock; a cutoff
-- `now - window` is compared as `timestamp + window`, so that no subtraction stops at 0. A deque is
-- the list of its timestamps, oldest first; a missing key of a `defaultdict` is the empty deque.
use whs_secure_coding.Prelude.{
  Bool, List, [], count, false, if◌then◌else◌, leb, length, ltb, true, ℕ, ◌++◌, ◌+◌, ◌==◌, ◌||◌,
  ◌∷◌,
}

pub record Limits : Type 0 where
  pub message_burst_limit : ℕ
  pub message_burst_window : ℕ
  pub message_hourly_limit : ℕ
  pub join_limit : ℕ
  pub join_window : ℕ

pub record ChatEventLimiter : Type 0 where
  pub messages : ℕ → List ℕ
  pub joins : ℕ → List ℕ

-- The seconds of an hour.
abbrev pub hour : ℕ
hour = 3600

-- `_prune(timestamps, now - window)`
unfoldable pub prune : ℕ → ℕ → List ℕ → List ℕ
prune window now [] = []
prune window now (t ∷ ts) =
    let rest = prune window now ts in if leb (t + window) now then rest else t ∷ ts

-- `timestamp > now - window`
abbrev pub is_recent : ℕ → ℕ → ℕ → Bool
is_recent window now t = ltb now (t + window)

abbrev pub put : ℕ → List ℕ → (ℕ → List ℕ) → ℕ → List ℕ
put user ts m k = if k == user then ts else m k

-- The test of `consume_message` on the pruned timestamps: the message is refused.
unfoldable pub message_refused : Limits → ℕ → List ℕ → Bool
message_refused l now ts =
    leb l.message_burst_limit (count (is_recent l.message_burst_window now) ts)
    || leb l.message_hourly_limit (length ts)

unfoldable pub consume_message : Limits → ℕ → ℕ → ChatEventLimiter → Bool × ChatEventLimiter
unfolding prune message_refused
consume_message l now user st =
    let kept = prune hour now (st.messages user) in
    if message_refused l now kept
    then (false, record st { messages = put user kept st.messages })
    else (true, record st { messages = put user (kept ++ now ∷ []) st.messages })

unfoldable pub consume_join : Limits → ℕ → ℕ → ChatEventLimiter → Bool × ChatEventLimiter
unfolding prune
consume_join l now user st =
    let kept = prune l.join_window now (st.joins user) in
    if leb l.join_limit (length kept)
    then (false, record st { joins = put user kept st.joins })
    else (true, record st { joins = put user (kept ++ now ∷ []) st.joins })

-- `reset`, and the limiter at the start.
abbrev pub reset : ChatEventLimiter
reset = record { messages = λ user. []; joins = λ user. [] }
