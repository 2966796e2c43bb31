-- ===== src/RateLimit.antt =====
-- server/src/chat/ws-rate-limiter.ts: the sliding window of one kind of event. `Date.now()` is an
-- argument, in milliseconds; `now - t < ttlMs` is read over the integers as `now < t + ttl_ms`.
pub mod Window
pub mod Retry
mod Tests
use messenger_web_app.Prelude.{
  ℕ, ◌+◌, ◌*◌, Bool, true, false, Option, none, some, List, [], ◌∷◌, ◌++◌, ltb, leb, if◌then◌else◌,
  length, filter, Map, lookup, insert, nat_eq,
}
use messenger_web_app.Prelude.Int.{ℤ, pos, sub_ℕ, ceil_div}

pub record Limiter : Type 0 where
  pub limit : ℕ
  pub ttl_ms : ℕ
  pub windows : Map ℕ (List ℕ)

-- The constructor takes seconds.
abbrev pub new_limiter : ℕ → ℕ → Limiter
new_limiter limit ttl_seconds = record { limit = limit; ttl_ms = ttl_seconds * 1000; windows = [] }

abbrev pub is_fresh : ℕ → ℕ → ℕ → Bool
is_fresh ttl now t = ltb now (t + ttl)

-- `this.windows.get(userId) ?? []`
abbrev pub or_empty : Option (List ℕ) → List ℕ
or_empty none = []
or_empty (some hits) = hits

abbrev pub hits_of : Limiter → ℕ → List ℕ
hits_of l user = or_empty (lookup user l.windows)

unfoldable pub is_allowed : Limiter → ℕ → ℕ → Bool × Limiter
is_allowed l now user =
    let fresh = filter (is_fresh l.ttl_ms now) (hits_of l user) in
    if leb l.limit (length fresh)
    then (false, record l { windows = insert user fresh l.windows })
    else (true, record l { windows = insert user (fresh ++ now ∷ []) l.windows })

-- `Math.min(...hits)`
oldest_of : ℕ → List ℕ → ℕ
oldest_of t [] = t
oldest_of t (h ∷ hits) = oldest_of (if ltb h t then h else t) hits

pub retry_after : Limiter → ℕ → ℕ → ℤ
unfolding oldest_of
retry_after l now user = elim (hits_of l user) [
  | [] ↦ pos 0
  | h ∷ hits ↦ ceil_div (sub_ℕ (oldest_of h hits + l.ttl_ms) now) 1000
]

pub clean : ℕ → ℕ → Map ℕ (List ℕ) → Map ℕ (List ℕ)
clean ttl now [] = []
clean ttl now ((user, hits) ∷ rest) = elim (filter (is_fresh ttl now) hits) [
  | [] ↦ clean ttl now rest
  | h ∷ fresh ↦ (user, h ∷ fresh) ∷ clean ttl now rest
]

pub cleanup : Limiter → ℕ → Limiter
unfolding clean
cleanup l now = record l { windows = clean l.ttl_ms now l.windows }
