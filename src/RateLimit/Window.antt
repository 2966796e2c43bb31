-- ===== src/RateLimit/Window.antt =====
-- What a limiter promises over a history of events: no window of its length holds more accepted
-- events of one user than the limit.
use mathlib.Core.Path.{subst₂}
use messenger_web_app.Prelude.{
  ℕ, ◌+◌, ◌*◌, ◌≤◌, ◌<◌, ◌≡◌, refl, ◌∙◌, not, Bool, ◌&&◌, none, List, [], ◌∷◌, ◌++◌, arith, ltb,
  leb, if◌then◌else◌, filter, count, count-append, All, Map, Distinct, insert-Distinct, lookup,
  nat_eq, nat_beq_iff, ◌==◌, lookup-insert,
}
use messenger_web_app.RateLimit.{
  Limiter, new_limiter, is_fresh, or_empty, hits_of, is_allowed, clean, cleanup,
}

pub data Event : Type 0 where
  -- An event of a user at a time.
  hit : ℕ → ℕ → Event
  -- The gateway's timer calls `cleanup`.
  sweep : ℕ → Event

abbrev pub time_of : Event → ℕ
time_of (hit now _) = now
time_of (sweep now) = now

-- The clock does not run backwards.
abbrev pub Ordered : ℕ → List Event → Type 0
Ordered last [] = Unit
Ordered last (e ∷ es) = (last ≤ time_of e) × Ordered (time_of e) es

-- The times at which events of the user were accepted, newest first, on top of those of `log`.
unfoldable pub accepted : Limiter → ℕ → List ℕ → List Event → List ℕ
accepted l user log [] = log
accepted l user log (hit now v ∷ es) =
    let (passed, l') = is_allowed l now v in
    accepted l' user (if v == user && passed then now ∷ log else log) es
accepted l user log (sweep now ∷ es) = accepted (cleanup l now) user log es

-- What is fresh later is fresh now.
pub count-filter_fresh :
    (ttl now later : ℕ) (hits : List ℕ)
    → now ≤ later
    → count (is_fresh ttl later) (filter (is_fresh ttl now) hits) ≡ count (is_fresh ttl later) hits
count-filter_fresh ttl now later [] h = refl
count-filter_fresh ttl now later (t ∷ hits) h =
    ground (arith, count-filter_fresh ttl now later hits)

lookup-clean-none :
    (ttl now user : ℕ) (m : Map ℕ (List ℕ))
    → lookup user m ≡ none
    → lookup user (clean ttl now m) ≡ none
unfolding clean
lookup-clean-none ttl now user [] h = refl
lookup-clean-none ttl now user ((v, hits) ∷ m) h = ground (arith, lookup-clean-none ttl now user m)

pub clean-Distinct : (ttl now : ℕ) (m : Map ℕ (List ℕ)) → Distinct m → Distinct (clean ttl now m)
unfolding clean
clean-Distinct ttl now [] h = tt
clean-Distinct ttl now ((v, hits) ∷ m) h =
    ground (arith, clean-Distinct ttl now m h.1, lookup-clean-none ttl now v m h.0)

-- `clean` forgets only hits that are not fresh.
pub lookup-clean :
    (ttl now user : ℕ) (m : Map ℕ (List ℕ))
    → Distinct m
    → or_empty (lookup user (clean ttl now m))
      ≡ filter (is_fresh ttl now) (or_empty (lookup user m))
unfolding clean
lookup-clean ttl now user [] h = refl
lookup-clean ttl now user ((v, hits) ∷ m) h =
    ground (
      arith,
      nat_beq_iff v user,
      lookup-clean ttl now user m h.1,
      lookup-clean-none ttl now v m h.0,
    )

-- Accepted events, newest first: where one was accepted, fewer than `limit` of those before it were
-- fresh.
abbrev pub Paced : ℕ → ℕ → List ℕ → Type 0
Paced limit ttl [] = Unit
Paced limit ttl (t ∷ log) =
    (count (is_fresh ttl t) log < limit) × All (λ s. s ≤ t) log × Paced limit ttl log

-- What ties the limiter to the events that it accepted: the same number of both is fresh from now on.
record Tied (l : Limiter) (user last : ℕ) (log : List ℕ) : Type 0 where
  distinct : Distinct l.windows
  same :
      (later : ℕ)
      → last ≤ later
      → count (is_fresh l.ttl_ms later) (hits_of l user) ≡ count (is_fresh l.ttl_ms later) log
  past : All (λ s. s ≤ last) log
  paced : Paced l.limit l.ttl_ms log

All-le : {m n : ℕ} (xs : List ℕ) → m ≤ n → All (λ s. s ≤ m) xs → All (λ s. s ≤ n) xs
All-le [] h a = tt
All-le (x ∷ xs) h (p, a) = (omega arith, All-le xs h a)

cleanup-Tied :
    (l : Limiter) (user last now : ℕ) (log : List ℕ)
    → last ≤ now
    → Tied l user last log
    → Tied (cleanup l now) user now log
unfolding cleanup
cleanup-Tied l user last now log h t = record {
  distinct = clean-Distinct l.ttl_ms now l.windows t.distinct;
  same = λ later le.
      rw (lookup-clean l.ttl_ms now user l.windows t.distinct)
        (count-filter_fresh l.ttl_ms now later (hits_of l user) le ∙ t.same later (omega arith));
  past = All-le log h t.past;
  paced = t.paced;
}

-- One call: what the user's window holds afterwards.
pub hits_of-is_allowed :
    (l : Limiter) (now v user : ℕ)
    → hits_of (is_allowed l now v).1 user ≡ (
        if v == user
        then (let fresh = filter (is_fresh l.ttl_ms now) (hits_of l user) in
            if (is_allowed l now user).0 then fresh ++ now ∷ [] else fresh)
        else hits_of l user)
unfolding is_allowed
hits_of-is_allowed l now v user = ground (
  arith,
  nat_beq_iff v user,
  lookup-insert v user (filter (is_fresh l.ttl_ms now) (hits_of l v)) l.windows,
  lookup-insert v user (filter (is_fresh l.ttl_ms now) (hits_of l v) ++ now ∷ []) l.windows,
)

pub limiter_same :
    (l : Limiter) (now v : ℕ)
    → ((is_allowed l now v).1.ttl_ms ≡ l.ttl_ms) × ((is_allowed l now v).1.limit ≡ l.limit)
unfolding is_allowed
limiter_same l now v = ground arith

-- A call is let through exactly when fewer than `limit` hits are fresh.
pub is_allowed_iff :
    (l : Limiter) (now user : ℕ)
    → (is_allowed l now user).0 ≡ not (leb l.limit (count (is_fresh l.ttl_ms now) (hits_of l user)))
unfolding is_allowed
is_allowed_iff l now user = ground arith

pub is_allowed-Distinct :
    (l : Limiter) (now v : ℕ) → Distinct l.windows → Distinct (is_allowed l now v).1.windows
unfolding is_allowed
is_allowed-Distinct l now v d =
    let fresh = filter (is_fresh l.ttl_ms now) (hits_of l v) in
    ground
      (arith, insert-Distinct v fresh l.windows, insert-Distinct v (fresh ++ now ∷ []) l.windows)

module _ (l : Limiter) (user last now v : ℕ) (log : List ℕ) (h : last ≤ now)
    (t : Tied l user last log) where
  after_log : List ℕ
  after_log = if v == user && (is_allowed l now v).0 then now ∷ log else log

  same_after :
      (later : ℕ)
      → now ≤ later
      → count (is_fresh l.ttl_ms later) (hits_of (is_allowed l now v).1 user)
        ≡ count (is_fresh l.ttl_ms later) after_log
  unfolding after_log
  same_after later le =
      let fresh = filter (is_fresh l.ttl_ms now) (hits_of l user) in
      ground (
        arith,
        nat_beq_iff v user,
        hits_of-is_allowed l now v user,
        count-filter_fresh l.ttl_ms now later (hits_of l user),
        count-append (is_fresh l.ttl_ms later) fresh (now ∷ []),
        t.same later,
      )

  Paced-after : Paced l.limit l.ttl_ms after_log
  unfolding after_log
  Paced-after = ground (
    arith,
    nat_beq_iff v user,
    is_allowed_iff l now user,
    t.same now,
    t.paced,
    All-le log h t.past,
  )

  past_after : All (λ s. s ≤ now) after_log
  unfolding after_log
  past_after = ground (arith, All-le log h t.past)

is_allowed-Tied :
    (l : Limiter) (user last now v : ℕ) (log : List ℕ)
    → last ≤ now
    → Tied l user last log
    → Tied
        (is_allowed l now v).1
        user
        now
        (if v == user && (is_allowed l now v).0 then now ∷ log else log)
unfolding after_log
is_allowed-Tied l user last now v log h t =
    let (ttl, lim) = limiter_same l now v in
    record {
      distinct = is_allowed-Distinct l now v t.distinct;
      same = rw ttl (same_after l user last now v log h t);
      past = past_after l user last now v log h t;
      paced = rw (ttl, lim) (Paced-after l user last now v log h t);
    }

accepted-Paced :
    (l : Limiter) (user last : ℕ) (log : List ℕ) (es : List Event)
    → Ordered last es
    → Tied l user last log
    → Paced l.limit l.ttl_ms (accepted l user log es)
unfolding accepted cleanup
accepted-Paced l user last log [] o t = t.paced
accepted-Paced l user last log (hit now v ∷ es) o t =
    let (ttl, lim) = limiter_same l now v in
    let l' = (is_allowed l now v).1 in
    let log' = if v == user && (is_allowed l now v).0 then now ∷ log else log in
    subst₂ (λ limit ttl_ms. Paced limit ttl_ms (accepted l' user log' es)) lim ttl
      (accepted-Paced l' user now log' es o.1 (is_allowed-Tied l user last now v log o.0 t))
accepted-Paced l user last log (sweep now ∷ es) o t =
    accepted-Paced (cleanup l now) user now log es o.1 (cleanup-Tied l user last now log o.0 t)

abbrev pub in_window : ℕ → ℕ → ℕ → Bool
in_window start ttl t = leb start t && ltb t (start + ttl)

window_le_fresh :
    (start ttl t : ℕ) (log : List ℕ)
    → t < start + ttl
    → All (λ s. s ≤ t) log
    → count (in_window start ttl) log ≤ count (is_fresh ttl t) log
window_le_fresh start ttl t [] h a = omega arith
window_le_fresh start ttl t (s ∷ log) h a = ground (arith, window_le_fresh start ttl t log h a.1)

Paced-window :
    (limit ttl start : ℕ) (log : List ℕ)
    → Paced limit ttl log
    → count (in_window start ttl) log ≤ limit
Paced-window limit ttl start [] p = omega arith
Paced-window limit ttl start (t ∷ log) p =
    ground (arith, Paced-window limit ttl start log p.2, window_le_fresh start ttl t log)

-- In every history of events whose times do not fall, sweeps by the gateway's timer among them, the
-- events of one user that a new limiter lets through number at most `limit` in each window
-- [start, start + 1000 * ttl_seconds).
pub accepted-window :
    (limit ttl_seconds user start : ℕ) (es : List Event)
    → Ordered 0 es
    → count
        (in_window start (ttl_seconds * 1000))
        (accepted (new_limiter limit ttl_seconds) user [] es)
      ≤ limit
accepted-window limit ttl_seconds user start es o =
    Paced-window limit (ttl_seconds * 1000) start _ (
      accepted-Paced (new_limiter limit ttl_seconds) user 0 [] es o
        (record { distinct = tt; same = λ later le. refl; past = tt; paced = tt }))
