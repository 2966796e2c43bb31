-- ===== src/RateLimit/Retry.antt =====
-- What a refusal tells the client: how long to wait.
use messenger_web_app.Prelude.{
  ℕ, ◌+◌, ◌-◌, ◌*◌, ◌≤◌, ◌<◌, ◌≡◌, refl, ◌∙◌, sym, true, false, List, [], ◌∷◌, arith, ltb,
  if◌then◌else◌, length, filter, count, All, Distinct, nat_eq, nat_beq_iff, lookup-insert,
  length-filter-le, length-append, ◌/◌,
}
use messenger_web_app.Prelude.Int.{pos, pos_part, sub_ℕ, ceil_div}
use messenger_web_app.RateLimit.Window.{
  Event, hit, sweep, is_allowed_iff, hits_of-is_allowed, lookup-clean, clean-Distinct,
  count-filter_fresh, is_allowed-Distinct, limiter_same,
}
use messenger_web_app.RateLimit.{
  cleanup, Limiter, new_limiter, is_fresh, hits_of, is_allowed, oldest_of, retry_after,
}

oldest_of-le : (t : ℕ) (hits : List ℕ) → oldest_of t hits ≤ t
unfolding oldest_of
oldest_of-le t [] = omega arith
oldest_of-le t (h ∷ hits) = ground (arith, oldest_of-le (if ltb h t then h else t) hits)

-- At a time when the oldest hit is stale, some hit is.
stale_oldest :
    (ttl now t : ℕ) (hits : List ℕ)
    → oldest_of t hits + ttl ≤ now
    → count (is_fresh ttl now) (t ∷ hits) < length (t ∷ hits)
unfolding oldest_of
stale_oldest ttl now t [] h = ground arith
stale_oldest ttl now t (s ∷ hits) h = ground (
  arith,
  stale_oldest ttl now s hits,
  stale_oldest ttl now t hits,
  length-filter-le (is_fresh ttl now) hits,
)

fresh_oldest :
    (ttl now t : ℕ) (hits : List ℕ)
    → All (λ s. is_fresh ttl now s ≡ true) (t ∷ hits)
    → now < oldest_of t hits + ttl
unfolding oldest_of
fresh_oldest ttl now t [] a = ground arith
fresh_oldest ttl now t (s ∷ hits) a =
    ground (arith, fresh_oldest ttl now s hits, fresh_oldest ttl now t hits)

-- The waiting time of a non-empty window whose oldest hit is fresh.
retry_positive :
    (ttl now t : ℕ) (hits : List ℕ)
    → All (λ s. is_fresh ttl now s ≡ true) (t ∷ hits)
    → (s : ℕ) × (ceil_div (sub_ℕ (oldest_of t hits + ttl) now) 1000 ≡ pos s)
      × (0 < s)
      × (oldest_of t hits + ttl ≤ now + s * 1000)
retry_positive ttl now t hits a =
    let f = fresh_oldest ttl now t hits a in
    ((oldest_of t hits + ttl - now + 999) / 1000, ground arith, omega arith, omega arith)

All-filter_fresh :
    (ttl now : ℕ) (hits : List ℕ)
    → All (λ s. is_fresh ttl now s ≡ true) (filter (is_fresh ttl now) hits)
All-filter_fresh ttl now [] = tt
All-filter_fresh ttl now (t ∷ hits) = ground (arith, All-filter_fresh ttl now hits)

-- The refused call leaves only the fresh hits behind.
hits_of_refused :
    (l : Limiter) (now user : ℕ)
    → (is_allowed l now user).0 ≡ false
    → (hits_of (is_allowed l now user).1 user ≡ filter (is_fresh l.ttl_ms now) (hits_of l user))
      × (l.limit ≤ length (filter (is_fresh l.ttl_ms now) (hits_of l user)))
unfolding is_allowed
hits_of_refused l now user h = ground (
  arith,
  nat_beq_iff user user,
  lookup-insert user user (filter (is_fresh l.ttl_ms now) (hits_of l user)) l.windows,
)

-- What a refused call of a limiter promises of the state that it leaves behind.
record Waits (l : Limiter) (now user : ℕ) : Type 0 where
  pub seconds : ℕ
  pub told : retry_after l now user ≡ pos seconds
  pub positive : 0 < seconds
  pub enough : (later : ℕ) → now + seconds * 1000 ≤ later → (is_allowed l later user).0 ≡ true

full_window-Waits :
    (l : Limiter) (now user : ℕ) (hits : List ℕ)
    → hits_of l user ≡ hits
    → All (λ s. is_fresh l.ttl_ms now s ≡ true) hits
    → 0 < length hits
    → length hits ≤ l.limit
    → Waits l now user
unfolding retry_after
full_window-Waits l now user [] e a p q = absurd (omega arith)
full_window-Waits l now user (t ∷ hits) e a p q =
    let (s, told, positive, enough) = retry_positive l.ttl_ms now t hits a in
    record {
      seconds = s;
      told = rw (e, retry_after) told;
      positive = positive;
      enough = λ later le.
          let stale = stale_oldest l.ttl_ms later t hits (omega arith) in
          ground (arith, is_allowed_iff l later user, e, stale);
    }

-- No window of the limiter is longer than the limit.
record IsBounded (l : Limiter) : Type 0 where
  distinct : Distinct l.windows
  bounded : (user : ℕ) → length (hits_of l user) ≤ l.limit

unfoldable pub after : Limiter → List Event → Limiter
after l [] = l
after l (hit now v ∷ es) = after (is_allowed l now v).1 es
after l (sweep now ∷ es) = after (cleanup l now) es

is_allowed-IsBounded : (l : Limiter) (now v : ℕ) → IsBounded l → IsBounded (is_allowed l now v).1
is_allowed-IsBounded l now v b = record {
  distinct = is_allowed-Distinct l now v b.distinct;
  bounded = λ user. ground (
    arith,
    b.bounded user,
    limiter_same l now v,
    hits_of-is_allowed l now v user,
    is_allowed_iff l now user,
    length-append (filter (is_fresh l.ttl_ms now) (hits_of l user)) (now ∷ []),
    length-filter-le (is_fresh l.ttl_ms now) (hits_of l user),
  );
}

cleanup-IsBounded : (l : Limiter) (now : ℕ) → IsBounded l → IsBounded (cleanup l now)
unfolding cleanup
cleanup-IsBounded l now b = record {
  distinct = clean-Distinct l.ttl_ms now l.windows b.distinct;
  bounded = λ user.
      rw (lookup-clean l.ttl_ms now user l.windows b.distinct)
        (omega (arith, b.bounded user, length-filter-le (is_fresh l.ttl_ms now) (hits_of l user)));
}

after-IsBounded : (l : Limiter) (es : List Event) → IsBounded l → IsBounded (after l es)
unfolding after
after-IsBounded l [] b = b
after-IsBounded l (hit now v ∷ es) b =
    after-IsBounded (is_allowed l now v).1 es (is_allowed-IsBounded l now v b)
after-IsBounded l (sweep now ∷ es) b =
    after-IsBounded (cleanup l now) es (cleanup-IsBounded l now b)

limit-after : (l : Limiter) (es : List Event) → (after l es).limit ≡ l.limit
unfolding after cleanup
limit-after l [] = refl
limit-after l (hit now v ∷ es) = limit-after (is_allowed l now v).1 es ∙ (limiter_same l now v).1
limit-after l (sweep now ∷ es) = limit-after (cleanup l now) es

refused-Waits :
    (l : Limiter) (now user : ℕ)
    → IsBounded l
    → 0 < l.limit
    → (is_allowed l now user).0 ≡ false
    → Waits (is_allowed l now user).1 now user
refused-Waits l now user b h refused =
    let (left, full) = hits_of_refused l now user refused in
    let same = limiter_same l now user in
    full_window-Waits (is_allowed l now user).1 now user _ left
      (rw same.0 (All-filter_fresh l.ttl_ms now (hits_of l user))) (omega arith)
      (omega (arith, b.bounded user, length-filter-le (is_fresh l.ttl_ms now) (hits_of l user)))

-- When a limiter that admits at least one event has refused one, after any history, the waiting time
-- that it then reports is a positive number of seconds, and after that time the user is let through
-- again, if the user has tried nothing else meanwhile.
pub refused-retry_after :
    (limit ttl_seconds now later user : ℕ) (es : List Event)
    → 0 < limit
    → (is_allowed (after (new_limiter limit ttl_seconds) es) now user).0 ≡ false
    → now
        + pos_part (
            retry_after (is_allowed (after (new_limiter limit ttl_seconds) es) now user).1 now user)
          * 1000
      ≤ later
    → (0
        < pos_part (
            retry_after
              (is_allowed (after (new_limiter limit ttl_seconds) es) now user).1
              now
              user))
      × ((is_allowed
            (is_allowed (after (new_limiter limit ttl_seconds) es) now user).1
            later
            user).0
          ≡ true)
refused-retry_after limit ttl_seconds now later user es h refused wait =
    let l = after (new_limiter limit ttl_seconds) es in
    let start = new_limiter limit ttl_seconds in
    let b = after-IsBounded start es (record { distinct = tt; bounded = λ u. omega arith }) in
    let w = refused-Waits l now user b (omega (arith, limit-after start es)) refused in
    (rw w.told w.positive, w.enough later (rw w.told at wait))

-- `cleanup` is not observable where each user has one window: whoever is let through at a time that is not before the sweep is let
-- through without it too, and the other way round.
pub is_allowed-cleanup :
    (l : Limiter) (now later user : ℕ)
    → Distinct l.windows
    → now ≤ later
    → (is_allowed (cleanup l now) later user).0 ≡ (is_allowed l later user).0
is_allowed-cleanup l now later user d h =
    is_allowed_iff (cleanup l now) later user
    ∙ unfold cleanup in
      rw (lookup-clean l.ttl_ms now user l.windows d) (
        rw (count-filter_fresh l.ttl_ms now later (hits_of l user) h)
          (sym (is_allowed_iff l later user)))
