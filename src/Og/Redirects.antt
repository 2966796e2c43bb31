-- ===== src/Og/Redirects.antt =====
-- og/guards/ssrf.guard.ts: what holds of every request of one `safeFetch`.
use messenger_web_app.Prelude.Rows.{In-append_right}
use messenger_web_app.Og.Capping.{concat}
use messenger_web_app.Prelude.{
  List, ltb, ℕ, zero, suc, ◌+◌, ◌-◌, ◌≤◌, ◌<◌, ◌≡◌, refl, sym, ◌∙◌, ◌⊎◌, inl, inr, true, false,
  Option, none, some, [], ◌∷◌, ◌++◌, arith, length, length-append, All, All-append, All-In, In,
  Bool-cases, Option-cases,
}
use messenger_web_app.Prelude.Texts.{Text, text_eq, codes, includes}
use messenger_web_app.Og.Addresses.{dotted, is_ipv4, is_private_ipv4}
use messenger_web_app.Og.Reserved.{is_reserved, is_private_ipv4-dotted, is_ipv4-dotted}
use messenger_web_app.Og.Fetching.{
  accept, check_lookup, FetchError, invalid_url, blocked_protocol, Url, Web, Outcome, done, failed,
  Response, Body, Ending, closed, broken, stalled, network, read_capped, is_over, with_capped,
  at_end, with_body, or_empty_text, Log, validate_hostname, is_web, is_redirect, next_url,
  fetch_loop, safe_fetch,
}

next_url-step :
    (web : Web) (current : Url) (left : ℕ) (location : Option Text) (next : Url)
    → next_url web current left location ≡ done next
    → (0 < left) × (is_web next.protocol ≡ true)
next_url-step web current left none next h = cc
next_url-step web current left (some location) next h = elim (Bool-cases (text_eq location [])) [
  | inl e ↦ absurd (ground arith)
  | inr e ↦ elim (Option-cases (web.resolve location current.href)) [
    | inl n ↦ absurd (ground (arith, n))
    | inr (u, n) ↦ ground (arith, n)
  ]
]

Outcome-cases :
    {A : Type 0} (o : Outcome A) → ((e : FetchError) × (o ≡ failed e)) ⊎ ((a : A) × (o ≡ done a))
Outcome-cases (failed e) = inl (e, refl)
Outcome-cases (done a) = inr (a, refl)

-- A request was sent to an address of the web whose name had passed the check of its round.
abbrev IsChecked : Web → ℕ × Url → Type 0
IsChecked web q = (validate_hostname web q.0 q.1.hostname ≡ none) × (is_web q.1.protocol ≡ true)

-- A response whose body stalls before it has passed the cap.
abbrev pub Stalls : ℕ → Response → Type 0
Stalls max r =
    (b : Body) × (r.body ≡ some b) × (b.ending ≡ stalled) × (length (concat b.chunks) ≤ max)

within_cap :
    (max : ℕ) (chunks kept : List (List ℕ)) (total : ℕ)
    → (read_capped max chunks kept total).1 ≤ max
    → total + length (concat chunks) ≤ max
unfolding read_capped
within_cap max [] kept total h = omega arith
within_cap max (chunk ∷ rest) kept total h = elim (Bool-cases (ltb max (total + length chunk))) [
  | inl t ↦ let h' : total + length chunk ≤ max = rw t at h in absurd (ground arith)
  | inr t ↦
      let h' : (read_capped max rest (kept ++ chunk ∷ []) (total + length chunk)).1 ≤ max =
        rw t at h in
      omega (
        arith,
        within_cap max rest (kept ++ chunk ∷ []) (total + length chunk) h',
        length-append chunk (concat rest),
      )
]

not_over :
    (max : ℕ) (chunks : List (List ℕ)) → is_over max chunks ≡ false → length (concat chunks) ≤ max
not_over max chunks h =
    let l : (read_capped max chunks [] 0).1 ≤ max = ground arith in
    omega (arith, within_cap max chunks [] 0 l)

at_end_cases :
    (max : ℕ) (e : Ending) (r : Response)
    → ((o : Outcome Response) × (at_end e r ≡ some o)) ⊎ ((at_end e r ≡ none) × (e ≡ stalled))
at_end_cases max closed r = inl (done r, refl)
at_end_cases max broken r = inl (failed network, refl)
at_end_cases max stalled r = inr (refl, refl)

-- A response is given back, or its body stalls.
abbrev Settles : ℕ → Response → Option (Outcome Response) → Type 0
Settles max r x = ((o : Outcome Response) × (x ≡ some o)) ⊎ ((x ≡ none) × Stalls max r)

with_body-Settles :
    (max : ℕ) (o : Option Body) (r : Response) → r.body ≡ o → Settles max r (with_body max o r)
with_body-Settles max none r e = inl (done r, refl)
with_body-Settles max (some b) r e = elim (Bool-cases (is_over max b.chunks)) [
  | inl t ↦ rw t (inl (done (with_capped max b.chunks r), refl))
  | inr t ↦ rw t (elim (at_end_cases max b.ending (with_capped max b.chunks r)) [
    | inl found ↦ inl found
    | inr (n, s) ↦ inr (n, (b, e, s, not_over max b.chunks t))
  ])
]

accept-Settles : (max : ℕ) (r : Response) → Settles max r (accept max r)
unfolding accept
accept-Settles max r =
    elim (Bool-cases (includes (codes "text/html") (or_empty_text r.content_type))) [
      | inl t ↦ rw t (with_body-Settles max r.body r refl)
      | inr t ↦ rw t (inl (_, refl))
    ]

-- The answer to one of the requests stalls.
abbrev pub SomeStalls : Web → ℕ → Log → Type 0
SomeStalls web max log =
    (q : ℕ × Url) × In q log × ((r : Response) × (web.fetch q.0 q.1.href ≡ done r) × Stalls max r)

-- How a loop ends that may send so many requests.
abbrev EndsWell : Web → ℕ → ℕ → Option (Outcome Response) × Log → Type 0
EndsWell web max bound r =
    (((o : Outcome Response) × (r.0 ≡ some o)) ⊎ ((r.0 ≡ none) × SomeStalls web max r.1))
    × (length r.1 ≤ bound)
    × All (IsChecked web) r.1

module _ (web : Web) (max round : ℕ) (url : Url) (log : Log) where
  logged :
      (bound : ℕ) (x : Option (Outcome Response))
      → length log < bound
      → All (IsChecked web) log
      → IsChecked web (round, url)
      → ((o : Outcome Response) × (x ≡ some o))
        ⊎ ((x ≡ none) × SomeStalls web max (log ++ (round, url) ∷ []))
      → EndsWell web max bound (x, log ++ (round, url) ∷ [])
  logged bound x h a c e = (
    e,
    omega (arith, length-append log ((round, url) ∷ [])),
    All-append (IsChecked web) log ((round, url) ∷ []) a (c, tt),
  )

  answered :
      (r : Response)
      → web.fetch round url.href ≡ done r
      → ((o : Outcome Response) × (accept max r ≡ some o))
        ⊎ ((accept max r ≡ none) × SomeStalls web max (log ++ (round, url) ∷ []))
  answered r f = elim (accept-Settles max r) [
    | inl found ↦ inl found
    | inr (n, s) ↦ inr (n, ((round, url), In-append_right (round, url) log, (r, f, s)))
  ]

fetch_loop-EndsWell :
    (web : Web) (max fuel round left bound : ℕ) (url : Url) (log : Log)
    → left < fuel
    → length log + left < bound
    → is_web url.protocol ≡ true
    → All (IsChecked web) log
    → EndsWell web max bound (fetch_loop web max fuel round left url log)
unfolding fetch_loop
fetch_loop-EndsWell web max zero round left bound url log h l p a = absurd (omega arith)
fetch_loop-EndsWell web max (suc fuel) round left bound url log h l p a =
    elim (Option-cases (validate_hostname web round url.hostname)) [
      | inr (e, v) ↦ rw (v, fetch_loop) (inl (failed e, refl), omega arith, a)
      | inl v ↦
          rw (v, fetch_loop)
            (let end : (o : Outcome Response)
                  → EndsWell web max bound (some o, log ++ (round, url) ∷ []) =
                λ o.
                  logged web max round url log bound (some o) (omega arith) a (v, p)
                    (inl (o, refl)) in
              elim (Outcome-cases (web.fetch round url.href)) [
                | inl (e, f) ↦ rw f (end (failed e))
                | inr (r, f) ↦ rw f (elim (Bool-cases (is_redirect r.status)) [
                  | inr t ↦ rw t (
                      logged web max round url log bound (accept max r) (omega arith) a (v, p)
                        (answered web max round url log r f))
                  | inl t ↦ rw t (elim (Outcome-cases (next_url web url left r.location)) [
                    | inl (e, n) ↦ rw n (end (failed e))
                    | inr (next, n) ↦ rw n (
                        let (more, web_next) = next_url-step web url left r.location next n in
                        let (ends, short, checked) =
                          fetch_loop-EndsWell web max fuel (round + 1) (left - 1) bound next
                            (log ++ (round, url) ∷ []) (omega arith)
                            (omega (arith, length-append log ((round, url) ∷ []))) web_next
                            (All-append (IsChecked web) log ((round, url) ∷ []) a ((v, p), tt)) in
                        (ends, short, checked))
                  ])
                ])
              ])
    ]

safe_fetch-EndsWell :
    (web : Web) (max redirects : ℕ) (raw : Text)
    → EndsWell web max (redirects + 1) (safe_fetch web max redirects raw)
unfolding safe_fetch
safe_fetch-EndsWell web max redirects raw = elim (Option-cases (web.parse raw)) [
  | inl e ↦ rw e (inl (failed (invalid_url raw), refl), omega arith, tt)
  | inr (url, e) ↦ rw e (elim (Bool-cases (is_web url.protocol)) [
    | inl p ↦ rw p (
        fetch_loop-EndsWell web max (suc redirects) 0 redirects (redirects + 1) url [] (omega arith)
          (omega arith) p tt)
    | inr p ↦ rw p (inl (failed (blocked_protocol url.protocol), refl), omega arith, tt)
  ])
]

web_only :
    (web : Web) (log : Log) → All (IsChecked web) log → All (λ q. is_web q.1.protocol ≡ true) log
web_only web [] a = tt
web_only web (q ∷ log) (c, a) = (c.1, web_only web log a)

-- safeFetch ends with a response or an error, or one of its requests was answered with a body that
-- stalls before it has passed the cap. Either way it sends at most one request more than the redirects
-- that it may follow, whatever the network, the resolver and the parser answer, and all its requests
-- are of the protocol http or https.
pub safe_fetch_ends :
    (web : Web) (max redirects : ℕ) (raw : Text)
    → (((o : Outcome Response) × ((safe_fetch web max redirects raw).0 ≡ some o))
        ⊎ (((safe_fetch web max redirects raw).0 ≡ none)
            × SomeStalls web max (safe_fetch web max redirects raw).1))
      × (length (safe_fetch web max redirects raw).1 ≤ redirects + 1)
      × All (λ q. is_web q.1.protocol ≡ true) (safe_fetch web max redirects raw).1
safe_fetch_ends web max redirects raw =
    let (ends, short, checked) = safe_fetch-EndsWell web max redirects raw in
    (ends, short, web_only web _ checked)

-- The name is the address's text, or the resolver gives the address for it in this round.
abbrev pub Designates : Web → ℕ → Text → Text → Type 0
Designates web round host address =
    (host ≡ address)
    ⊎ ((is_ipv4 host ≡ false)
        × (web.is_ipv6 host ≡ false)
        × (web.lookup round host ≡ some (address, 4)))

validate_hostname-none :
    (web : Web) (round : ℕ) (host address : Text)
    → is_ipv4 address ≡ true
    → validate_hostname web round host ≡ none
    → Designates web round host address
    → is_private_ipv4 address ≡ false
unfolding validate_hostname
validate_hostname-none web round host address t v (inl e) =
    let t' : is_ipv4 host ≡ true = rw e t in rw (← e) (ground arith)
validate_hostname-none web round host address t v (inr (e, f, g)) =
    let w : check_lookup host (some (address, 4)) ≡ none = rw (e, f, g) at v in ground arith

-- No request of safeFetch goes to a name that is, or in its round resolves to, an IPv4 address in one
-- of the blocks.
pub safe_fetch_avoids :
    (web : Web) (max redirects : ℕ) (raw : Text) (round : ℕ) (url : Url) (a b c d : ℕ)
    → In (round, url) (safe_fetch web max redirects raw).1
    → a < 256
    → b < 256
    → c < 256
    → d < 256
    → Designates web round url.hostname (dotted a b c d)
    → is_reserved a b c d ≡ false
safe_fetch_avoids web max redirects raw round url a b c d i ha hb hc hd named =
    let (_, _, checked) = safe_fetch-EndsWell web max redirects raw in
    let (v, p) = All-In (IsChecked web) (round, url) _ checked i in
    sym (is_private_ipv4-dotted a b c d ha hb hc hd)
    ∙ validate_hostname-none web round url.hostname (dotted a b c d)
        (is_ipv4-dotted a b c d ha hb hc hd) v named
