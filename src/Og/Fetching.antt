-- ===== src/Og/Fetching.antt =====
-- og/guards/ssrf.guard.ts: `validateHostname` and `safeFetch`. The resolver, the parser of addresses
-- and the network are arguments; each may answer the same question differently from round to round.
use messenger_web_app.Prelude.{
  ℕ, zero, suc, ◌+◌, ◌-◌, min, Bool, true, false, ◌&&◌, ◌||◌, Option, none, some, List, [], ◌∷◌,
  ◌++◌, ◌==◌, nat_eq, leb, ltb, length, if◌then◌else◌,
}
use messenger_web_app.Prelude.Texts.{Text, codes, text_eq, includes, drop, replicate, take}
use messenger_web_app.Og.Addresses.{is_ipv4, is_private_ipv4, is_private_ipv6}

-- `URL`
pub record Url : Type 0 where
  pub href : Text
  pub protocol : Text
  pub hostname : Text
  pub origin : Text

-- A body: the chunks that `reader.read()` gives, and what follows them. The call says that the body is
-- done, throws, or never answers. A body that goes on for ever without passing the cap on its size is
-- one that never answers.
pub data Ending : Type 0 where
  closed broken stalled : Ending

pub record Body : Type 0 where
  pub chunks : List (List ℕ)
  pub ending : Ending

pub record Response : Type 0 where
  pub status : ℕ
  pub location : Option Text
  pub content_type : Option Text
  pub body : Option Body

-- The errors of the guard with what their messages are made of, and those of the network.
pub data FetchError : Type 0 where
  private_ipv4 private_ipv6 dns_failed : Text → FetchError
  resolves_to_private_ipv4 resolves_to_private_ipv6 : Text → Text → FetchError
  invalid_url blocked_protocol invalid_redirect redirect_to_blocked : Text → FetchError
  no_location too_many_redirects : FetchError
  network aborted : FetchError

-- `err instanceof SsrfError`
abbrev pub is_ssrf : FetchError → Bool
is_ssrf network = false
is_ssrf aborted = false
is_ssrf _ = true

pub data Outcome (A : Type 0) : Type 0 where
  done : A → Outcome A
  failed : FetchError → Outcome A

-- What the guard calls. `round` counts the requests of one fetch.
pub record Web : Type 0 where
  -- `new URL(text)` and `new URL(location, base)`
  pub parse : Text → Option Url
  pub resolve : Text → Text → Option Url
  -- `net.isIPv6`
  pub is_ipv6 : Text → Bool
  -- `dns.lookup`: the first address and its family.
  pub lookup : ℕ → Text → Option (Text × ℕ)
  -- `fetch` with its timeout.
  pub fetch : ℕ → Text → Outcome Response

abbrev pub check_lookup : Text → Option (Text × ℕ) → Option FetchError
check_lookup host none = some (dns_failed host)
check_lookup host (some (address, family)) =
    if family == 4 && is_private_ipv4 address
    then some (resolves_to_private_ipv4 host address)
    else (if family == 6 && is_private_ipv6 address
        then some (resolves_to_private_ipv6 host address)
        else none)

-- `none` where the name passes.
unfoldable pub validate_hostname : Web → ℕ → Text → Option FetchError
validate_hostname web round host =
    if is_ipv4 host
    then (if is_private_ipv4 host then some (private_ipv4 host) else none)
    else (if web.is_ipv6 host
        then (if is_private_ipv6 host then some (private_ipv6 host) else none)
        else check_lookup host (web.lookup round host))

abbrev pub is_web : Text → Bool
is_web protocol = text_eq protocol (codes "http:") || text_eq protocol (codes "https:")

abbrev pub is_redirect : ℕ → Bool
is_redirect status = leb 300 status && ltb status 400

-- The chunks that are kept, newest last, and the number of bytes that were seen.
unfoldable pub read_capped : ℕ → List (List ℕ) → List (List ℕ) → ℕ → List (List ℕ) × ℕ
read_capped max [] kept total = (kept, total)
read_capped max (chunk ∷ rest) kept total =
    let more = read_capped max rest (kept ++ chunk ∷ []) (total + length chunk) in
    if ltb max (total + length chunk) then (kept, total + length chunk) else more

-- `body.set(chunk, offset)` for each chunk in turn, on an array of zeros; no chunk passes its end.
unfoldable pub fill : List ℕ → ℕ → List (List ℕ) → List ℕ
fill body offset [] = body
fill body offset (chunk ∷ rest) =
    fill (take offset body ++ chunk ++ drop (offset + length chunk) body) (offset + length chunk)
      rest

unfoldable pub capped_body : ℕ → List (List ℕ) → List ℕ
unfolding read_capped fill
capped_body max chunks =
    let (kept, total) = read_capped max chunks [] 0 in fill (replicate (min total max) 0) 0 kept

abbrev pub or_empty_text : Option Text → Text
or_empty_text none = []
or_empty_text (some s) = s

-- Whether the chunks pass the cap: then the rest of the body is not read.
abbrev pub is_over : ℕ → List (List ℕ) → Bool
is_over max chunks = ltb max (read_capped max chunks [] 0).1

abbrev pub with_capped : ℕ → List (List ℕ) → Response → Response
with_capped max chunks r = record r {
  body = some (record { chunks = capped_body max chunks ∷ []; ending = closed });
}

abbrev pub at_end : Ending → Response → Option (Outcome Response)
at_end closed r = some (done r)
at_end broken r = some (failed network)
at_end stalled r = none

-- What follows the handling of redirects; a response with no body is given as it is. `none` where the
-- body stalls: there is no time limit on its reading.
abbrev pub with_body : ℕ → Option Body → Response → Option (Outcome Response)
with_body max none r = some (done r)
with_body max (some b) r =
    if is_over max b.chunks
    then some (done (with_capped max b.chunks r))
    else at_end b.ending (with_capped max b.chunks r)

unfoldable pub accept : ℕ → Response → Option (Outcome Response)
unfolding read_capped
accept max r =
    if includes (codes "text/html") (or_empty_text r.content_type)
    then with_body max r.body r
    else some (done (record { status = 204; location = none; content_type = none; body = none }))

-- Where the redirect leads: the next address, or the error.
abbrev pub check_next : Text → Option Url → Outcome Url
check_next location none = failed (invalid_redirect location)
check_next location (some url) =
    if is_web url.protocol then done url else failed (redirect_to_blocked url.protocol)

abbrev pub next_url : Web → Url → ℕ → Option Text → Outcome Url
next_url web current left none = failed no_location
next_url web current left (some location) =
    if text_eq location []
    then failed no_location
    else (if left == 0
        then failed too_many_redirects
        else check_next location (web.resolve location current.href))

-- The requests that were sent, oldest first, each with the round in which it was.
abbrev pub Log : Type 0
Log = List (ℕ × Url)

-- `while (true)`: `none` where a body stalls, or where the fuel runs out, which it does not.
unfoldable pub fetch_loop : Web → ℕ → ℕ → ℕ → ℕ → Url → Log → Option (Outcome Response) × Log
fetch_loop web max zero round left url log = (none, log)
fetch_loop web max (suc fuel) round left url log = elim (validate_hostname web round url.hostname) [
  | some e ↦ (some (failed e), log)
  | none ↦ elim (web.fetch round url.href) [
    | failed e ↦ (some (failed e), log ++ (round, url) ∷ [])
    | done r ↦ elim (is_redirect r.status) [
      | false ↦ (accept max r, log ++ (round, url) ∷ [])
      | true ↦ elim (next_url web url left r.location) [
        | failed e ↦ (some (failed e), log ++ (round, url) ∷ [])
        | done next ↦ fetch_loop web max fuel (round + 1) (left - 1) next (log ++ (round, url) ∷ [])
      ]
    ]
  ]
]

-- One round for each redirect, and one for the last answer.
unfoldable pub start_fetch : Web → ℕ → ℕ → Text → Option Url → Option (Outcome Response) × Log
unfolding fetch_loop
start_fetch web max redirects raw none = (some (failed (invalid_url raw)), [])
start_fetch web max redirects raw (some url) =
    if is_web url.protocol
    then fetch_loop web max (suc redirects) 0 redirects url []
    else (some (failed (blocked_protocol url.protocol)), [])

unfoldable pub safe_fetch : Web → ℕ → ℕ → Text → Option (Outcome Response) × Log
unfolding start_fetch
safe_fetch web max redirects raw = start_fetch web max redirects raw (web.parse raw)
