-- ===== src/Og/Tests.antt =====
-- og: runs of the guard and of the previews, and the theorems at concrete inputs.
use messenger_web_app.Prelude.{
  ◌⊎◌, ◌≤◌, ◌≡◌, refl, true, false, Option, none, some, [], ◌∷◌, String, arith, if◌then◌else◌, inl,
  inr, All, length, nat_eq,
}
use messenger_web_app.Prelude.Texts.{Text, codes, text_eq, trim_codes, includes}
use messenger_web_app.Og.Addresses.{dotted, is_ipv4, is_private_ipv4, is_private_ipv6}
use messenger_web_app.Og.Reserved.{is_reserved, is_private_ipv4-dotted}
use messenger_web_app.Og.Fetching.{
  closed, stalled, Url, Web, Outcome, done, Response, is_web, safe_fetch, accept, validate_hostname,
  capped_body,
}
use messenger_web_app.Og.Redirects.{SomeStalls, safe_fetch_ends, safe_fetch_avoids}
use messenger_web_app.Og.Preview.{sanitize_text}

abbrev url_of : String → String → Url
url_of href host = record {
  href = codes href;
  protocol = codes "https:";
  hostname = codes host;
  origin = codes href;
}

abbrev first_page : Url
first_page = url_of "https://a.example/" "a.example"

abbrev second_page : Url
second_page = url_of "https://b.example/" "b.example"

abbrev page_of : Text → Option Url
page_of raw =
    if text_eq raw (codes "https://a.example/")
    then some first_page
    else (if text_eq raw (codes "https://b.example/") then some second_page else none)

-- The first page redirects to the second, which holds three bytes.
abbrev answer : Text → Outcome Response
answer href =
    if text_eq href (codes "https://a.example/")
    then done (record {
      status = 302;
      location = some (codes "https://b.example/");
      content_type = none;
      body = none;
    })
    else done (record {
      status = 200;
      location = none;
      content_type = some (codes "text/html");
      body = some (record { chunks = (1 ∷ 2 ∷ []) ∷ (3 ∷ []) ∷ []; ending = closed });
    })

abbrev site : Web
site = record {
  parse = page_of;
  resolve = λ location base. page_of location;
  is_ipv6 = λ _. false;
  lookup = λ round host. some (codes "93.184.215.14", 4);
  fetch = λ round href. answer href;
}

-- The second page's name is that of a private network.
abbrev trap : Web
trap = record site {
  lookup = λ round host.
      if text_eq host (codes "b.example")
      then some (codes "10.0.0.7", 4)
      else some (codes "93.184.215.14", 4);
}

resolved : trap.lookup 0 first_page.hostname ≡ some (dotted 93 184 215 14, 4)
unfolding dotted
resolved = refl

run_redirect :
    (safe_fetch site 10 3 (codes "https://a.example/")).0
    ≡ some (
        done (record {
          status = 200;
          location = none;
          content_type = some (codes "text/html");
          body = some (record { chunks = (1 ∷ 2 ∷ 3 ∷ []) ∷ []; ending = closed });
        }))
unfolding safe_fetch validate_hostname is_ipv4 is_private_ipv4 accept includes capped_body
run_redirect = refl

run_trap : length (safe_fetch trap 10 3 (codes "https://a.example/")).1 ≡ 1
unfolding safe_fetch validate_hostname is_ipv4 is_private_ipv4
run_trap = refl

run_over : capped_body 4 ((1 ∷ 2 ∷ []) ∷ (3 ∷ 4 ∷ 5 ∷ []) ∷ []) ≡ 1 ∷ 2 ∷ 0 ∷ 0 ∷ []
unfolding capped_body
run_over = refl

run_ipv6 : is_private_ipv6 (codes "::FFFF:c0a8:0101") ≡ true
unfolding is_private_ipv6
run_ipv6 = refl

run_six_to_four : is_private_ipv6 (codes "2002:a00:1::1%eth0") ≡ true
unfolding is_private_ipv6
run_six_to_four = refl

run_sanitize : sanitize_text (codes " A &lt;b&gt;  c&amp;lt; ") ≡ codes "A <b> c<"
unfolding sanitize_text trim_codes
run_sanitize = refl

is_private_ipv4-dotted_example : is_private_ipv4 (dotted 192 168 0 1) ≡ is_reserved 192 168 0 1
is_private_ipv4-dotted_example =
    is_private_ipv4-dotted 192 168 0 1 (omega arith) (omega arith) (omega arith) (omega arith)

-- The first page answers at once, and its body never goes on after two bytes.
abbrev slow : Web
slow = record site {
  fetch = λ round href. done (record {
    status = 200;
    location = none;
    content_type = some (codes "text/html");
    body = some (record { chunks = (1 ∷ 2 ∷ []) ∷ []; ending = stalled });
  });
}

run_slow : (safe_fetch slow 10 3 (codes "https://a.example/")).0 ≡ none
unfolding safe_fetch validate_hostname is_ipv4 is_private_ipv4 accept includes
run_slow = refl

safe_fetch_ends_example :
    (((o : Outcome Response) × ((safe_fetch trap 10 3 (codes "https://a.example/")).0 ≡ some o))
      ⊎ (((safe_fetch trap 10 3 (codes "https://a.example/")).0 ≡ none)
          × SomeStalls trap 10 (safe_fetch trap 10 3 (codes "https://a.example/")).1))
    × (length (safe_fetch trap 10 3 (codes "https://a.example/")).1 ≤ 4)
    × All (λ q. is_web q.1.protocol ≡ true) (safe_fetch trap 10 3 (codes "https://a.example/")).1
safe_fetch_ends_example = safe_fetch_ends trap 10 3 (codes "https://a.example/")

safe_fetch_avoids_example : is_reserved 93 184 215 14 ≡ false
unfolding safe_fetch validate_hostname is_ipv4 is_private_ipv4
safe_fetch_avoids_example =
    safe_fetch_avoids trap 10 3 (codes "https://a.example/") 0 first_page 93 184 215 14 (inl refl)
      (omega arith) (omega arith) (omega arith) (omega arith) (inr (refl, refl, resolved))
