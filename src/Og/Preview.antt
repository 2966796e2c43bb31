-- ===== src/Og/Preview.antt =====
-- og/og.service.ts: the previews of links with their cache. What the patterns of `getMeta` and of the
-- title find in a page is an argument.
use messenger_web_app.Prelude.{
  ℕ, zero, suc, ◌-◌, ◌*◌, Bool, true, false, not, ◌&&◌, Option, none, some, String, List, [], ◌∷◌,
  ◌==◌, nat_eq, leb, ltb, length, if◌then◌else◌,
}
use messenger_web_app.Prelude.Texts.{
  Text, codes, text_eq, starts_with, take, drop, is_white, trim_codes,
}
use messenger_web_app.Og.Fetching.{
  Url, Response, Outcome, done, failed, Web, is_ssrf, is_web, safe_fetch,
}

abbrev pub success_ttl_ms : ℕ
success_ttl_ms = 10 * 60 * 1000

abbrev pub error_ttl_ms : ℕ
error_ttl_ms = 2 * 60 * 1000

pub record OgData : Type 0 where
  pub url : Text
  pub title : Option Text
  pub description : Option Text
  pub image : Option Text
  pub site_name : Option Text

-- `replace` of every place where the pattern stands, from the left; `skip` characters still belong
-- to the place that was found last.
unfoldable pub replace_all : Text → ℕ → ℕ → Text → Text
replace_all pattern by skip [] = []
replace_all pattern by (suc skip) (c ∷ s) = replace_all pattern by skip s
replace_all pattern by zero (c ∷ s) =
    let found = starts_with pattern (c ∷ s) in
    let rest = replace_all pattern by (if found then length pattern - 1 else 0) s in
    (if found then by else c) ∷ rest

-- `replace(/\s+/g, ' ')`; the flag is whether the character before was white.
unfoldable pub squeeze : Bool → Text → Text
squeeze before [] = []
squeeze before (c ∷ s) =
    let rest = squeeze (is_white c) s in
    if is_white c then (if before then rest else 32 ∷ rest) else c ∷ rest

unfoldable pub sanitize_text : Text → Text
unfolding replace_all squeeze
sanitize_text s =
    let a = replace_all (codes "&amp;") b'&' 0 s in
    let b = replace_all (codes "&lt;") b'<' 0 a in
    let c = replace_all (codes "&gt;") b'>' 0 b in
    let d = replace_all (codes "&quot;") b'"' 0 c in
    let e = replace_all (codes "&#39;") 39 0 d in
    let f = replace_all (codes "&nbsp;") 32 0 e in take 300 (trim_codes (squeeze false f))

-- What the patterns find in a page: `getMeta`, and the content of the title.
pub record Page : Type 0 where
  pub get_meta : String → String → Option Text
  pub title : Option Text

-- `a || b` on texts that may be missing.
abbrev pub or_else : Option Text → Option Text → Option Text
or_else none b = b
or_else (some []) b = b
or_else (some (c ∷ s)) b = some (c ∷ s)

-- `x ? sanitizeText(x) : undefined`
abbrev pub sanitized : Option Text → Option Text
sanitized none = none
sanitized (some []) = none
sanitized (some (c ∷ s)) = some (sanitize_text (c ∷ s))

abbrev pub web_image : Option Url → Option Text
web_image none = none
web_image (some u) = if is_web u.protocol then some u.href else none

abbrev pub reparse : Web → Option Url → Option Url
reparse web none = none
reparse web (some u) = web.parse u.href

-- The address of the image, made absolute; one that is none, or not of the web, is dropped.
unfoldable pub image_url : Web → Url → Option Text → Option Text
image_url web url none = none
image_url web url (some []) = some []
image_url web url (some (c ∷ s)) = web_image (reparse web (web.resolve (c ∷ s) url.origin))

abbrev pub without_www : Text → Text
without_www host = if starts_with (codes "www.") host then drop 4 host else host

-- A text that is missing or empty.
abbrev pub is_blank : Option Text → Bool
is_blank none = true
is_blank (some []) = true
is_blank (some (c ∷ s)) = false

unfoldable pub parse_og_data : Web → Text → Page → Url → Option OgData
unfolding image_url
parse_og_data web key page url =
    let title =
      or_else (page.get_meta "property" "og:title")
        (or_else (page.get_meta "name" "twitter:title") page.title) in
    let description =
      or_else (page.get_meta "property" "og:description") (page.get_meta "name" "description") in
    let image =
      image_url web url
        (or_else (page.get_meta "property" "og:image") (page.get_meta "name" "twitter:image")) in
    let site_name =
      or_else (page.get_meta "property" "og:site_name") (some (without_www url.hostname)) in
    if is_blank title && is_blank description && is_blank image
    then none
    else some (record {
      url = key;
      title = sanitized title;
      description = sanitized description;
      image = image;
      site_name = sanitized site_name;
    })

pub record Entry : Type 0 where
  pub info : Option OgData
  pub ts : ℕ
  pub ttl : ℕ

-- `cache`, keyed by the address's text.
abbrev pub Cache : Type 0
Cache = List (Text × Entry)

abbrev pub cached : Text → Cache → Option Entry
cached key [] = none
cached key ((k, e) ∷ c) = if text_eq k key then some e else cached key c

abbrev pub cache_set : Text → Entry → Cache → Cache
cache_set key e [] = (key, e) ∷ []
cache_set key e ((k, old) ∷ c) = if text_eq k key then (k, e) ∷ c else (k, old) ∷ cache_set key e c

-- `Date.now() - cached.ts < cached.ttl`, for a clock that does not run backwards.
abbrev pub is_live : ℕ → Entry → Bool
is_live now e = ltb (now - e.ts) e.ttl

abbrev pub is_ok_status : ℕ → Bool
is_ok_status status = leb 200 status && ltb status 300

abbrev pub ttl_of : Option OgData → ℕ
ttl_of none = error_ttl_ms
ttl_of (some _) = success_ttl_ms

-- What comes of the request: the preview, and how long it stays. The body is read by `read`.
unfoldable pub preview_of :
    Web → (Response → Page) → Text → Url → Outcome Response → Option OgData × ℕ
preview_of web read key url (failed e) = (none, if is_ssrf e then success_ttl_ms else error_ttl_ms)
preview_of web read key url (done r) =
    if r.status == 204
    then (none, error_ttl_ms)
    else (if not (is_ok_status r.status)
        then (none, error_ttl_ms)
        else (let found = parse_og_data web key (read r) url in (found, ttl_of found)))

-- The request that `now` starts ends at `later`; `none` where it does not end.
abbrev pub store_preview :
    Web → (Response → Page) → Text → Url → ℕ → Cache → Outcome Response → Option OgData × Cache
store_preview web read key url later c o =
    let (found, ttl) = preview_of web read key url o in
    (found, cache_set key (record { info = found; ts = later; ttl = ttl }) c)

abbrev pub fetch_fresh :
    Web → (Response → Page) → Text → Url → ℕ → Cache → Option (Option OgData × Cache)
fetch_fresh web read key url later c = elim (safe_fetch web (512 * 1024) 3 key).0 [
  | none ↦ none
  | some o ↦ some (store_preview web read key url later c o)
]

abbrev pub fetch_uncached :
    Web → (Response → Page) → Url → ℕ → ℕ → Option Entry → Cache → Option (Option OgData × Cache)
fetch_uncached web read url now later none c = fetch_fresh web read url.href url later c
fetch_uncached web read url now later (some e) c =
    if is_live now e then some (e.info, c) else fetch_fresh web read url.href url later c

abbrev pub fetch_parsed :
    Web → (Response → Page) → ℕ → ℕ → Option Url → Cache → Option (Option OgData × Cache)
fetch_parsed web read now later none c = some (none, c)
fetch_parsed web read now later (some url) c =
    if is_web url.protocol
    then fetch_uncached web read url now later (cached url.href c) c
    else some (none, c)

unfoldable pub fetch_preview :
    Web → (Response → Page) → ℕ → ℕ → Text → Cache → Option (Option OgData × Cache)
unfolding preview_of parse_og_data safe_fetch
fetch_preview web read now later raw c = fetch_parsed web read now later (web.parse raw) c
