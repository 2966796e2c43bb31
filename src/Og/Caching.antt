-- ===== src/Og/Caching.antt =====
-- og/og.service.ts: the cache of previews.
use messenger_web_app.Prelude.{
  ℕ, ◌+◌, ◌≤◌, ◌<◌, ◌≡◌, refl, true, Option, none, some, [], ◌∷◌, arith, nat_eq,
}
use messenger_web_app.Prelude.Texts.{Text, text_eq_self}
use messenger_web_app.Og.Fetching.{Url, Web, Outcome, Response, done, failed, is_web}
use messenger_web_app.Og.Preview.{
  Page, Entry, Cache, cached, cache_set, is_live, preview_of, fetch_preview, store_preview,
  error_ttl_ms, ttl_of, parse_og_data, OgData,
}

cached-cache_set : (key : Text) (e : Entry) (c : Cache) → cached key (cache_set key e c) ≡ some e
cached-cache_set key e [] = rw (text_eq_self key)
cached-cache_set key e ((k, old) ∷ c) = ground (arith, text_eq_self key, cached-cache_set key e c)

error-le-ttl_of : (o : Option OgData) → error_ttl_ms ≤ ttl_of o
error-le-ttl_of none = omega arith
error-le-ttl_of (some x) = omega arith

error-le-preview_of :
    (web : Web) (read : Response → Page) (key : Text) (url : Url) (o : Outcome Response)
    → error_ttl_ms ≤ (preview_of web read key url o).1
unfolding preview_of
error-le-preview_of web read key url (failed e) = ground arith
error-le-preview_of web read key url (done r) =
    ground (arith, error-le-ttl_of (parse_og_data web key (read r) url))

-- For two minutes after a preview has been answered and stored under its link, the same link is answered
-- in the same way from the cache, whatever the network would answer then.
pub store_preview-fetch_preview :
    (web later_web : Web) (read : Response → Page) (o : Outcome Response) (later again end : ℕ)
    (raw : Text) (url : Url) (c : Cache)
    → later_web.parse raw ≡ some url
    → is_web url.protocol ≡ true
    → again < later + error_ttl_ms
    → let first = store_preview web read url.href url later c o in
      fetch_preview later_web read again end raw first.1 ≡ some first
unfolding fetch_preview
store_preview-fetch_preview web later_web read o later again end raw url c q w h =
    let p = preview_of web read url.href url o in
    let e : Entry = record { info = p.0; ts = later; ttl = p.1 } in
    let live : is_live again e ≡ true =
      ground (arith, error-le-preview_of web read url.href url o) in
    rw (q, w, cached-cache_set url.href e c, live) refl
