-- ===== src/DeviceSync.antt =====
-- server/src/chat/sync-session.service.ts, without REDIS_URL: the sessions of the device sync in
-- memory. (With Redis the same operations go to that store.)
pub mod Handlers
pub mod Steps
pub mod Ownership
pub mod Tracking
pub mod Reach
pub mod Signaling
pub mod Disclosure
mod Tests
use messenger_web_app.Prelude.{
  ℕ, Bool, true, false, Option, none, some, String, List, [], ◌∷◌, leb, if◌then◌else◌, Map, lookup,
  has, insert, erase, string_eq, ◌==◌,
}
use mathlib.Core.Option

-- `SyncSession`; the offer of the browser is kept as its text.
pub record SyncSession : Type 0 where
  pub user_id : ℕ
  pub source_socket_id : String
  pub target_socket_id : Option String
  pub expires_at : ℕ
  pub ek_source : Option String
  pub sdp_offer : Option String

-- `mem` by session id, `skt_mem` from the id of a socket to that of its session.
pub record Store : Type 0 where
  pub mem : Map String SyncSession
  pub skt_mem : Map String String

abbrev pub has_session : String → Store → Bool
has_session id s = has id s.mem

abbrev pub get_session : String → Store → Option SyncSession
get_session id s = lookup id s.mem

abbrev pub set_session : String → SyncSession → Store → Store
set_session id x s = record s { mem = insert id x s.mem }

-- `update` with the patch as a function.
unfoldable pub update_session : String → (SyncSession → SyncSession) → Store → Store
update_session id patch s = elim (get_session id s) [
  | none ↦ s
  | some x ↦ set_session id (patch x) s
]

abbrev pub track_socket : String → String → Store → Store
track_socket socket id s = record s { skt_mem = insert socket id s.skt_mem }

-- The empty id counts as none.
unfoldable pub get_session_by_socket : String → Store → Option (String × SyncSession)
get_session_by_socket socket s = elim (lookup socket s.skt_mem) [
  | none ↦ none
  | some id ↦ if id == "" then none else Option.map (λ x. (id, x)) (get_session id s)
]

abbrev pub erase_some : Option String → Map String String → Map String String
erase_some none m = m
erase_some (some socket) m = erase socket m

abbrev pub drop_session : String → SyncSession → Store → Store
drop_session id x s = record {
  mem = erase id s.mem;
  skt_mem = erase_some x.target_socket_id (erase x.source_socket_id s.skt_mem);
}

unfoldable pub delete_session : String → Store → Store
delete_session id s = elim (get_session id s) [ none ↦ s | some x ↦ drop_session id x s ]

-- The loop over the entries.
unfoldable pub purge_entries : ℕ → Map String SyncSession → Store → Store
purge_entries now [] s = s
purge_entries now ((id, x) ∷ rest) s =
    purge_entries now rest (if leb x.expires_at now then drop_session id x s else s)

unfoldable pub purge_expired : ℕ → Store → Store
unfolding purge_entries
purge_expired now s = purge_entries now s.mem s
