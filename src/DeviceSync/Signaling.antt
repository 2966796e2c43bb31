-- ===== src/DeviceSync/Signaling.antt =====
-- Whom the events of device sync reach, and what is disclosed to them.
use messenger_web_app.Prelude.{
  ℕ, ◌+◌, ◌<◌, ◌≡◌, ◌≢◌, refl, sym, ◌∙◌, inl, inr, true, false, none, some, String, [], ◌∷◌, ◌==◌,
  nat_eq, string_eq, if◌then◌else◌, arith, Map, lookup, insert, erase, lookup-insert, lookup-erase,
  Option-cases,
}
use text.Mathlib.TextEquality.{eq_iff}
use messenger_web_app.DeviceSync.{
  SyncSession, Store, has_session, get_session, erase_some, get_session_by_socket, delete_session,
}
use messenger_web_app.DeviceSync.Handlers.{
  Client, to_self, to_socket, joins_room, sync_offer, sync_peer_joined, sync_ice, State, new_sync,
  start_allowed, join_session, join_allowed, handle_ice, handle_abort, is_session_id,
  session_ttl_ms, takes_part,
}
use messenger_web_app.DeviceSync.Tracking.{IsParty}

-- A source starts a session under a new id of 32 hex digits, and another socket of the same user
-- joins within the five minutes: it receives the key and the offer as the source gave them, and the
-- source is told of the key of the target.
pub start-join :
    (source target : Client) (now later : ℕ) (id ek offer ek_target : String) (s : Store)
    → is_session_id id ≡ true
    → has_session id s ≡ false
    → target.user ≡ source.user
    → target.id ≢ source.id
    → later < now + session_ttl_ms
    → (join_allowed target later id ek_target (start_allowed source now id ek offer s).1).0 ≡ (
        joins_room id
        ∷ to_self (sync_offer id (some ek) (some offer))
        ∷ to_socket source.id (sync_peer_joined id ek_target)
        ∷ [])
unfolding start_allowed join_allowed join_session
start-join source target now later id ek offer ek_target s v n u d t =
    let x = new_sync source now ek offer in
    let i : (id == id) ≡ true = (eq_iff id id).1 refl in
    let e : lookup id (insert id x s.mem) ≡ some x = ground (arith, lookup-insert id id x s.mem) in
    let j : (source.id == target.id) ≡ false = ground (arith, eq_iff source.id target.id) in
    ground (arith, v, n, u, e, j)

-- A candidate of a participant in an unexpired session that both have joined goes to the other
-- participant alone, and one of any other socket to nobody; the state does not change.
pub ice_reach :
    (client : Client) (now : ℕ) (id candidate target : String) (x : SyncSession) (s : State)
    → get_session id s.store ≡ some x
    → now < x.expires_at
    → x.target_socket_id ≡ some target
    → handle_ice client now id candidate s ≡ (
      if x.source_socket_id == client.id
          then to_socket target (sync_ice id candidate) ∷ []
          else if target == client.id
          then to_socket x.source_socket_id (sync_ice id candidate) ∷ []
          else [],
      s,
    )
unfolding handle_ice
ice_reach client now id candidate target x s e l t = ground (arith, e, t)

-- The two erasures of a session's sockets leave neither of them.
erased :
    (k : String) (x : SyncSession) (m : Map String String)
    → IsParty k x
    → lookup k (erase_some x.target_socket_id (erase x.source_socket_id m)) ≡ none
erased k x m p = elim (Option-cases x.target_socket_id) [
  | inl n ↦ elim p [
    | inl q ↦
        rw n
          (ground (arith, lookup-erase x.source_socket_id k m, (eq_iff x.source_socket_id k).1 q))
    | inr q ↦ ground (arith, n)
  ]
  | inr (t, n) ↦ elim p [
    | inl q ↦ rw n (
        ground (
          arith,
          lookup-erase x.source_socket_id k m,
          lookup-erase t k (erase x.source_socket_id m),
          (eq_iff x.source_socket_id k).1 q,
        ))
    | inr q ↦
        let o : some t ≡ some k = sym n ∙ q in
        let o' : t ≡ k = cc in
        rw n (ground (arith, lookup-erase t k (erase x.source_socket_id m), (eq_iff t k).1 o'))
  ]
]

IsParty-takes_part :
    (client : Client) (x : SyncSession) → IsParty client.id x → takes_part client x ≡ true
IsParty-takes_part client x (inl p) = ground (arith, (eq_iff x.source_socket_id client.id).1 p)
IsParty-takes_part client x (inr p) = rw p (ground (arith, (eq_iff client.id client.id).1 refl))

-- After a participant has aborted a session, it no longer exists, and neither of its two sockets is
-- found to be in any session.
pub abort_ends :
    (client : Client) (id : String) (x : SyncSession) (s : State)
    → get_session id s.store ≡ some x
    → IsParty client.id x
    → (get_session id (handle_abort client id s).1.store ≡ none)
      × ((k : String)
          → IsParty k x
          → get_session_by_socket k (handle_abort client id s).1.store ≡ none)
unfolding handle_abort delete_session get_session_by_socket
abort_ends client id x s e p =
    let t = IsParty-takes_part client x p in
    let i : (id == id) ≡ true = (eq_iff id id).1 refl in
    (
      ground (arith, e, t, lookup-erase id id s.store.mem),
      λ k q. let n = erased k x s.store.skt_mem q in ground (arith, e, t, n),
    )
