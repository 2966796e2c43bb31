-- ===== src/DeviceSync/Handlers.antt =====
-- server/src/chat/chat.gateway.ts, Device Sync (VSP-1): the five handlers and the part of
-- `handleDisconnect` about the sessions. A handler returns what it emits, in order, and the new state.
use Prim.Native.Char.{code}
use messenger_web_app.Prelude.{
  ℕ, ◌+◌, ◌*◌, Bool, true, false, not, ◌&&◌, ◌||◌, Option, none, some, String, List, [], ◌∷◌, leb,
  ◌==◌, nat_eq, string_eq, if◌then◌else◌, is_some,
}
use messenger_web_app.Prelude.Int.{ℤ}
use messenger_web_app.RateLimit.{Limiter, is_allowed, retry_after}
use messenger_web_app.DeviceSync.{
  SyncSession, Store, has_session, get_session, set_session, update_session, track_socket,
  get_session_by_socket, delete_session, purge_expired,
}

-- The socket of a client and its user, as the guard has set it.
pub record Client : Type 0 where
  pub id : String
  pub user : ℕ

-- The events that the handlers emit.
pub data Message : Type 0 where
  rate_limited : String → ℤ → Message
  sync_error : String → Message
  sync_ready : String → Message
  sync_offer : String → Option String → Option String → Message
  sync_peer_joined sync_peer_answer sync_ice sync_aborted : String → String → Message

-- An event goes to the client that called or to a socket.
pub data Out : Type 0 where
  to_self : Message → Out
  to_socket : String → Message → Out
  joins_room : String → Out

pub record State : Type 0 where
  pub store : Store
  pub limiter : Limiter

abbrev pub session_ttl_ms : ℕ
session_ttl_ms = 5 * 60 * 1000

abbrev pub is_hex : ℕ → Bool
is_hex k = (leb b'0' k && leb k b'9') || (leb b'a' k && leb k b'f')

abbrev pub all_hex : String → Bool
all_hex String.[] = true
all_hex (String.◌∷◌ k s) = is_hex (code k) && all_hex s

abbrev pub text_length : String → ℕ
text_length String.[] = 0
text_length (String.◌∷◌ k s) = text_length s + 1

-- SESSION_ID_RE, /^[0-9a-f]{32}$/
unfoldable pub is_session_id : String → Bool
is_session_id id = text_length id == 32 && all_hex id

abbrev pub is_socket : Option String → String → Bool
is_socket none socket = false
is_socket (some s) socket = s == socket

-- `rateLimit`: what it emits, whether the event may pass, and the limiter afterwards.
unfoldable pub rate_limit : Client → Limiter → String → ℕ → List Out × Bool × Limiter
rate_limit client l event now =
    if client.user == 0
    then ([], false, l)
    else (let (passed, l') = is_allowed l now client.user in
        if passed
        then ([], true, l')
        else (to_self (rate_limited event (retry_after l' now client.user)) ∷ [], false, l'))

abbrev pub new_sync : Client → ℕ → String → String → SyncSession
new_sync client now ek offer = record {
  user_id = client.user;
  source_socket_id = client.id;
  target_socket_id = none;
  expires_at = now + session_ttl_ms;
  ek_source = some ek;
  sdp_offer = some offer;
}

unfoldable pub start_allowed : Client → ℕ → String → String → String → Store → List Out × Store
start_allowed client now id ek offer s =
    if not (is_session_id id)
    then (to_self (sync_error "invalid_session_id") ∷ [], s)
    else if has_session id s
    then (to_self (sync_error "session_exists") ∷ [], s)
    else (
      joins_room id ∷ to_self (sync_ready id) ∷ [],
      track_socket client.id id (set_session id (new_sync client now ek offer) s),
    )

-- The target is recorded, and the offer is no longer kept.
abbrev pub with_target : String → SyncSession → SyncSession
with_target socket x = record x {
  target_socket_id = some socket;
  ek_source = none;
  sdp_offer = none;
}

unfoldable pub join_session : Client → String → String → SyncSession → Store → List Out × Store
unfolding update_session
join_session client id ek x s = (
  joins_room id
      ∷ to_self (sync_offer id x.ek_source x.sdp_offer)
      ∷ to_socket x.source_socket_id (sync_peer_joined id ek)
      ∷ [],
  track_socket client.id id (update_session id (with_target client.id) s),
)

unfoldable pub join_allowed : Client → ℕ → String → String → Store → List Out × Store
unfolding join_session
join_allowed client now id ek s = elim (get_session id s) [
  | none ↦ (to_self (sync_error "not_found") ∷ [], s)
  | some x ↦
      if leb x.expires_at now
      then (to_self (sync_error "not_found") ∷ [], s)
      else if not (x.user_id == client.user)
      then (to_self (sync_error "not_found") ∷ [], s)
      else if is_some x.target_socket_id
      then (to_self (sync_error "not_available") ∷ [], s)
      else if x.source_socket_id == client.id
      then (to_self (sync_error "not_available") ∷ [], s)
      else join_session client id ek x s
]

-- A handler behind the rate limit of the sync events.
unfoldable pub limited : Client → String → ℕ → (Store → List Out × Store) → State → List Out × State
unfolding rate_limit
limited client event now handler s =
    let (refusal, passed, l) = rate_limit client s.limiter event now in
    if passed
    then (let (outs, store) = handler s.store in (outs, record { store = store; limiter = l }))
    else (refusal, record s { limiter = l })

unfoldable pub handle_start : Client → ℕ → String → String → String → State → List Out × State
unfolding limited start_allowed
handle_start client now id ek offer =
    limited client "deviceSyncStart" now (start_allowed client now id ek offer)

unfoldable pub handle_join : Client → ℕ → String → String → State → List Out × State
unfolding limited join_allowed
handle_join client now id ek = limited client "deviceSyncJoin" now (join_allowed client now id ek)

unfoldable pub handle_relay_answer : Client → String → String → State → List Out × State
handle_relay_answer client id answer s = elim (get_session id s.store) [
  | none ↦ ([], s)
  | some x ↦
      if is_socket x.target_socket_id client.id
      then (to_socket x.source_socket_id (sync_peer_answer id answer) ∷ [], s)
      else ([], s)
]

abbrev pub peer_of : Client → SyncSession → Option String
peer_of client x =
    if x.source_socket_id == client.id then x.target_socket_id else some x.source_socket_id

abbrev pub takes_part : Client → SyncSession → Bool
takes_part client x = x.source_socket_id == client.id || is_socket x.target_socket_id client.id

abbrev pub send_peer : Option String → Message → List Out
send_peer none m = []
send_peer (some socket) m = to_socket socket m ∷ []

unfoldable pub handle_ice : Client → ℕ → String → String → State → List Out × State
handle_ice client now id candidate s = elim (get_session id s.store) [
  | none ↦ ([], s)
  | some x ↦
      if leb x.expires_at now
      then ([], s)
      else if not (takes_part client x)
      then ([], s)
      else (send_peer (peer_of client x) (sync_ice id candidate), s)
]

abbrev pub append_self : List Out → Message → List Out
append_self [] m = to_self m ∷ []
append_self (o ∷ os) m = o ∷ append_self os m

unfoldable pub handle_abort : Client → String → State → List Out × State
unfolding delete_session
handle_abort client id s = elim (get_session id s.store) [
  | none ↦ ([], s)
  | some x ↦ if not (takes_part client x) then ([], s) else (
    append_self (send_peer (peer_of client x) (sync_aborted id "peer_aborted"))
        (sync_aborted id "self_aborted"),
    record s { store = delete_session id s.store },
  )
]

-- `handleDisconnect`: the session that the socket is part of is given up.
unfoldable pub give_up : Client → State → List Out × State
unfolding get_session_by_socket delete_session
give_up client s = elim (get_session_by_socket client.id s.store) [
  | none ↦ ([], s)
  | some (id, x) ↦ (
    send_peer (peer_of client x) (sync_aborted id "peer_disconnected"),
    record s { store = delete_session id s.store },
  )
]

unfoldable pub disconnect_sync : Client → State → List Out × State
unfolding give_up
disconnect_sync client s = if client.user == 0 then ([], s) else give_up client s

pub data Event : Type 0 where
  starts : Client → ℕ → String → String → String → Event
  joins : Client → ℕ → String → String → Event
  answers : Client → String → String → Event
  ices : Client → ℕ → String → String → Event
  aborts : Client → String → Event
  disconnects : Client → Event
  purges : ℕ → Event

unfoldable pub step : Event → State → List Out × State
unfolding handle_start handle_join handle_relay_answer handle_ice handle_abort disconnect_sync
    purge_expired
step (starts client now id ek offer) s = handle_start client now id ek offer s
step (joins client now id ek) s = handle_join client now id ek s
step (answers client id answer) s = handle_relay_answer client id answer s
step (ices client now id candidate) s = handle_ice client now id candidate s
step (aborts client id) s = handle_abort client id s
step (disconnects client) s = disconnect_sync client s
step (purges now) s = ([], record s { store = purge_expired now s.store })
