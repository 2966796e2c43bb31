-- ===== src/Gateway.antt =====
-- server/src/chat/chat.gateway.ts: who is online, and the calls between users. The state is that of
-- the two maps of the gateway; a handler returns what it emits, in order, and the new state.
pub mod Presence
pub mod Calling
pub mod Messages
pub mod Scheduling
pub mod Rooms
mod Tests
use messenger_web_app.Prelude.{
  ℕ, Bool, true, false, not, ◌||◌, Option, none, some, String, List, [], ◌∷◌, ◌++◌, ◌==◌, nat_eq,
  string_eq, any, filter, map, if◌then◌else◌, is_some, Map, lookup, has, insert, erase,
}
use messenger_web_app.RateLimit.{Limiter}
use messenger_web_app.DeviceSync.Handlers.{Client, Out as Reply, rate_limit}

-- `activeUsers`: the ids of the sockets of each user, a `Set` as a list without repetition.
abbrev pub Active : Type 0
Active = Map ℕ (List String)

abbrev pub set_add : String → List String → List String
set_add socket xs = if any (λ x. x == socket) xs then xs else xs ++ socket ∷ []

abbrev pub set_delete : String → List String → List String
set_delete socket xs = filter (λ x. not (x == socket)) xs

abbrev pub or_empty_set : Option (List String) → List String
or_empty_set none = []
or_empty_set (some xs) = xs

abbrev pub is_singleton : List String → Bool
is_singleton (x ∷ []) = true
is_singleton _ = false

-- `userStatusChanged`, with the flag that the table of users is given along with it.
abbrev pub Status : Type 0
Status = ℕ × Bool

-- `handleConnection`, once the token has been verified.
unfoldable pub connect : ℕ → String → Active → List Status × Active
connect user socket active =
    let sockets = set_add socket (or_empty_set (lookup user active)) in
    (if is_singleton sockets then (user, true) ∷ [] else [], insert user sockets active)

abbrev pub is_empty : List String → Bool
is_empty [] = true
is_empty _ = false

-- The part of `handleDisconnect` about the sockets.
unfoldable pub disconnect : ℕ → String → Active → List Status × Active
disconnect user socket active = elim (lookup user active) [
  | none ↦ ([], active)
  | some sockets ↦
      if is_empty (set_delete socket sockets)
      then ((user, false) ∷ [], erase user active)
      else ([], insert user (set_delete socket sockets) active)
]

pub data CallType : Type 0 where
  audio video : CallType

pub record ActiveCall : Type 0 where
  pub caller_id : ℕ
  pub callee_id : ℕ
  pub conversation_id : ℕ
  pub call_type : CallType

-- The events that go to a user's room; the session descriptions and candidates are texts.
pub data CallEvent : Type 0 where
  incoming_call : String → ℕ → ℕ → String → Option String → CallType → CallEvent
  call_accepted : String → CallType → CallEvent
  call_rejected call_ended call_busy : String → CallEvent
  sdp_offer sdp_answer ice_candidate : String → String → CallEvent

pub data Out : Type 0 where
  reply : Reply → Out
  to_user : ℕ → CallEvent → Out

-- `activeCalls`
abbrev pub CallTable : Type 0
CallTable = Map String ActiveCall

-- `caller?.nickname ?? 'Unknown'` and `caller?.avatarUrl ?? null`
abbrev pub name_of : Option (String × Option String) → String
name_of none = "Unknown"
name_of (some (name, _)) = name

abbrev pub avatar_of : Option (String × Option String) → Option String
avatar_of none = none
avatar_of (some (_, avatar)) = avatar

-- What follows the rate limit in `handleCallUser`; `profile` is what `user.findUnique` finds.
unfoldable pub place_call :
    (ℕ → Option (String × Option String))
    → ℕ
    → String
    → ℕ
    → ℕ
    → CallType
    → CallTable
    → List Out × CallTable
place_call profile caller id conversation target kind calls =
    if has id calls then ([], calls) else (
      to_user target (
            incoming_call id conversation caller (name_of (profile caller))
              (avatar_of (profile caller)) kind)
          ∷ [],
      insert id
          (record {
            caller_id = caller;
            callee_id = target;
            conversation_id = conversation;
            call_type = kind;
          })
          calls,
    )

pub record State : Type 0 where
  pub calls : CallTable
  pub limiter : Limiter

unfoldable pub handle_call_user :
    (ℕ → Option (String × Option String))
    → Client
    → ℕ
    → String
    → ℕ
    → ℕ
    → CallType
    → State
    → List Out × State
unfolding place_call rate_limit
handle_call_user profile client now id conversation target kind s =
    let (refusal, passed, l) = rate_limit client s.limiter "callUser" now in
    if passed
    then (let (outs, calls) = place_call profile client.user id conversation target kind s.calls in
        (outs, record { calls = calls; limiter = l }))
    else (map reply refusal, record s { limiter = l })

unfoldable pub accept_call : String → CallType → CallTable → List Out × CallTable
accept_call id kind calls = elim (lookup id calls) [
  | none ↦ ([], calls)
  | some call ↦ (to_user call.caller_id (call_accepted id kind) ∷ [], calls)
]

-- `handleCallReject` and `handleCallBusy`, with the event that they emit.
unfoldable pub turn_down : (String → CallEvent) → String → CallTable → List Out × CallTable
turn_down event id calls = elim (lookup id calls) [
  | none ↦ ([], calls)
  | some call ↦ (to_user call.caller_id (event id) ∷ [], erase id calls)
]

abbrev pub reject_call : String → CallTable → List Out × CallTable
reject_call = turn_down call_rejected

abbrev pub busy_call : String → CallTable → List Out × CallTable
busy_call = turn_down call_busy

abbrev pub remote_of : ℕ → ActiveCall → ℕ
remote_of user call = if user == call.caller_id then call.callee_id else call.caller_id

unfoldable pub end_call : ℕ → String → CallTable → List Out × CallTable
end_call user id calls = elim (lookup id calls) [
  | none ↦ ([], calls)
  | some call ↦ (to_user (remote_of user call) (call_ended id) ∷ [], erase id calls)
]

-- `handleSdpOffer`, `handleSdpAnswer` and `handleIceCandidate`, with the event that they relay.
unfoldable pub relay : ℕ → String → CallEvent → CallTable → List Out × CallTable
relay user id event calls = elim (lookup id calls) [
  | none ↦ ([], calls)
  | some call ↦ (to_user (remote_of user call) event ∷ [], calls)
]

abbrev pub has_part : ℕ → ActiveCall → Bool
has_part user call = call.caller_id == user || call.callee_id == user

-- The loop of `handleDisconnect` over the calls.
unfoldable pub hang_up : ℕ → CallTable → CallTable → List Out × CallTable
hang_up user [] calls = ([], calls)
hang_up user ((id, call) ∷ rest) calls =
    let (outs, left) = hang_up user rest (if has_part user call then erase id calls else calls) in
    (
      if has_part user call
          then to_user (if call.caller_id == user then call.callee_id else call.caller_id)
              (call_ended id)
            ∷ outs
          else outs,
      left,
    )
