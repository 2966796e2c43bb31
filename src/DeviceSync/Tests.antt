-- ===== src/DeviceSync/Tests.antt =====
-- The handlers of device sync on two sockets of one user and a socket of another.
use messenger_web_app.Prelude.{
  ℕ, ◌≡◌, ◌≢◌, refl, inl, inr, true, some, String, [], ◌∷◌, arith, All, subst, ◌==◌, string_eq,
  if◌then◌else◌,
}
use text.Mathlib.TextEquality.{eq_iff}
use messenger_web_app.RateLimit.{is_allowed}
use messenger_web_app.DeviceSync.{
  SyncSession, Store, get_session, set_session, track_socket, update_session,
}
use messenger_web_app.DeviceSync.Handlers.{
  Out, sync_offer, Client, to_self, sync_error, State, starts, joins, step, new_sync, with_target,
  is_session_id, start_allowed, join_session, join_allowed, limited, handle_start, handle_join,
  rate_limit,
}
use messenger_web_app.DeviceSync.Ownership.{AllOwned, step-AllOwned}
use messenger_web_app.DeviceSync.Tracking.{IsTracked, step-IsTracked}
use messenger_web_app.DeviceSync.Reach.{StaysWith, step-StaysWith}
use messenger_web_app.DeviceSync.Disclosure.{IsDisclosed, offer-IsDisclosed}

abbrev laptop : Client
laptop = record { id = "a"; user = 7 }

abbrev phone : Client
phone = record { id = "b"; user = 7 }

abbrev stranger : Client
stranger = record { id = "c"; user = 8 }

abbrev owner : String → ℕ
owner socket = if socket == "c" then 8 else 7

abbrev session_id : String
session_id = "00112233445566778899aabbccddeeff"

abbrev nothing : Store
nothing = record { mem = []; skt_mem = [] }

abbrev at_first : State
at_first = record { store = nothing; limiter = record { limit = 10; ttl_ms = 60000; windows = [] } }

abbrev waiting : SyncSession
waiting = new_sync laptop 1000 "key" "offer"

abbrev started : State
started = record at_first {
  store = track_socket "a" session_id (set_session session_id waiting nothing);
}

abbrev joined : State
joined = record at_first {
  store =
      track_socket "b" session_id (set_session session_id (with_target "b" waiting) started.store);
}

-- The session id is of 32 hex digits.
is_id : is_session_id session_id ≡ true
unfolding is_session_id
is_id = refl

-- The start and the join give the states above, up to the limiter.
start_example :
    (step (starts laptop 1000 session_id "key" "offer") at_first).1.store ≡ started.store
unfolding step handle_start limited start_allowed rate_limit is_session_id is_allowed
start_example = refl

join_example : (step (joins phone 2000 session_id "key_b") started).1.store ≡ joined.store
unfolding step handle_join limited join_allowed join_session update_session rate_limit is_allowed
join_example = refl

-- A stranger learns nothing of the session.
stranger_example :
    (join_allowed stranger 2000 session_id "key_c" started.store).0
    ≡ (to_self (sync_error "not_found") ∷ [])
unfolding join_allowed
stranger_example = refl

two_sockets : phone.id ≢ laptop.id
two_sockets e = ground (arith, (eq_iff "b" "a").1 e)

nothing-AllOwned : AllOwned owner nothing
nothing-AllOwned = record { owned = λ id x e. ground (arith, e) }

nothing-IsTracked : IsTracked nothing
nothing-IsTracked = record { distinct = tt; tracked = λ k j e. ground (arith, e) }

started-AllOwned : AllOwned owner started.store
started-AllOwned = subst (AllOwned owner) start_example (
    step-AllOwned owner (starts laptop 1000 session_id "key" "offer") at_first refl
      nothing-AllOwned)

started-IsTracked : IsTracked started.store
started-IsTracked =
    subst IsTracked start_example
      (step-IsTracked (starts laptop 1000 session_id "key" "offer") at_first nothing-IsTracked)

step-AllOwned_example : AllOwned owner (step (joins phone 2000 session_id "key_b") started).1.store
step-AllOwned_example =
    step-AllOwned owner (joins phone 2000 session_id "key_b") started refl started-AllOwned

step-StaysWith_example :
    All (StaysWith owner 7) (step (joins phone 2000 session_id "key_b") started).0
step-StaysWith_example =
    step-StaysWith owner (joins phone 2000 session_id "key_b") started refl started-AllOwned
      started-IsTracked

offer-IsDisclosed_example :
    (◌≡◌ {A = Out}
      (to_self (sync_offer session_id (some "key") (some "offer")))
      (to_self (sync_offer session_id (some "key") (some "offer"))))
    × ((client : Client) × (now : ℕ) × (ek : String) × (x : SyncSession) × (joins phone 2000
            session_id "key_b"
          ≡ joins client now session_id ek)
        × (get_session session_id started.store ≡ some x)
        × IsDisclosed client now (some "key") (some "offer") x)
unfolding step handle_join limited join_allowed join_session rate_limit is_allowed
offer-IsDisclosed_example =
    offer-IsDisclosed (joins phone 2000 session_id "key_b")
      (to_self (sync_offer session_id (some "key") (some "offer"))) session_id (some "key")
      (some "offer") started (inr (inl refl)) refl
