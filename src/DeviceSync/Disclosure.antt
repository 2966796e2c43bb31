-- ===== src/DeviceSync/Disclosure.antt =====
-- To whom the offer that a session keeps is disclosed, and how often.
use messenger_web_app.Prelude.{
  ℕ, ◌<◌, ◌≡◌, ◌≢◌, refl, sym, ◌∙◌, ap, inl, inr, true, Option, none, some, String, List, ◌==◌,
  nat_eq, string_eq, arith, lookup-insert, Bool-cases, Option-cases, subst, In,
}
use text.Mathlib.TextEquality.{eq_iff}
use messenger_web_app.Prelude.Int.{ℤ}
use messenger_web_app.RateLimit.{is_allowed, retry_after}
use messenger_web_app.DeviceSync.{
  SyncSession, Store, get_session, update_session, get_session_by_socket,
}
use messenger_web_app.DeviceSync.Handlers.{
  Client, Out, to_self, to_socket, joins_room, sync_offer, rate_limited, State, Event, starts,
  joins, answers, ices, aborts, disconnects, purges, step, with_target, start_allowed, join_session,
  join_allowed, limited, handle_start, handle_join, handle_relay_answer, handle_ice, handle_abort,
  give_up, disconnect_sync, rate_limit, peer_of,
}

-- What holds of the session that a join discloses.
abbrev pub IsDisclosed : Client → ℕ → Option String → Option String → SyncSession → Type 0
IsDisclosed client now k o x =
    (now < x.expires_at)
    × (x.user_id ≡ client.user)
    × (x.source_socket_id ≢ client.id)
    × (x.target_socket_id ≡ none)
    × (x.ek_source ≡ k)
    × (x.sdp_offer ≡ o)

join_discloses :
    (client : Client) (now : ℕ) (i ek id : String) (k o : Option String) (s : Store)
    → In (to_self (sync_offer id k o)) (join_allowed client now i ek s).0
    → (x : SyncSession) × (id ≡ i) × (get_session i s ≡ some x) × IsDisclosed client now k o x
unfolding join_allowed join_session
join_discloses client now i ek id k o s h = elim (Option-cases (get_session i s)) [
  | inl e ↦ ground (arith, e, h)
  | inr (x, e) ↦ elim (Option-cases x.target_socket_id) [
    | inr (t, n) ↦ ground (arith, e, n, h)
    | inl n ↦
        let g : (id ≡ i) × IsDisclosed client now k o x =
          ground (arith, e, n, h, eq_iff x.source_socket_id client.id) in
        (x, g.0, e, g.1)
  ]
]

join_keeps :
    (client : Client) (now : ℕ) (i ek socket id : String) (k o : Option String) (s : Store)
    → ¬ In (to_socket socket (sync_offer id k o)) (join_allowed client now i ek s).0
unfolding join_allowed join_session
join_keeps client now i ek socket id k o s h = elim (Option-cases (get_session i s)) [
  | inl e ↦ ground (arith, e, h)
  | inr (x, e) ↦ elim (Option-cases x.target_socket_id) [
    | inr (t, n) ↦ ground (arith, e, n, h)
    | inl n ↦ ground (arith, e, n, h)
  ]
]

limited-In :
    (o : Out) (client : Client) (event : String) (now : ℕ)
    → (handler : Store → List Out × Store) → (s : State)
    → ((r : ℤ) → o ≢ to_self (rate_limited event r))
    → In o (limited client event now handler s).0
    → In o (handler s.store).0
      × ((limited client event now handler s).1.store ≡ (handler s.store).1)
unfolding limited rate_limit
limited-In o client event now handler s d h = elim (Bool-cases (client.user == 0)) [
  | inl u ↦ ground (arith, u, h)
  | inr u ↦ elim (Bool-cases (is_allowed s.limiter now client.user).0) [
    | inl p ↦ ground (arith, u, p, h)
    | inr p ↦
        ground
          (arith, u, p, h, d (retry_after (is_allowed s.limiter now client.user).1 now client.user))
  ]
]

offer_to_self :
    (e : Event) (id : String) (k o : Option String) (s : State)
    → In (to_self (sync_offer id k o)) (step e s).0
    → (client : Client) × (now : ℕ) × (ek : String) × (x : SyncSession) × (e
        ≡ joins client now id ek)
      × (get_session id s.store ≡ some x)
      × IsDisclosed client now k o x
unfolding step handle_start handle_join handle_relay_answer handle_ice handle_abort disconnect_sync
    give_up start_allowed
offer_to_self (starts client now i ek offer) id k o s h =
    let g =
      limited-In _ client "deviceSyncStart" now (start_allowed client now i ek offer) s
        (λ r q. ground (arith, q)) h in
    ground (arith, g.0)
offer_to_self (joins client now i ek) id k o s h =
    let g =
      limited-In _ client "deviceSyncJoin" now (join_allowed client now i ek) s
        (λ r q. ground (arith, q)) h in
    let (x, q, e, d) = join_discloses client now i ek id k o s.store g.0 in
    (
      client,
      now,
      ek,
      x,
      ap (λ i. joins client now i ek) (sym q),
      ap (λ i. get_session i s.store) q ∙ e,
      d,
    )
offer_to_self (answers client i answer) id k o s h = elim (Option-cases (get_session i s.store)) [
  | inl e ↦ ground (arith, e, h)
  | inr (x, e) ↦ ground (arith, e, h)
]
offer_to_self (ices client now i candidate) id k o s h =
    elim (Option-cases (get_session i s.store)) [
      | inl e ↦ ground (arith, e, h)
      | inr (x, e) ↦ ground (arith, e, h)
    ]
offer_to_self (aborts client i) id k o s h = elim (Option-cases (get_session i s.store)) [
  | inl e ↦ ground (arith, e, h)
  | inr (x, e) ↦ elim (Option-cases (peer_of client x)) [
    | inl n ↦ ground (arith, e, h, n)
    | inr (t, n) ↦ ground (arith, e, h, n)
  ]
]
offer_to_self (disconnects client) id k o s h =
    elim (Option-cases (get_session_by_socket client.id s.store)) [
      | inl e ↦ ground (arith, e, h)
      | inr ((i, x), e) ↦ elim (Option-cases (peer_of client x)) [
        | inl n ↦ ground (arith, e, h, n)
        | inr (t, n) ↦ ground (arith, e, h, n)
      ]
    ]
offer_to_self (purges now) id k o s h = absurd h

-- No event sends an offer to a socket other than its own client's.
no_offer_to_socket :
    (e : Event) (socket id : String) (k o : Option String) (s : State)
    → ¬ In (to_socket socket (sync_offer id k o)) (step e s).0
unfolding step handle_start handle_join handle_relay_answer handle_ice handle_abort disconnect_sync
    give_up start_allowed
no_offer_to_socket (starts client now i ek offer) socket id k o s h =
    let g =
      limited-In _ client "deviceSyncStart" now (start_allowed client now i ek offer) s
        (λ r q. ground (arith, q)) h in
    ground (arith, g.0)
no_offer_to_socket (joins client now i ek) socket id k o s h =
    let g =
      limited-In _ client "deviceSyncJoin" now (join_allowed client now i ek) s
        (λ r q. ground (arith, q)) h in
    join_keeps client now i ek socket id k o s.store g.0
no_offer_to_socket (answers client i answer) socket id k o s h =
    elim (Option-cases (get_session i s.store)) [
      | inl e ↦ ground (arith, e, h)
      | inr (x, e) ↦ ground (arith, e, h)
    ]
no_offer_to_socket (ices client now i candidate) socket id k o s h =
    elim (Option-cases (get_session i s.store)) [
      | inl e ↦ ground (arith, e, h)
      | inr (x, e) ↦ elim (Option-cases (peer_of client x)) [
        | inl n ↦ ground (arith, e, h, n)
        | inr (t, n) ↦ ground (arith, e, h, n)
      ]
    ]
no_offer_to_socket (aborts client i) socket id k o s h =
    elim (Option-cases (get_session i s.store)) [
      | inl e ↦ ground (arith, e, h)
      | inr (x, e) ↦ elim (Option-cases (peer_of client x)) [
        | inl n ↦ ground (arith, e, h, n)
        | inr (t, n) ↦ ground (arith, e, h, n)
      ]
    ]
no_offer_to_socket (disconnects client) socket id k o s h =
    elim (Option-cases (get_session_by_socket client.id s.store)) [
      | inl e ↦ ground (arith, e, h)
      | inr ((i, x), e) ↦ elim (Option-cases (peer_of client x)) [
        | inl n ↦ ground (arith, e, h, n)
        | inr (t, n) ↦ ground (arith, e, h, n)
      ]
    ]
no_offer_to_socket (purges now) socket id k o s h = absurd h

-- What goes out carries the offer of a session.
abbrev pub Carries : Out → String → Option String → Option String → Type 0
Carries (to_self m) id k o = m ≡ sync_offer id k o
Carries (to_socket socket m) id k o = m ≡ sync_offer id k o
Carries (joins_room room) id k o = ⊥

-- An event emits an offer, to whomever, only when the event is a join of the session by another socket
-- of its user, before it expires and before anyone has joined; the offer is the one that is kept, and
-- it goes to the client that joins and to no other socket.
pub offer-IsDisclosed :
    (e : Event) (out : Out) (id : String) (k o : Option String) (s : State)
    → In out (step e s).0
    → Carries out id k o
    → (out ≡ to_self (sync_offer id k o))
      × ((client : Client) × (now : ℕ) × (ek : String) × (x : SyncSession) × (e
            ≡ joins client now id ek)
          × (get_session id s.store ≡ some x)
          × IsDisclosed client now k o x)
offer-IsDisclosed e (to_self m) id k o s h c =
    let q : to_self m ≡ to_self (sync_offer id k o) = ap to_self c in
    (q, offer_to_self e id k o s (subst (λ (x : Out). In x (step e s).0) q h))
offer-IsDisclosed e (to_socket socket m) id k o s h c =
    let q : to_socket socket m ≡ to_socket socket (sync_offer id k o) = ap (to_socket socket) c in
    absurd (no_offer_to_socket e socket id k o s (subst (λ (x : Out). In x (step e s).0) q h))
offer-IsDisclosed e (joins_room room) id k o s h c = absurd c

join_takes :
    (client : Client) (now : ℕ) (ek id : String) (k o : Option String) (s : Store) (x : SyncSession)
    → get_session id s ≡ some x
    → IsDisclosed client now k o x
    → get_session id (join_allowed client now id ek s).1 ≡ some (with_target client.id x)
unfolding join_allowed join_session update_session
join_takes client now ek id k o s x e (l, u, n, t, _, _) =
    let i : (id == id) ≡ true = (eq_iff id id).1 refl in
    ground (
      arith,
      e,
      t,
      u,
      eq_iff x.source_socket_id client.id,
      lookup-insert id id (with_target client.id x) s.mem,
    )

-- An offer is disclosed at most once: when an event discloses that of a session, the event after it
-- does not disclose one of the same session.
pub offer_once :
    (e f : Event) (id : String) (k o k' o' : Option String) (s : State)
    → In (to_self (sync_offer id k o)) (step e s).0
    → ¬ In (to_self (sync_offer id k' o')) (step f (step e s).1).0
unfolding step handle_join
offer_once e f id k o k' o' s h h' =
    let (client, now, ek, x, q, g, d) = offer_to_self e id k o s h in
    let (_, _, _, y, _, g', (_, _, _, n, _, _)) = offer_to_self f id k' o' (step e s).1 h' in
    let h1 : In (to_self (sync_offer id k o)) (step (joins client now id ek) s).0 =
      subst (λ e. In (to_self (sync_offer id k o)) (step e s).0) q h in
    let p =
      limited-In _ client "deviceSyncJoin" now (join_allowed client now id ek) s
        (λ r q. ground (arith, q)) h1 in
    let t = join_takes client now ek id k o s.store x g d in
    let g1 : get_session id (step (joins client now id ek) s).1.store ≡ some y =
      subst (λ e. get_session id (step e s).1.store ≡ some y) q g' in
    let g2 : get_session id (join_allowed client now id ek s.store).1 ≡ some y =
      subst (λ (t : Store). get_session id t ≡ some y) p.1 g1 in
    let z : some (with_target client.id x) ≡ some y = sym t ∙ g2 in
    let z' : with_target client.id x ≡ y = cc in
    let z'' : some client.id ≡ none = ap (λ (y : SyncSession). y.target_socket_id) z' ∙ n in
    ground (arith, z'')
