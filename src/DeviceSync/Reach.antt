-- ===== src/DeviceSync/Reach.antt =====
-- The events of device sync stay with the user who sends them.
use messenger_web_app.Prelude.{
  ℕ, ◌≡◌, sym, ◌∙◌, ap, inl, inr, true, some, String, List, [], ◌∷◌, ◌==◌, nat_eq, string_eq, arith,
  lookup, Bool-cases, Option-cases, subst, All,
}
use text.Mathlib.TextEquality.{eq_iff}
use messenger_web_app.RateLimit.{is_allowed}
use messenger_web_app.DeviceSync.{SyncSession, Store, get_session, get_session_by_socket}
use messenger_web_app.DeviceSync.Handlers.{
  Client, Message, Out, to_self, to_socket, joins_room, sync_ice, sync_aborted, State, Event,
  starts, joins, answers, ices, aborts, disconnects, purges, step, start_allowed, join_session,
  join_allowed, limited, handle_start, handle_join, handle_relay_answer, handle_ice, handle_abort,
  give_up, disconnect_sync, rate_limit, is_socket, peer_of, takes_part, send_peer, append_self,
}
use messenger_web_app.DeviceSync.Ownership.{AllOwned, IsOwned, IsJoined, IsAuthentic}
use messenger_web_app.DeviceSync.Tracking.{IsTracked, IsParty}

-- The user whose client an event comes from.
abbrev pub sender : Event → ℕ
sender (starts client _ _ _ _) = client.user
sender (joins client _ _ _) = client.user
sender (answers client _ _) = client.user
sender (ices client _ _ _) = client.user
sender (aborts client _) = client.user
sender (disconnects client) = client.user
sender (purges _) = 0

module _ (owner : String → ℕ) where
  -- What is emitted goes to the sender or to a socket of the user.
  abbrev pub StaysWith : ℕ → Out → Type 0
  StaysWith user (to_self _) = Unit
  StaysWith user (to_socket socket _) = owner socket ≡ user
  StaysWith user (joins_room _) = Unit

  limited-StaysWith :
      (client : Client) (event : String) (now : ℕ)
      → (handler : Store → List Out × Store) → (s : State)
      → All (StaysWith client.user) (handler s.store).0
      → All (StaysWith client.user) (limited client event now handler s).0
  unfolding limited rate_limit
  limited-StaysWith client event now handler s h = elim (Bool-cases (client.user == 0)) [
    | inl u ↦ ground (arith, u)
    | inr u ↦ elim (Bool-cases (is_allowed s.limiter now client.user).0) [
      | inl p ↦ ground (arith, u, p, h)
      | inr p ↦ ground (arith, u, p)
    ]
  ]

  -- A participant is of the user that the session belongs to.
  party_owner :
      (socket : String) (x : SyncSession)
      → IsOwned owner x
      → IsParty socket x
      → owner socket ≡ x.user_id
  party_owner socket x o (inl p) = subst (λ k. owner k ≡ x.user_id) p o.source
  party_owner socket x o (inr p) = (subst (λ t. IsJoined owner x t) p o.target).0

  peer-StaysWith :
      (client : Client) (m : Message) (x : SyncSession)
      → IsOwned owner x
      → owner client.id ≡ client.user
      → IsParty client.id x
      → All (StaysWith client.user) (send_peer (peer_of client x) m)
  peer-StaysWith client m x o h p =
      let u : x.user_id ≡ client.user = sym (party_owner client.id x o p) ∙ h in
      elim (Bool-cases (x.source_socket_id == client.id)) [
        | inr n ↦ ground (arith, n, o.source, u)
        | inl n ↦ elim (Option-cases x.target_socket_id) [
          | inl t ↦ ground (arith, n, t)
          | inr (k, t) ↦
              let v : owner k ≡ x.user_id = party_owner k x o (inr t) in ground (arith, n, t, u, v)
        ]
      ]

  takes_part-IsParty :
      (client : Client) (x : SyncSession) → takes_part client x ≡ true → IsParty client.id x
  takes_part-IsParty client x t = elim (Option-cases x.target_socket_id) [
    | inl n ↦ inl ((eq_iff x.source_socket_id client.id).0 (ground (arith, n)))
    | inr (k, n) ↦ elim (Bool-cases (x.source_socket_id == client.id)) [
      | inl e ↦ inl ((eq_iff x.source_socket_id client.id).0 e)
      | inr e ↦
          let q : k ≡ client.id = (eq_iff k client.id).0 (ground (arith, n, e)) in
          inr (n ∙ ap some q)
    ]
  ]

  join-StaysWith :
      (client : Client) (now : ℕ) (id ek : String) (s : Store)
      → AllOwned owner s
      → All (StaysWith client.user) (join_allowed client now id ek s).0
  unfolding join_allowed join_session
  join-StaysWith client now id ek s a = elim (Option-cases (get_session id s)) [
    | inl e ↦ ground (arith, e)
    | inr (x, e) ↦ let o = a.owned id x e in ground (arith, e, o.source)
  ]

  append_self-StaysWith :
      (user : ℕ) (os : List Out) (m : Message)
      → All (StaysWith user) os
      → All (StaysWith user) (append_self os m)
  append_self-StaysWith user [] m h = (tt, tt)
  append_self-StaysWith user (o ∷ os) m (p, h) = (p, append_self-StaysWith user os m h)

  -- In a state where the sockets of a session are of its user and the index names participants, all
  -- that an event of a client with its own socket emits goes to that client or to a socket of the
  -- same user.
  pub step-StaysWith :
      (e : Event) (s : State)
      → IsAuthentic owner e
      → AllOwned owner s.store
      → IsTracked s.store
      → All (StaysWith (sender e)) (step e s).0
  unfolding step handle_start handle_join handle_relay_answer handle_ice handle_abort
      disconnect_sync give_up start_allowed get_session_by_socket
  step-StaysWith (starts client now id ek offer) s h a t =
      limited-StaysWith client "deviceSyncStart" now (start_allowed client now id ek offer) s
        (ground (arith))
  step-StaysWith (joins client now id ek) s h a t =
      limited-StaysWith client "deviceSyncJoin" now (join_allowed client now id ek) s
        (join-StaysWith client now id ek s.store a)
  step-StaysWith (answers client id answer) s h a t = elim (Option-cases (get_session id s.store)) [
    | inl e ↦ ground (arith, e)
    | inr (x, e) ↦
        let o = a.owned id x e in
        elim (Bool-cases (is_socket x.target_socket_id client.id)) [
          | inr n ↦ ground (arith, e, n)
          | inl n ↦
              let p = takes_part-IsParty client x (ground (arith, n)) in
              let u = party_owner client.id x o p in ground (arith, e, n, o.source)
        ]
  ]
  step-StaysWith (ices client now id candidate) s h a t =
      elim (Option-cases (get_session id s.store)) [
        | inl e ↦ ground (arith, e)
        | inr (x, e) ↦ elim (Bool-cases (takes_part client x)) [
          | inr n ↦ ground (arith, e, n)
          | inl n ↦
              let p =
                peer-StaysWith client (sync_ice id candidate) x (a.owned id x e) h
                  (takes_part-IsParty client x n) in
              ground (arith, e, n, p)
        ]
      ]
  step-StaysWith (aborts client id) s h a t = elim (Option-cases (get_session id s.store)) [
    | inl e ↦ ground (arith, e)
    | inr (x, e) ↦ elim (Bool-cases (takes_part client x)) [
      | inr n ↦ ground (arith, e, n)
      | inl n ↦
          let p =
            peer-StaysWith client (sync_aborted id "peer_aborted") x (a.owned id x e) h
              (takes_part-IsParty client x n) in
          let q = append_self-StaysWith client.user _ (sync_aborted id "self_aborted") p in
          ground (arith, e, n, q)
    ]
  ]
  step-StaysWith (disconnects client) s h a t =
      elim (Option-cases (lookup client.id s.store.skt_mem)) [
        | inl e ↦ ground (arith, e)
        | inr (id, e) ↦
            let (x, f, p) = t.tracked client.id id e in
            let q =
              peer-StaysWith client (sync_aborted id "peer_disconnected") x (a.owned id x f) h p in
            ground (arith, e, f, q)
      ]
  step-StaysWith (purges now) s h a t = tt
