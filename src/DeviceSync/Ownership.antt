-- ===== src/DeviceSync/Ownership.antt =====
-- Whose sockets a session joins: both are of the user that the session belongs to, and once the
-- second has joined, the offer is no longer kept.
use messenger_web_app.Prelude.{
  ℕ, ◌≡◌, ◌≢◌, refl, sym, ◌∙◌, inl, inr, true, false, Option, none, some, String, [], ◌∷◌, leb,
  ◌==◌, nat_eq, string_eq, if◌then◌else◌, arith, Map, lookup, lookup-insert, lookup-erase,
  Bool-cases, Option-cases, nat_beq_iff, subst,
}
use text.Mathlib.TextEquality.{eq_iff}
use messenger_web_app.DeviceSync.{
  SyncSession, Store, get_session, set_session, update_session, track_socket, drop_session,
  delete_session, purge_entries, purge_expired,
}
use messenger_web_app.DeviceSync.Handlers.{
  Client, State, Event, starts, joins, answers, ices, aborts, disconnects, purges, step, new_sync,
  with_target, start_allowed, join_session, join_allowed,
}
use messenger_web_app.DeviceSync.Steps.{step_preserves}

-- `owner` says whose connection a socket is.
module _ (owner : String → ℕ) where
  abbrev pub IsJoined : SyncSession → Option String → Type 0
  IsJoined x none = Unit
  IsJoined x (some t) =
      (owner t ≡ x.user_id) × (t ≢ x.source_socket_id) × (x.ek_source ≡ none) × (x.sdp_offer ≡ none)

  pub record IsOwned (x : SyncSession) : Type 0 where
    pub source : owner x.source_socket_id ≡ x.user_id
    pub target : IsJoined x x.target_socket_id

  pub record AllOwned (s : Store) : Type 0 where
    pub owned : (id : String) (x : SyncSession) → lookup id s.mem ≡ some x → IsOwned x

  set-AllOwned :
      (id : String) (x : SyncSession) (s : Store)
      → IsOwned x
      → AllOwned s
      → AllOwned (set_session id x s)
  set-AllOwned id x s o a = record {
    owned = λ j y e. elim (Bool-cases (id == j)) [
      | inl same ↦
          let e' : some x ≡ some y = ground (arith, lookup-insert id j x s.mem) in
          let one : x ≡ y = cc in subst IsOwned one o
      | inr other ↦ a.owned j y (ground (arith, lookup-insert id j x s.mem))
    ];
  }

  track-AllOwned :
      (socket id : String) (s : Store) → AllOwned s → AllOwned (track_socket socket id s)
  track-AllOwned socket id s a = record { owned = λ j y e. a.owned j y e }

  drop-AllOwned :
      (id : String) (x : SyncSession) (s : Store) → AllOwned s → AllOwned (drop_session id x s)
  drop-AllOwned id x s a = record {
    owned = λ j y e. a.owned j y (ground (arith, lookup-erase id j s.mem));
  }

  delete-AllOwned : (id : String) (s : Store) → AllOwned s → AllOwned (delete_session id s)
  unfolding delete_session
  delete-AllOwned id s a = elim (Option-cases (get_session id s)) [
    | inl e ↦ rw (e, delete_session) a
    | inr (x, e) ↦ rw (e, delete_session) (drop-AllOwned id x s a)
  ]

  purge_entries-AllOwned :
      (now : ℕ) (m : Map String SyncSession) (s : Store)
      → AllOwned s
      → AllOwned (purge_entries now m s)
  unfolding purge_entries
  purge_entries-AllOwned now [] s a = a
  purge_entries-AllOwned now ((id, x) ∷ m) s a =
      purge_entries-AllOwned now m (if leb x.expires_at now then drop_session id x s else s)
        (ground (arith, a, drop-AllOwned id x s a))

  start-AllOwned :
      (client : Client) (now : ℕ) (id ek offer : String) (s : Store)
      → owner client.id ≡ client.user
      → AllOwned s
      → AllOwned (start_allowed client now id ek offer s).1
  unfolding start_allowed
  start-AllOwned client now id ek offer s h a =
      let x = new_sync client now ek offer in
      ground (
        arith,
        a,
        track-AllOwned client.id id _ (set-AllOwned id x s (record { source = h; target = tt }) a),
      )

  with_target-IsOwned :
      (client : Client) (x : SyncSession)
      → owner client.id ≡ client.user
      → (x.user_id == client.user) ≡ true
      → (x.source_socket_id == client.id) ≡ false
      → IsOwned x
      → IsOwned (with_target client.id x)
  with_target-IsOwned client x h u n o = record {
    source = o.source;
    target = (
      h ∙ sym ((nat_beq_iff x.user_id client.user).0 u),
      (λ q. ground (arith, (eq_iff x.source_socket_id client.id).1 (sym q), n)),
      refl,
      refl,
    );
  }

  join-AllOwned :
      (client : Client) (now : ℕ) (id ek : String) (s : Store)
      → owner client.id ≡ client.user
      → AllOwned s
      → AllOwned (join_allowed client now id ek s).1
  unfolding join_allowed join_session update_session
  join-AllOwned client now id ek s h a = elim (Option-cases (get_session id s)) [
    | inl e ↦ rw (e, join_allowed) a
    | inr (x, e) ↦ elim (Bool-cases (x.user_id == client.user)) [
      | inr u ↦ ground (arith, a, e)
      | inl u ↦ elim (Bool-cases (x.source_socket_id == client.id)) [
        | inl n ↦ ground (arith, a, e)
        | inr n ↦
            let o = with_target-IsOwned client x h u n (a.owned id x e) in
            let b =
              track-AllOwned client.id id _ (set-AllOwned id (with_target client.id x) s o a) in
            ground (arith, a, e, b)
      ]
    ]
  ]

  -- The client of an event is the user that its socket belongs to.
  abbrev pub IsAuthentic : Event → Type 0
  IsAuthentic (starts client _ _ _ _) = owner client.id ≡ client.user
  IsAuthentic (joins client _ _ _) = owner client.id ≡ client.user
  IsAuthentic (answers client _ _) = owner client.id ≡ client.user
  IsAuthentic (ices client _ _ _) = owner client.id ≡ client.user
  IsAuthentic (aborts client _) = owner client.id ≡ client.user
  IsAuthentic (disconnects client) = owner client.id ≡ client.user
  IsAuthentic (purges _) = Unit

  -- Where the client of an event is the user of its socket, every event keeps this: the two sockets
  -- of a session are different and of its user, and once both have joined, its key and its offer are
  -- no longer kept.
  pub step-AllOwned :
      (e : Event) (s : State) → IsAuthentic e → AllOwned s.store → AllOwned (step e s).1.store
  unfolding purge_expired
  step-AllOwned e s h a =
      step_preserves AllOwned IsAuthentic
        (record {
          start = λ client now id ek offer t h. start-AllOwned client now id ek offer t h;
          join = λ client now id ek t h. join-AllOwned client now id ek t h;
          delete = delete-AllOwned;
          purge = λ now t. purge_entries-AllOwned now t.mem t;
        })
        e s h a
