-- ===== src/DeviceSync/Steps.antt =====
-- What holds of the sessions after any event of device sync, from its four operations on them.
use messenger_web_app.Prelude.{
  ℕ, inl, inr, String, List, ◌==◌, nat_eq, arith, Bool-cases, Option-cases,
}
use messenger_web_app.RateLimit.{is_allowed}
use messenger_web_app.DeviceSync.{
  Store, get_session, get_session_by_socket, delete_session, purge_expired,
}
use messenger_web_app.DeviceSync.Handlers.{
  Client, Out, State, Event, starts, joins, answers, ices, aborts, disconnects, purges, step,
  start_allowed, join_allowed, limited, handle_start, handle_join, handle_relay_answer, handle_ice,
  handle_abort, give_up, disconnect_sync, rate_limit,
}

limited_preserves :
    (P : Store → Type 0) (client : Client) (event : String) (now : ℕ)
    → (handler : Store → List Out × Store) → ((t : Store) → P t → P (handler t).1)
    → (s : State) → P s.store
    → P (limited client event now handler s).1.store
unfolding limited rate_limit
limited_preserves P client event now handler h s a = elim (Bool-cases (client.user == 0)) [
  | inl u ↦ ground (arith, u, a)
  | inr u ↦ elim (Bool-cases (is_allowed s.limiter now client.user).0) [
    | inl p ↦ let b = h s.store a in ground (arith, u, p, b)
    | inr p ↦ ground (arith, u, p, a)
  ]
]

-- `A` says which events are meant.
pub record Preserves (P : Store → Type 0) (A : Event → Type 0) : Type 0 where
  pub start :
      (client : Client) (now : ℕ) (id ek offer : String) (t : Store)
      → A (starts client now id ek offer)
      → P t
      → P (start_allowed client now id ek offer t).1
  pub join :
      (client : Client) (now : ℕ) (id ek : String) (t : Store)
      → A (joins client now id ek)
      → P t
      → P (join_allowed client now id ek t).1
  pub delete : (id : String) (t : Store) → P t → P (delete_session id t)
  pub purge : (now : ℕ) (t : Store) → P t → P (purge_expired now t)

pub step_preserves :
    (P : Store → Type 0) (A : Event → Type 0)
    → Preserves P A
    → (e : Event) (s : State) → A e
    → P s.store
    → P (step e s).1.store
unfolding step handle_start handle_join handle_relay_answer handle_ice handle_abort disconnect_sync
    give_up
step_preserves P A o (starts client now id ek offer) s h a =
    limited_preserves P client "deviceSyncStart" now (start_allowed client now id ek offer)
      (λ t b. o.start client now id ek offer t h b) s a
step_preserves P A o (joins client now id ek) s h a =
    limited_preserves P client "deviceSyncJoin" now (join_allowed client now id ek)
      (λ t b. o.join client now id ek t h b) s a
step_preserves P A o (answers client id answer) s h a =
    elim (Option-cases (get_session id s.store)) [
      | inl e ↦ ground (arith, e, a)
      | inr (x, e) ↦ ground (arith, e, a)
    ]
step_preserves P A o (ices client now id candidate) s h a =
    elim (Option-cases (get_session id s.store)) [
      | inl e ↦ ground (arith, e, a)
      | inr (x, e) ↦ ground (arith, e, a)
    ]
step_preserves P A o (aborts client id) s h a =
    let b = o.delete id s.store a in
    elim (Option-cases (get_session id s.store)) [
      | inl e ↦ ground (arith, e, a)
      | inr (x, e) ↦ ground (arith, e, a, b)
    ]
step_preserves P A o (disconnects client) s h a =
    elim (Option-cases (get_session_by_socket client.id s.store)) [
      | inl e ↦ ground (arith, e, a)
      | inr (x, e) ↦ let b = o.delete x.0 s.store a in ground (arith, e, a, b)
    ]
step_preserves P A o (purges now) s h a = o.purge now s.store a
