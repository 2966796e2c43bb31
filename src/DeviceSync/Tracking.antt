-- ===== src/DeviceSync/Tracking.antt =====
-- The index from sockets to sessions: a socket in it is one of the two of the session it names.
use messenger_web_app.Prelude.{
  ℕ, ◌≡◌, ◌≢◌, refl, sym, ◌∙◌, ap, ◌⊎◌, inl, inr, true, false, Option, none, some, String, [], ◌∷◌,
  leb, ◌==◌, nat_eq, string_eq, arith, Map, lookup, insert, lookup-insert, lookup-erase, Distinct,
  insert-Distinct, erase-Distinct, Bool-cases, Option-cases, subst,
}
use text.Mathlib.TextEquality.{eq_iff}
use messenger_web_app.DeviceSync.{
  SyncSession, Store, get_session, set_session, update_session, track_socket, drop_session,
  erase_some, delete_session, purge_entries, purge_expired,
}
use messenger_web_app.DeviceSync.Handlers.{
  Client, State, Event, step, new_sync, with_target, start_allowed, join_session, join_allowed,
}
use messenger_web_app.DeviceSync.Steps.{step_preserves}

abbrev pub IsParty : String → SyncSession → Type 0
IsParty socket x = (x.source_socket_id ≡ socket) ⊎ (x.target_socket_id ≡ some socket)

pub record IsTracked (s : Store) : Type 0 where
  pub distinct : Distinct s.mem
  pub tracked :
      (socket id : String)
      → lookup socket s.skt_mem ≡ some id
      → (x : SyncSession) × (lookup id s.mem ≡ some x) × IsParty socket x

-- A session is put in whose two sockets include those of the one before it.
keep_parties :
    (id : String) (x : SyncSession) (s : Store)
    → ((y : SyncSession) → lookup id s.mem ≡ some y → (k : String) → IsParty k y → IsParty k x)
    → IsTracked s
    → IsTracked (set_session id x s)
keep_parties id x s h a = record {
  distinct = insert-Distinct id x s.mem a.distinct;
  tracked = λ k j e.
      let (y, f, p) = a.tracked k j e in
      elim (Bool-cases (id == j)) [
        | inl same ↦
            let q : id ≡ j = (eq_iff id j).0 same in
            (
              x,
              ground (arith, lookup-insert id j x s.mem),
              h y (ap (λ i. lookup i s.mem) q ∙ f) k p,
            )
        | inr other ↦ (y, ground (arith, lookup-insert id j x s.mem), p)
      ];
}

track-IsTracked :
    (socket id : String) (x : SyncSession) (s : Store)
    → lookup id s.mem ≡ some x
    → IsParty socket x
    → IsTracked s
    → IsTracked (track_socket socket id s)
track-IsTracked socket id x s e p a = record {
  distinct = a.distinct;
  tracked = λ k j f. elim (Bool-cases (socket == k)) [
    | inl same ↦
        let q : socket ≡ k = (eq_iff socket k).0 same in
        let i : some id ≡ some j = ground (arith, lookup-insert socket k id s.skt_mem) in
        let i' : id ≡ j = cc in
        (x, subst (λ i. lookup i s.mem ≡ some x) i' e, subst (λ k. IsParty k x) q p)
    | inr other ↦ a.tracked k j (ground (arith, lookup-insert socket k id s.skt_mem))
  ];
}

lookup-erase_some :
    (k : String) (t : Option String) (m : Map String String) (j : String)
    → lookup k (erase_some t m) ≡ some j
    → (lookup k m ≡ some j) × (t ≢ some k)
lookup-erase_some k none m j e = (e, λ q. ground (arith, q))
lookup-erase_some k (some t) m j e = (
  ground (arith, lookup-erase t k m),
  λ q. let i : t ≡ k = cc in ground (arith, lookup-erase t k m, (eq_iff t k).1 i),
)

drop-IsTracked :
    (id : String) (x : SyncSession) (s : Store)
    → lookup id s.mem ≡ some x
    → IsTracked s
    → IsTracked (drop_session id x s)
drop-IsTracked id x s e a = record {
  distinct = erase-Distinct id s.mem a.distinct;
  tracked = λ k j f.
      let (g, n) = lookup-erase_some k x.target_socket_id _ j f in
      let o = lookup-erase x.source_socket_id k s.skt_mem in
      let g' : lookup k s.skt_mem ≡ some j = ground (arith) in
      let l : x.source_socket_id ≢ k = λ q. ground (arith, (eq_iff x.source_socket_id k).1 q) in
      let (y, h, p) = a.tracked k j g' in
      elim (Bool-cases (id == j)) [
        | inl same ↦
            let q : id ≡ j = (eq_iff id j).0 same in
            let i : some x ≡ some y = sym e ∙ ap (λ i. lookup i s.mem) q ∙ h in
            let i' : x ≡ y = cc in
            elim (subst (IsParty k) (sym i') p) [ inl u ↦ absurd (l u) | inr u ↦ absurd (n u) ]
        | inr other ↦ (y, ground (arith, lookup-erase id j s.mem), p)
      ];
}

delete-IsTracked : (id : String) (s : Store) → IsTracked s → IsTracked (delete_session id s)
unfolding delete_session
delete-IsTracked id s a = elim (Option-cases (get_session id s)) [
  | inl e ↦ rw (e, delete_session) a
  | inr (x, e) ↦ rw (e, delete_session) (drop-IsTracked id x s e a)
]

-- The entries that are left to look at are those of the store.
purge_entries-IsTracked :
    (now : ℕ) (m : Map String SyncSession) (s : Store)
    → Distinct m
    → ((j : String) (y : SyncSession) → lookup j m ≡ some y → lookup j s.mem ≡ some y)
    → IsTracked s
    → IsTracked (purge_entries now m s)
unfolding purge_entries
purge_entries-IsTracked now [] s d h a = a
purge_entries-IsTracked now ((id, x) ∷ m) s d h a =
    let i : (id == id) ≡ true = (eq_iff id id).1 refl in
    let e : lookup id s.mem ≡ some x = h id x (ground (arith)) in
    let tail : (j : String) (y : SyncSession)
        → lookup j m ≡ some y
        → ((id == j) ≡ false) × (lookup j s.mem ≡ some y) =
      λ j y f. elim (Bool-cases (id == j)) [
        | inl same ↦
            let q : id ≡ j = (eq_iff id j).0 same in
            let none_here : lookup j m ≡ none = subst (λ j. lookup j m ≡ none) q d.0 in
            ground (arith)
        | inr other ↦ (other, h j y (ground (arith)))
      ] in
    elim (Bool-cases (leb x.expires_at now)) [
      | inl old ↦ rw old (
          purge_entries-IsTracked now m (drop_session id x s) d.1
            (λ j y f. let (n, g) = tail j y f in ground (arith, lookup-erase id j s.mem))
            (drop-IsTracked id x s e a))
      | inr new ↦ rw new (purge_entries-IsTracked now m s d.1 (λ j y f. (tail j y f).1) a)
    ]

start-IsTracked :
    (client : Client) (now : ℕ) (id ek offer : String) (s : Store)
    → IsTracked s
    → IsTracked (start_allowed client now id ek offer s).1
unfolding start_allowed
start-IsTracked client now id ek offer s a =
    let x = new_sync client now ek offer in
    let i : (id == id) ≡ true = (eq_iff id id).1 refl in
    let e : lookup id (insert id x s.mem) ≡ some x = ground (arith, lookup-insert id id x s.mem) in
    let b : lookup id s.mem ≡ none → IsTracked (track_socket client.id id (set_session id x s)) =
      λ n.
        track-IsTracked client.id id x (set_session id x s) e (inl refl)
          (keep_parties id x s (λ y f. ground (arith)) a) in
    elim (Option-cases (lookup id s.mem)) [
      | inl n ↦ ground (arith, a, n, b n)
      | inr (y, f) ↦ ground (arith, a, f)
    ]

join-IsTracked :
    (client : Client) (now : ℕ) (id ek : String) (s : Store)
    → IsTracked s
    → IsTracked (join_allowed client now id ek s).1
unfolding join_allowed join_session update_session
join-IsTracked client now id ek s a = elim (Option-cases (get_session id s)) [
  | inl e ↦ rw (e, join_allowed) a
  | inr (x, e) ↦
      let y = with_target client.id x in
      let i : (id == id) ≡ true = (eq_iff id id).1 refl in
      let f : lookup id (insert id y s.mem) ≡ some y =
        ground (arith, lookup-insert id id y s.mem) in
      let keep : x.target_socket_id ≡ none
          → (z : SyncSession) → lookup id s.mem ≡ some z
          → (k : String) → IsParty k z
          → IsParty k y =
        λ n z g k p.
          let j : some x ≡ some z = sym e ∙ g in
          let j' : x ≡ z = cc in
          elim (subst (IsParty k) (sym j') p) [ inl u ↦ inl u | inr u ↦ ground (arith) ] in
      let b : x.target_socket_id ≡ none
          → IsTracked (track_socket client.id id (set_session id y s)) =
        λ n.
          track-IsTracked client.id id y (set_session id y s) f (inr refl)
            (keep_parties id y s (keep n) a) in
      elim (Option-cases x.target_socket_id) [
        | inl n ↦ let c = b n in ground (arith, a, e, n, c)
        | inr (t, n) ↦ ground (arith, a, e, n)
      ]
]

-- Every event keeps this: session ids are distinct, and a socket in the index is one of the two
-- sockets of a session that exists.
pub step-IsTracked : (e : Event) (s : State) → IsTracked s.store → IsTracked (step e s).1.store
unfolding purge_expired
step-IsTracked e s a =
    step_preserves IsTracked (λ e. Unit)
      (record {
        start = λ client now id ek offer t _. start-IsTracked client now id ek offer t;
        join = λ client now id ek t _. join-IsTracked client now id ek t;
        delete = delete-IsTracked;
        purge = λ now t a. purge_entries-IsTracked now t.mem t a.distinct (λ j y f. f) a;
      })
      e s tt a
