-- ===== src/Auth/SessionLimit/Issue.antt =====
-- How many sessions a user has, through what gives and takes them: rotation, deletion, and the
-- issue of a new one, which first makes room for it.
use mathlib.Core.Option
use messenger_web_app.Prelude.{
  ℕ, ◌+◌, ◌≤◌, ◌<◌, ◌≡◌, refl, inl, inr, Bool, not, String, List, [], ◌∷◌, map, arith,
  if◌then◌else◌, count, ◌==◌, nat_eq, string_eq, Option-cases, ap, length, count-filter-le,
  count-append,
}
use messenger_web_app.Prelude.Store.{Table, rewrite}
use messenger_web_app.Prelude.Rows.{count-filter_lt, In-filter}
use messenger_web_app.Auth.{
  User, Session, SessionMeta, Crypto, Db, max_sessions, refresh_token_expiry_ms, belongs_to,
  session_has_id, or_unknown,
}
use messenger_web_app.Auth.Tokens.{
  delete_sessions, create_session, rotated, new_session, same_agent, rotate_session, drop_oldest,
  open_session, issue_tokens,
}

-- An update that leaves the owner of every session alone does not change how many a user has.
count-map_owner :
    (u : ℕ) (f : Session → Session) (ss : List Session)
    → ((s : Session) → (f s).user_id ≡ s.user_id)
    → count (belongs_to u) (map f ss) ≡ count (belongs_to u) ss
count-map_owner u f [] same = refl
count-map_owner u f (s ∷ ss) same = ground (arith, same s, count-map_owner u f ss same)

module _ {U S : Type 0} (users : Table User U) (sessions : Table Session S) (c : Crypto) where
  -- The number of sessions of a user.
  abbrev pub sessions_of : ℕ → Db U S → ℕ
  sessions_of u d = count (belongs_to u) (sessions.rows d.sessions)

  pub record IsLimited (d : Db U S) : Type 0 where
    pub at_most : (u : ℕ) → sessions_of u d ≤ max_sessions

  pub delete-le :
      (p : Session → Bool) (d : Db U S) (u : ℕ)
      → sessions_of u (delete_sessions users sessions c p d) ≤ sessions_of u d
  delete-le p d u =
      rw (sessions.rows-delete_where p d.sessions)
        (count-filter-le (belongs_to u) (λ r. not (p r)) (sessions.rows d.sessions))

  rotate-le :
      (id user : ℕ) (meta : SessionMeta) (raw : String) (now : ℕ) (d : Db U S) (u : ℕ)
      → sessions_of u (rotate_session users sessions c id user meta raw now d).1 ≤ sessions_of u d
  unfolding rotate_session
  rotate-le id user meta raw now d u =
      let previous =
        Option.map (λ (s : Session). s.refresh_token)
          (sessions.find_first (session_has_id id) d.sessions) in
      let new =
        rotated (c.hash_token raw) previous (or_unknown meta.ip) (now + refresh_token_expiry_ms) in
      ground (
        arith,
        sessions.rows-update_where (session_has_id id) new d.sessions,
        count-map_owner u (rewrite (session_has_id id) new) (sessions.rows d.sessions)
            (λ s. ground arith),
      )

  create-count :
      (user : ℕ) (hashed agent ip : String) (now : ℕ) (d : Db U S) (u : ℕ)
      → sessions_of u (create_session users sessions c (new_session user hashed agent ip now) d)
        ≡ sessions_of u d + (if user == u then 1 else 0)
  create-count user hashed agent ip now d u =
      let row = new_session user hashed agent ip now (sessions.next_id d.sessions) in
      ground (
        arith,
        sessions.rows-create (new_session user hashed agent ip now) d.sessions,
        count-append (belongs_to u) (sessions.rows d.sessions) (row ∷ []),
      )

  -- With room made there are fewer than `max_sessions` sessions of the user left, and nobody has more
  -- than before.
  drop_oldest_makes_room :
      (user : ℕ) (d : Db U S) (active : List Session)
      → sessions.find_sorted (λ s. s.created_at) (belongs_to user) d.sessions ≡ active
      → sessions_of user d ≤ max_sessions
      → (sessions_of user (drop_oldest users sessions c active d).1 < max_sessions)
        × ((u : ℕ) → sessions_of u (drop_oldest users sessions c active d).1 ≤ sessions_of u d)
  unfolding drop_oldest
  drop_oldest_makes_room user d [] e h =
      let all = sessions.find_sorted_lem (λ s. s.created_at) (belongs_to user) d.sessions in
      (omega (arith, all.same_length, ap length e), λ u. omega arith)
  drop_oldest_makes_room user d (oldest ∷ rest) e h =
      let all = sessions.find_sorted_lem (λ s. s.created_at) (belongs_to user) d.sessions in
      let held = rw e at all.no_others in
      let (stands, own) = In-filter (belongs_to user) oldest (sessions.rows d.sessions) held.0 in
      let fewer =
        count-filter_lt (λ (s : Session). s.id) (belongs_to user) oldest (sessions.rows d.sessions)
          stands (ground arith) in
      let gone = sessions.rows-delete_where (session_has_id oldest.id) d.sessions in
      let size = ap length e in
      let same = all.same_length in
      (
        ground (arith, gone, fewer, size, same),
        λ u. ground (arith, delete-le (session_has_id oldest.id) d u),
      )

  open-limit :
      (user : ℕ) (meta : SessionMeta) (raw : String) (now : ℕ) (d : Db U S)
      → IsLimited d
      → IsLimited (open_session users sessions c user meta raw now d).1
  unfolding open_session
  open-limit user meta raw now d l = record {
    at_most = λ u.
        let active = sessions.find_sorted (λ s. s.created_at) (belongs_to user) d.sessions in
        let room = drop_oldest_makes_room user d active refl (l.at_most user) in
        let d' = (drop_oldest users sessions c active d).1 in
        ground (
          arith,
          room.0,
          room.1 u,
          l.at_most u,
          create-count user (c.hash_token raw) (or_unknown meta.user_agent) (or_unknown meta.ip) now
              d' u,
        );
  }

  pub fewer-limit :
      (d e : Db U S) → ((u : ℕ) → sessions_of u e ≤ sessions_of u d) → IsLimited d → IsLimited e
  fewer-limit d e f l = record { at_most = λ u. omega (arith, f u, l.at_most u) }

  pub delete-limit :
      (p : Session → Bool) (d : Db U S)
      → IsLimited d
      → IsLimited (delete_sessions users sessions c p d)
  delete-limit p d l = fewer-limit d _ (delete-le p d) l

  pub rotate-limit :
      (id user : ℕ) (meta : SessionMeta) (raw : String) (now : ℕ) (d : Db U S)
      → IsLimited d
      → IsLimited (rotate_session users sessions c id user meta raw now d).1
  rotate-limit id user meta raw now d l = fewer-limit d _ (rotate-le id user meta raw now d) l

  pub issue-limit :
      (user : ℕ) (meta : SessionMeta) (raw : String) (now : ℕ) (d : Db U S)
      → IsLimited d
      → IsLimited (issue_tokens users sessions c user meta raw now d).1
  unfolding issue_tokens
  issue-limit user meta raw now d l =
      elim (Option-cases
        (sessions.find_first (same_agent user (or_unknown meta.user_agent)) d.sessions)) [
          | inl e ↦ rw (e, issue_tokens) (open-limit user meta raw now d l)
          | inr (s, e) ↦ rw (e, issue_tokens) (rotate-limit s.id user meta raw now d l)
        ]
