-- ===== src/Auth/Rotation.antt =====
-- Refresh tokens are used once, and a call that fails changes nothing.
use messenger_web_app.Prelude.{
  ℕ, ◌+◌, ◌≤◌, ◌<◌, ◌≡◌, ◌≢◌, refl, inl, inr, true, false, none, some, String, map, arith, All, In,
  All-In, nat_eq, string_eq, Bool-cases, Option-cases, ok, err, ap, nat_beq_iff, unauthorized,
}
use text.Mathlib.TextEquality.{eq_iff}
use messenger_web_app.Prelude.Store.{Table, rewrite}
use messenger_web_app.Prelude.Rows.{
  In-map, In_map, find_known, find_nothing, Keyed, Keyed-unique, Apart, Apart-unique,
}
use messenger_web_app.Auth.{
  User, Session, SessionMeta, TokenPair, Crypto, Db, refresh_token_expiry_ms,
  access_token_expiry_ms, user_has_id, has_token, session_has_id, or_unknown,
}
use messenger_web_app.Auth.Tokens.{payload_of, update_sessions, rotated, rotate_session}
use messenger_web_app.Auth.Access.{refresh}

abbrev pub session_id : Session → ℕ
session_id s = s.id

abbrev pub token_of : Session → String
token_of s = s.refresh_token

module _ {U S : Type 0} (users : Table User U) (sessions : Table Session S) (c : Crypto) where
  -- What a refresh that succeeds has found, and what it leaves behind.
  record Refreshed (token : String) (meta : SessionMeta) (raw : String) (now : ℕ) (d : Db U S)
      (t : TokenPair) (d' : Db U S) : Type 0 where
    session : Session
    owner : User
    current : Session
    found : sessions.find_first (has_token (c.hash_token token)) d.sessions ≡ some session
    not_expired : now ≤ session.expires_at
    owned : users.find_first (user_has_id session.user_id) d.users ≡ some owner
    held : sessions.find_first (session_has_id session.id) d.sessions ≡ some current
    gives : t.refresh_token ≡ raw
    leaves :
        d'
        ≡ update_sessions users sessions c
            (session_has_id session.id)
            (rotated
              (c.hash_token raw)
              (some current.refresh_token)
              (or_unknown meta.ip)
              (now + refresh_token_expiry_ms))
            d

  refresh-Refreshed :
      (token : String) (meta : SessionMeta) (raw : String) (now : ℕ) (d : Db U S) (t : TokenPair)
      → (refresh users sessions c token meta raw now d).0 ≡ ok t
      → Refreshed token meta raw now d t (refresh users sessions c token meta raw now d).1
  unfolding refresh rotate_session
  refresh-Refreshed token meta raw now d t h =
      elim (Option-cases (sessions.find_first (has_token (c.hash_token token)) d.sessions)) [
        | inl e ↦ absurd (ground arith)
        | inr (s, e) ↦ elim (Option-cases (users.find_first (user_has_id s.user_id) d.users)) [
          | inl f ↦ absurd (ground arith)
          | inr (u, f) ↦
              elim (Option-cases (sessions.find_first (session_has_id s.id) d.sessions)) [
                | inl g ↦ absurd (ground arith)
                | inr (cur, g) ↦ record {
                  session = s;
                  owner = u;
                  current = cur;
                  found = e;
                  not_expired = ground arith;
                  owned = f;
                  held = g;
                  gives = ground arith;
                  leaves = ground arith;
                }
              ]
        ]
      ]

  -- The schema's constraints on the sessions: ids and tokens are unique. And a token that is drawn is
  -- new: no session has its hash.
  pub record IsFresh (raw : String) (d : Db U S) : Type 0 where
    pub keyed : Keyed session_id (sessions.next_id d.sessions) (sessions.rows d.sessions)
    pub apart : Apart token_of (sessions.rows d.sessions)
    pub unused : All (λ s. s.refresh_token ≢ c.hash_token raw) (sessions.rows d.sessions)

  module _ (token : String) (meta : SessionMeta) (raw : String) (now : ℕ) (d : Db U S)
      (t : TokenPair) (i : IsFresh raw d)
      (done : (refresh users sessions c token meta raw now d).0 ≡ ok t) where
    after_refresh : Db U S
    after_refresh = (refresh users sessions c token meta raw now d).1

    old_session : Session
    old_session = (refresh-Refreshed token meta raw now d t done).session

    turn : Session → Session
    turn =
        let r = refresh-Refreshed token meta raw now d t done in
        rewrite (session_has_id r.session.id) (
          rotated (c.hash_token raw) (some r.current.refresh_token) (or_unknown meta.ip)
            (now + refresh_token_expiry_ms))

    rows_after : sessions.rows after_refresh.sessions ≡ map turn (sessions.rows d.sessions)
    unfolding after_refresh turn
    rows_after =
        let r = refresh-Refreshed token meta raw now d t done in
        rw (ap (λ (e : Db U S). sessions.rows e.sessions) r.leaves)
          (sessions.rows-update_where _ _ d.sessions)

    old_listed :
        In old_session (sessions.rows d.sessions) × (old_session.refresh_token ≡ c.hash_token token)
    unfolding old_session
    old_listed =
        let r = refresh-Refreshed token meta raw now d t done in
        let (hit, stands) =
          rw r.found at (sessions.find_first_lem (has_token (c.hash_token token)) d.sessions) in
        (stands, (eq_iff _ _).0 hit)

    turn_old :
        (z : Session)
        → session_has_id old_session.id z ≡ true
        → ((turn z).refresh_token ≡ c.hash_token raw)
          × ((turn z).id ≡ old_session.id)
          × ((turn z).user_id ≡ z.user_id)
          × ((turn z).expires_at ≡ now + refresh_token_expiry_ms)
    unfolding turn old_session
    turn_old z h = ground arith

    turn_other : (z : Session) → session_has_id old_session.id z ≡ false → turn z ≡ z
    unfolding turn old_session
    turn_other z h = ground arith

    old_token_gone :
        (y : Session)
        → In y (sessions.rows after_refresh.sessions)
        → has_token (c.hash_token token) y ≡ false
    old_token_gone y j =
        let rows = sessions.rows d.sessions in
        let (z, k, e) = In-map turn y rows (rw rows_after at j) in
        let (stands, held) = old_listed in
        let new =
          All-In (λ s. s.refresh_token ≢ c.hash_token raw) old_session rows i.unused stands in
        elim (Bool-cases (session_has_id old_session.id z)) [
          | inl same ↦
              let moved = (turn_old z same).0 in
              ground (arith, eq_iff y.refresh_token (c.hash_token token))
          | inr other ↦
              let kept = turn_other z other in
              let one = Apart-unique token_of z old_session rows i.apart k stands in
              ground (
                arith,
                eq_iff y.refresh_token (c.hash_token token),
                nat_beq_iff z.id old_session.id,
              )
        ]

    -- The rotated session is the one that the new token finds.
    new_token_row :
        (y : Session)
        → In y (sessions.rows after_refresh.sessions)
        → has_token (c.hash_token raw) y ≡ true
        → (y.user_id ≡ old_session.user_id) × (y.expires_at ≡ now + refresh_token_expiry_ms)
    new_token_row y j hit =
        let rows = sessions.rows d.sessions in
        let (z, k, e) = In-map turn y rows (rw rows_after at j) in
        let stands = old_listed.0 in
        elim (Bool-cases (session_has_id old_session.id z)) [
          | inl same ↦
              let (_, _, user, expires) = turn_old z same in
              let one =
                Keyed-unique session_id (sessions.next_id d.sessions) z old_session rows i.keyed k
                  stands (ground arith) in
              (ground arith, ground arith)
          | inr other ↦
              let kept = turn_other z other in
              let new = All-In (λ s. s.refresh_token ≢ c.hash_token raw) z rows i.unused k in
              absurd (ground (arith, eq_iff y.refresh_token (c.hash_token raw)))
        ]

    new_token_there :
        (y : Session) × (sessions.find_first (has_token (c.hash_token raw)) after_refresh.sessions
          ≡ some y)
        × In y (sessions.rows after_refresh.sessions)
        × (has_token (c.hash_token raw) y ≡ true)
    new_token_there =
        let stands = old_listed.0 in
        find_known sessions (has_token (c.hash_token raw)) (turn old_session) after_refresh.sessions
          (rw rows_after (In_map turn old_session (sessions.rows d.sessions) stands))
          ((eq_iff _ _).1 ((turn_old old_session (ground arith)).0))

  refresh_unknown :
      (token : String) (meta : SessionMeta) (raw : String) (now : ℕ) (d : Db U S)
      → sessions.find_first (has_token (c.hash_token token)) d.sessions ≡ none
      → refresh users sessions c token meta raw now d
        ≡ (err (unauthorized "Invalid or expired refresh token"), d)
  unfolding refresh
  refresh_unknown token meta raw now d e = ground arith

  refresh_known :
      (token : String) (meta : SessionMeta) (raw : String) (now : ℕ) (d : Db U S) {s : Session}
      {cur : Session} {u : User}
      → sessions.find_first (has_token (c.hash_token token)) d.sessions ≡ some s
      → now ≤ s.expires_at
      → users.find_first (user_has_id s.user_id) d.users ≡ some u
      → sessions.find_first (session_has_id s.id) d.sessions ≡ some cur
      → (refresh users sessions c token meta raw now d).0
        ≡ ok (record {
          access_token = c.sign (payload_of u) (now + access_token_expiry_ms);
          refresh_token = raw;
        })
  unfolding refresh rotate_session
  refresh_known token meta raw now d e h f g = ground arith

  -- The token of a session that has expired is refused, and the session stays: the transaction that
  -- deletes it is rolled back by the exception.
  pub refresh_expired :
      (token : String) (meta : SessionMeta) (raw : String) (now : ℕ) (d : Db U S) (s : Session)
      → sessions.find_first (has_token (c.hash_token token)) d.sessions ≡ some s
      → s.expires_at < now
      → refresh users sessions c token meta raw now d
        ≡ (err (unauthorized "Refresh token expired, please log in again"), d)
  unfolding refresh
  refresh_expired token meta raw now d s e h = ground arith

  -- A refresh token is good for one use. Where session ids and tokens are unique and the token that is
  -- drawn is new: once a token has been exchanged, presenting it again is refused, and changes
  -- nothing.
  pub refresh_twice :
      (token : String) (meta : SessionMeta) (raw : String) (now : ℕ) (meta' : SessionMeta)
      (raw' : String) (later : ℕ) (d : Db U S) (t : TokenPair)
      → IsFresh raw d
      → (refresh users sessions c token meta raw now d).0 ≡ ok t
      → refresh users sessions c token meta' raw' later
          (refresh users sessions c token meta raw now d).1
        ≡ (
          err (unauthorized "Invalid or expired refresh token"),
          (refresh users sessions c token meta raw now d).1,
        )
  unfolding after_refresh
  refresh_twice token meta raw now meta' raw' later d t i done =
      let gone =
        find_nothing sessions (has_token (c.hash_token token))
          (after_refresh token meta raw now d t i done).sessions
          (old_token_gone token meta raw now d t i done) in
      refresh_unknown token meta' raw' later _ gone

  -- The token that a refresh has handed out is good for seven days. Where session ids and tokens are
  -- unique and that token was new: presented until then, it is exchanged in turn for the token drawn
  -- then.
  pub refresh_next :
      (token : String) (meta : SessionMeta) (raw : String) (now : ℕ) (meta' : SessionMeta)
      (raw' : String) (later : ℕ) (d : Db U S) (t : TokenPair)
      → IsFresh raw d
      → (refresh users sessions c token meta raw now d).0 ≡ ok t
      → later ≤ now + refresh_token_expiry_ms
      → (t' : TokenPair) × ((refresh users sessions c t.refresh_token meta' raw' later
            (refresh users sessions c token meta raw now d).1).0
          ≡ ok t')
        × (t'.refresh_token ≡ raw')
  unfolding after_refresh old_session
  refresh_next token meta raw now meta' raw' later d t i done h =
      let r = refresh-Refreshed token meta raw now d t done in
      let d' = after_refresh token meta raw now d t i done in
      let (y, e, j, hit) = new_token_there token meta raw now d t i done in
      let (user, expires) = new_token_row token meta raw now d t i done y j hit in
      let (cur, g, _, _) =
        find_known sessions (session_has_id y.id) y d'.sessions j (ground arith) in
      let same_users = ap (λ (x : Db U S). x.users) r.leaves in
      let owned : users.find_first (user_has_id y.user_id) d'.users ≡ some r.owner =
        rw (user, same_users) r.owned in
      let next : TokenPair = record {
        access_token = c.sign (payload_of r.owner) (later + access_token_expiry_ms);
        refresh_token = raw';
      } in
      (next, rw r.gives (refresh_known raw meta' raw' later d' e (omega arith) owned g), refl)
