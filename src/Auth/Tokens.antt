-- ===== src/Auth/Tokens.antt =====
-- auth.service.ts, INTERNALS: issuing and rotating the tokens of a session. `raw` is what
-- `generateToken()` returns in the call, and `now` is the time of it.
use messenger_web_app.Prelude.{
  ℕ, ◌+◌, Bool, not, ◌&&◌, Option, none, some, String, ◌==◌, nat_eq, string_eq, List, [], ◌∷◌, leb,
  length, is_some, if◌then◌else◌, missing_record, Action, pure, gets, or_throw, ◌>>=◌, ◌>>◌,
  throw_if, modify,
}
use mathlib.Core.Option
use messenger_web_app.Prelude.Store.{Table}
use messenger_web_app.Auth.{
  User, Session, SessionMeta, JwtPayload, TokenPair, Crypto, Db, max_sessions,
  refresh_token_expiry_ms, access_token_expiry_ms, or_unknown, user_has_id, session_has_id,
  belongs_to,
}

abbrev pub payload_of : User → JwtPayload
payload_of u = record {
  sub = u.id;
  email = u.email;
  nickname = u.nickname;
  role = u.role;
  avatar_url = u.avatar_url;
}

abbrev pub same_agent : ℕ → String → Session → Bool
same_agent user agent s = s.user_id == user && s.user_agent == agent

-- The columns that `rotateSession` writes.
abbrev pub rotated : String → Option String → String → ℕ → Session → Session
rotated hashed previous ip expires s = record s {
  refresh_token = hashed;
  prev_refresh_token = previous;
  ip_address = ip;
  expires_at = expires;
}

abbrev pub new_session : ℕ → String → String → String → ℕ → ℕ → Session
new_session user hashed agent ip now id = record {
  id = id;
  user_id = user;
  refresh_token = hashed;
  user_agent = agent;
  ip_address = ip;
  expires_at = now + refresh_token_expiry_ms;
  created_at = now;
  prev_refresh_token = none;
}

module _ {U S : Type 0} (users : Table User U) (sessions : Table Session S) (c : Crypto) where
  abbrev pub update_sessions : (Session → Bool) → (Session → Session) → Db U S → Db U S
  update_sessions p f d = record d { sessions = sessions.update_where p f d.sessions }

  abbrev pub delete_sessions : (Session → Bool) → Db U S → Db U S
  delete_sessions p d = record d { sessions = sessions.delete_where p d.sessions }

  abbrev pub create_session : (ℕ → Session) → Db U S → Db U S
  create_session f d = record d { sessions = sessions.create f d.sessions }

  abbrev pub find_session : (Session → Bool) → Action (Db U S) (Option Session)
  find_session p = gets (λ d. sessions.find_first p d.sessions)

  abbrev pub find_user : (User → Bool) → Action (Db U S) (Option User)
  find_user p = gets (λ d. users.find_first p d.users)

  abbrev pub update_users : (User → Bool) → (User → User) → Db U S → Db U S
  update_users p f d = record d { users = users.update_where p f d.users }

  -- `findUniqueOrThrow` by id
  abbrev pub user_or_throw : ℕ → Action (Db U S) User
  user_or_throw user = do found ← find_user (user_has_id user); or_throw found missing_record

  unfoldable pub generate_tokens : ℕ → String → ℕ → Action (Db U S) TokenPair
  generate_tokens user raw now = do
    u ← user_or_throw user
    pure (record {
      access_token = c.sign (payload_of u) (now + access_token_expiry_ms);
      refresh_token = raw;
    })

  -- `update` throws where the row is gone.
  unfoldable pub rotate_session : ℕ → ℕ → SessionMeta → String → ℕ → Action (Db U S) TokenPair
  unfolding generate_tokens
  rotate_session id user meta raw now = do
    tokens ← generate_tokens user raw now
    current ← find_session (session_has_id id)
    throw_if (not (is_some current)) missing_record
    modify (
        update_sessions (session_has_id id) (
          rotated (c.hash_token raw) (Option.map (λ s. s.refresh_token) current)
            (or_unknown meta.ip) (now + refresh_token_expiry_ms)))
    pure tokens

  -- `activeSessions[0]` goes where the limit is reached.
  unfoldable pub drop_oldest : List Session → Action (Db U S) (Unit {0})
  drop_oldest [] = pure tt
  drop_oldest (oldest ∷ rest) =
      if leb max_sessions (length (oldest ∷ rest))
      then modify (delete_sessions (session_has_id oldest.id))
      else pure tt

  unfoldable pub open_session : ℕ → SessionMeta → String → ℕ → Action (Db U S) TokenPair
  unfolding generate_tokens drop_oldest
  open_session user meta raw now = do
    active ← gets (λ d. sessions.find_sorted (λ s. s.created_at) (belongs_to user) d.sessions)
    drop_oldest active
    tokens ← generate_tokens user raw now
    modify (
        create_session (
          new_session user (c.hash_token raw) (or_unknown meta.user_agent) (or_unknown meta.ip)
            now))
    pure tokens

  unfoldable pub issue_tokens : ℕ → SessionMeta → String → ℕ → Action (Db U S) TokenPair
  unfolding rotate_session open_session
  issue_tokens user meta raw now = do
    existing ← find_session (same_agent user (or_unknown meta.user_agent))
    elim existing [
      | some s ↦ rotate_session s.id user meta raw now
      | none ↦ open_session user meta raw now
    ]
