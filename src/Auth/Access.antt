-- ===== src/Auth/Access.antt =====
-- auth.service.ts: registering, logging in, refreshing, logging out and ending sessions.
use messenger_web_app.Prelude.{
  ℕ, Bool, true, false, not, ◌||◌, Option, none, some, String, ◌==◌, nat_eq, string_eq, ◌∷◌, ltb,
  is_some, if◌then◌else◌, mail_failed, bad_request, conflict, unauthorized, forbidden, Action, pure,
  throw, gets, or_throw, ◌>>=◌, ◌>>◌, throw_if, modify, transaction,
}
use messenger_web_app.Prelude.Store.{Table}
use messenger_web_app.Auth.{
  User, Session, SessionMeta, TokenPair, Crypto, Db, Mail, verification, session_has_id, belongs_to,
  has_token,
}
use messenger_web_app.Auth.Tokens.{
  delete_sessions, find_session, find_user, rotate_session, issue_tokens,
}

-- `RegisterDto` and `LoginDto`
pub record RegisterDto : Type 0 where
  pub email : String
  pub password : String
  pub confirm_password : String
  pub nickname : String
  pub tos_accepted : Bool

pub record LoginDto : Type 0 where
  pub email : String
  pub password : String

abbrev pub has_email : String → User → Bool
has_email email u = u.email == email

abbrev pub same_name : String → String → User → Bool
same_name email nickname u = u.email == email || u.nickname == nickname

-- The row of `user.create`; the columns that it leaves out have the schema's defaults.
abbrev pub new_user : RegisterDto → String → String → ℕ → ℕ → User
new_user dto hashed verify_hash now id = record {
  id = id;
  email = dto.email;
  nickname = dto.nickname;
  password = hashed;
  role = "USER";
  avatar_url = none;
  is_email_verified = false;
  email_verify_token = some verify_hash;
  password_reset_token = none;
  password_reset_expires = none;
  tos_accepted_at = some now;
  two_factor_secret = none;
  two_factor_enabled = false;
}

abbrev pub mistyped : Crypto → String → User → Bool
mistyped c password u = not (c.bcrypt_compare password u.password)

module _ {U S : Type 0} (users : Table User U) (sessions : Table Session S) (c : Crypto) where
  unfoldable pub send_mail : Mail → Action (Db U S) (Unit {0})
  send_mail m = do
    throw_if (not (c.delivers m)) mail_failed
    modify (λ d. record d { outbox = m ∷ d.outbox })

  abbrev pub create_user : (ℕ → User) → Db U S → Db U S
  create_user f d = record d { users = users.create f d.users }

  -- The body of the transaction of `register`. `verify` and `raw` are the two tokens that the call
  -- draws, `salt` is the salt of the password. Nothing throws after the mail has gone out, so it cannot
  -- be seen that a rollback restores the outbox with the tables.
  unfoldable pub register_in :
      RegisterDto → SessionMeta → ℕ → String → String → ℕ → Action (Db U S) TokenPair
  unfolding send_mail
  register_in dto meta salt verify raw now = do
    existing ← find_user users sessions c (same_name dto.email dto.nickname)
    throw_if (is_some existing) (conflict "User with this email or nickname already exists")
    id ← gets (λ d. users.next_id d.users)
    modify (create_user (new_user dto (c.bcrypt_hash salt dto.password) (c.hash_token verify) now))
    send_mail (verification dto.email verify)
    issue_tokens users sessions c id meta raw now

  unfoldable pub register :
      RegisterDto → SessionMeta → ℕ → String → String → ℕ → Action (Db U S) TokenPair
  unfolding register_in
  register dto meta salt verify raw now = do
    throw_if (not dto.tos_accepted) (bad_request "You must accept the Terms of Service")
    throw_if (not (dto.password == dto.confirm_password)) (bad_request "Passwords do not match")
    transaction (register_in dto meta salt verify raw now)

  unfoldable pub login : LoginDto → SessionMeta → String → ℕ → Action (Db U S) TokenPair
  login dto meta raw now = do
    found ← find_user users sessions c (has_email dto.email)
    u ← or_throw found (unauthorized "Invalid credentials")
    throw_if (mistyped c dto.password u) (unauthorized "Invalid credentials")
    throw_if (not u.is_email_verified) (unauthorized "Please verify your email first")
    issue_tokens users sessions c u.id meta raw now

  -- What follows the look-up in `refresh`. The search for a session with the token as its previous
  -- one decides only which line is logged.
  unfoldable pub refresh_found :
      Option Session → SessionMeta → String → ℕ → Action (Db U S) TokenPair
  refresh_found none meta raw now = throw (unauthorized "Invalid or expired refresh token")
  refresh_found (some s) meta raw now =
      if ltb s.expires_at now
      then (do
        modify (delete_sessions users sessions c (session_has_id s.id))
        throw (unauthorized "Refresh token expired, please log in again"))
      else rotate_session users sessions c s.id s.user_id meta raw now

  unfoldable pub refresh : String → SessionMeta → String → ℕ → Action (Db U S) TokenPair
  unfolding refresh_found
  refresh token meta raw now = transaction (do
    found ← find_session users sessions c (has_token (c.hash_token token))
    refresh_found found meta raw now)

  unfoldable pub logout : String → Action (Db U S) (Unit {0})
  logout token = modify (delete_sessions users sessions c (has_token (c.hash_token token)))

  unfoldable pub logout_all : ℕ → Action (Db U S) (Unit {0})
  logout_all user = modify (delete_sessions users sessions c (belongs_to user))

  -- The result says whether there was a session to end.
  unfoldable pub terminate_session : ℕ → ℕ → Action (Db U S) Bool
  terminate_session user id = do
    found ← find_session users sessions c (session_has_id id)
    elim found [
      | none ↦ pure false
      | some s ↦ do
        throw_if (not (s.user_id == user)) (forbidden "Cannot terminate another user's session")
        modify (delete_sessions users sessions c (session_has_id id))
        pure true
    ]
