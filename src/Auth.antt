-- ===== src/Auth.antt =====
-- server/src/auth/auth.service.ts: the accounts and sessions that the service keeps, and what it
-- takes from other code: the hash functions, the signing of access tokens, the one-time codes and
-- the mailer, none of which is part of the repository.
mod Tokens
mod Access
mod Recovery
pub mod TwoFactor
mod Calls
pub mod SessionLimit
pub mod Rotation
pub mod Credentials
mod Tests
use messenger_web_app.Prelude.{
  ℕ, ◌*◌, ◌≡◌, Bool, true, false, Option, none, some, String, ◌==◌, nat_eq, string_eq, List, [],
  ◌∷◌, if◌then◌else◌, is_some,
}

pub record User : Type 0 where
  pub id : ℕ
  pub email : String
  pub nickname : String
  pub password : String
  pub role : String
  pub avatar_url : Option String
  pub is_email_verified : Bool
  pub email_verify_token : Option String
  pub password_reset_token : Option String
  pub password_reset_expires : Option ℕ
  pub tos_accepted_at : Option ℕ
  pub two_factor_secret : Option String
  pub two_factor_enabled : Bool

pub record Session : Type 0 where
  pub id : ℕ
  pub user_id : ℕ
  pub refresh_token : String
  pub user_agent : String
  pub ip_address : String
  pub expires_at : ℕ
  pub created_at : ℕ
  pub prev_refresh_token : Option String

-- `SessionMeta`; an absent header is the empty text, which `||` treats alike.
pub record SessionMeta : Type 0 where
  pub ip : String
  pub user_agent : String

-- `JWTPayload`
pub record JwtPayload : Type 0 where
  pub sub : ℕ
  pub email : String
  pub nickname : String
  pub role : String
  pub avatar_url : Option String

pub record TokenPair : Type 0 where
  pub access_token : String
  pub refresh_token : String

-- The mails of `EmailService`: the address and the raw token.
pub data Mail : Type 0 where
  verification password_reset : String → String → Mail

-- `bcrypt_hash` takes the salt, `sign` the time of expiry; `delivers` says whether the mailer takes
-- a mail or throws.
pub record Crypto : Type 0 where
  pub hash_token : String → String
  pub bcrypt_hash : ℕ → String → String
  pub bcrypt_compare : String → String → Bool
  pub sign : JwtPayload → ℕ → String
  pub totp_check : String → String → Bool
  pub delivers : Mail → Bool
  pub bcrypt_compare_hash : (salt : ℕ) (p : String) → bcrypt_compare p (bcrypt_hash salt p) ≡ true

-- What the service changes: the two tables, and the mails that went out.
pub record Db (U S : Type 0) : Type 0 where
  pub users : U
  pub sessions : S
  pub outbox : List Mail

-- MAX_SESSIONS, REFRESH_TOKEN_EXPIRY_MS, RESET_TOKEN_EXPIRY_MS, and the 15 minutes of `sign`.
abbrev pub max_sessions : ℕ
max_sessions = 5

abbrev pub refresh_token_expiry_ms : ℕ
refresh_token_expiry_ms = 7 * 24 * 60 * 60 * 1000

abbrev pub reset_token_expiry_ms : ℕ
reset_token_expiry_ms = 60 * 60 * 1000

abbrev pub access_token_expiry_ms : ℕ
access_token_expiry_ms = 15 * 60 * 1000

-- `meta.userAgent || 'unknown'`
abbrev pub or_unknown : String → String
or_unknown s = if s == "" then "unknown" else s

abbrev pub is_text : Option String → String → Bool
is_text none t = false
is_text (some s) t = s == t

abbrev pub user_has_id : ℕ → User → Bool
user_has_id id u = u.id == id

abbrev pub session_has_id : ℕ → Session → Bool
session_has_id id s = s.id == id

abbrev pub belongs_to : ℕ → Session → Bool
belongs_to user s = s.user_id == user

abbrev pub has_token : String → Session → Bool
has_token hashed s = s.refresh_token == hashed
