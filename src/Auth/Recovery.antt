-- ===== src/Auth/Recovery.antt =====
-- auth.service.ts: forgotten passwords, changed passwords and the verification of addresses. The
-- fixed delay of the answers is not modelled.
use messenger_web_app.Prelude.{
  ℕ, ◌+◌, Bool, true, false, not, ◌&&◌, Option, none, some, String, nat_eq, string_eq, ltb,
  if◌then◌else◌, bad_request, unauthorized, Action, pure, or_throw, ◌>>=◌, ◌>>◌, throw_if, modify,
}
use messenger_web_app.Prelude.Store.{Table}
use messenger_web_app.Auth.{
  User, Session, Crypto, Db, verification, password_reset, user_has_id, belongs_to, is_text,
  reset_token_expiry_ms,
}
use messenger_web_app.Auth.Tokens.{delete_sessions, find_user, update_users, user_or_throw}
use messenger_web_app.Auth.Access.{has_email, mistyped, send_mail}

abbrev pub with_reset : String → ℕ → User → User
with_reset hashed expires u = record u {
  password_reset_token = some hashed;
  password_reset_expires = some expires;
}

abbrev pub with_password : String → User → User
with_password hashed u = record u { password = hashed }

abbrev pub reset_done : String → User → User
reset_done hashed u = record u {
  password = hashed;
  password_reset_token = none;
  password_reset_expires = none;
}

abbrev pub with_verify_token : String → User → User
with_verify_token hashed u = record u { email_verify_token = some hashed }

abbrev pub verified : User → User
verified u = record u { is_email_verified = true; email_verify_token = none }

abbrev pub is_later : Option ℕ → ℕ → Bool
is_later none now = false
is_later (some t) now = ltb now t

-- `where: { passwordResetToken: hashed, passwordResetExpires: { gt: new Date() } }`
abbrev pub may_reset : String → ℕ → User → Bool
may_reset hashed now u =
    is_text u.password_reset_token hashed && is_later u.password_reset_expires now

module _ {U S : Type 0} (users : Table User U) (sessions : Table Session S) (c : Crypto) where
  unfoldable pub forgot_password : String → String → ℕ → Action (Db U S) (Unit {0})
  unfolding send_mail
  forgot_password email raw now = do
    found ← find_user users sessions c (has_email email)
    elim found [
      | none ↦ pure tt
      | some u ↦ if not u.is_email_verified then pure tt else (do
        modify (
            update_users users sessions c (user_has_id u.id)
              (with_reset (c.hash_token raw) (now + reset_token_expiry_ms)))
        send_mail users sessions c (password_reset email raw))
    ]

  unfoldable pub reset_password : String → String → ℕ → ℕ → Action (Db U S) (Unit {0})
  reset_password token new_password salt now = do
    found ← find_user users sessions c (may_reset (c.hash_token token) now)
    u ← or_throw found (bad_request "Invalid or expired token")
    modify (
        update_users users sessions c (user_has_id u.id)
          (reset_done (c.bcrypt_hash salt new_password)))
    modify (delete_sessions users sessions c (belongs_to u.id))

  unfoldable pub change_password : ℕ → String → String → ℕ → Action (Db U S) (Unit {0})
  change_password user old_pass new_pass salt = do
    u ← user_or_throw users sessions c user
    throw_if (mistyped c old_pass u) (unauthorized "Current password incorrect")
    modify (
        update_users users sessions c (user_has_id user)
          (with_password (c.bcrypt_hash salt new_pass)))
    modify (delete_sessions users sessions c (belongs_to user))

  unfoldable pub verify_email : String → Action (Db U S) (Unit {0})
  verify_email token = do
    found ← find_user users sessions c (λ u. is_text u.email_verify_token (c.hash_token token))
    u ← or_throw found (bad_request "Invalid token")
    modify (update_users users sessions c (user_has_id u.id) verified)

  unfoldable pub resend_verification_email : String → String → Action (Db U S) (Unit {0})
  unfolding send_mail
  resend_verification_email email verify = do
    found ← find_user users sessions c (has_email email)
    elim found [
      | none ↦ pure tt
      | some u ↦ if u.is_email_verified then pure tt else (do
        modify (
            update_users users sessions c (user_has_id u.id)
              (with_verify_token (c.hash_token verify)))
        send_mail users sessions c (verification email verify))
    ]
