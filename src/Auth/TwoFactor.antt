-- ===== src/Auth/TwoFactor.antt =====
-- auth.service.ts: the second factor, and the deletion of an account, which asks for it.
use messenger_web_app.Prelude.{
  ℕ, Bool, true, false, not, ◌&&◌, Option, none, some, String, ◌==◌, string_eq, nat_eq,
  if◌then◌else◌, bad_request, unauthorized, Action, pure, ◌>>=◌, ◌>>◌, throw_if, modify,
}
use messenger_web_app.Prelude.Store.{Table}
use messenger_web_app.Auth.{User, Session, Crypto, Db, user_has_id, belongs_to}
use messenger_web_app.Auth.Tokens.{update_users, user_or_throw}
use messenger_web_app.Auth.Access.{mistyped}

-- `setup2FA` stores the new secret and turns the second factor off.
abbrev pub set_up : String → User → User
set_up secret u = record u { two_factor_secret = some secret; two_factor_enabled = false }

abbrev pub enabled : User → User
enabled u = record u { two_factor_enabled = true }

abbrev pub disabled : User → User
disabled u = record u { two_factor_enabled = false; two_factor_secret = none }

-- `!s`, for a text that may be absent.
abbrev pub is_missing : Option String → Bool
is_missing none = true
is_missing (some s) = s == ""

-- `authenticator.check` throws on an absent secret, which ends the call as a wrong code does.
abbrev pub code_matches : Crypto → Option String → Option String → Bool
code_matches c (some code) (some secret) = c.totp_check code secret
code_matches c _ _ = false

module _ {U S : Type 0} (users : Table User U) (sessions : Table Session S) (c : Crypto) where
  unfoldable pub get_2fa_status : ℕ → Action (Db U S) Bool
  get_2fa_status user = do u ← user_or_throw users sessions c user; pure u.two_factor_enabled

  -- `secret` is what `authenticator.generateSecret` returns; the QR code is not modelled.
  unfoldable pub setup_2fa : ℕ → String → Action (Db U S) String
  setup_2fa user secret = do
    u ← user_or_throw users sessions c user
    modify (update_users users sessions c (user_has_id user) (set_up secret))
    pure secret

  unfoldable pub enable_2fa : ℕ → String → Action (Db U S) (Unit {0})
  enable_2fa user token = do
    u ← user_or_throw users sessions c user
    throw_if (is_missing u.two_factor_secret)
        (bad_request "2FA не налаштовано. Спочатку викличте /2fa/setup")
    throw_if (not (code_matches c (some token) u.two_factor_secret))
        (bad_request "Невірний код. Перевірте час на пристрої")
    modify (update_users users sessions c (user_has_id user) enabled)

  unfoldable pub disable_2fa : ℕ → String → String → Action (Db U S) (Unit {0})
  disable_2fa user token password = do
    u ← user_or_throw users sessions c user
    throw_if (mistyped c password u) (unauthorized "Невірний пароль")
    throw_if
        (u.two_factor_enabled
          && not (is_missing u.two_factor_secret)
          && not (code_matches c (some token) u.two_factor_secret))
        (unauthorized "Невірний код 2FA")
    modify (update_users users sessions c (user_has_id user) disabled)

  unfoldable pub verify_2fa_token : ℕ → Option String → Action (Db U S) (Unit {0})
  verify_2fa_token user token = do
    u ← user_or_throw users sessions c user
    if not u.two_factor_enabled then pure tt else (do
      throw_if (is_missing token) (unauthorized "Потрібен код 2FA")
      throw_if (not (code_matches c token u.two_factor_secret)) (unauthorized "Невірний код 2FA"))

  -- The schema deletes the sessions of a deleted user.
  abbrev pub delete_user : ℕ → Db U S → Db U S
  delete_user user d = record d {
    users = users.delete_where (user_has_id user) d.users;
    sessions = sessions.delete_where (belongs_to user) d.sessions;
  }

  unfoldable pub delete_account : ℕ → String → Option String → Action (Db U S) (Unit {0})
  unfolding verify_2fa_token
  delete_account user password code = do
    u ← user_or_throw users sessions c user
    throw_if (mistyped c password u) (unauthorized "Password incorrect")
    verify_2fa_token user code
    modify (delete_user user)
