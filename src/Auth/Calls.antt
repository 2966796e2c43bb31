-- ===== src/Auth/Calls.antt =====
-- The calls of the auth service that change its state, as data, and the state after a call.
use messenger_web_app.Prelude.{ℕ, String, Option}
use messenger_web_app.Prelude.Store.{Table}
use messenger_web_app.Auth.{User, Session, SessionMeta, Crypto, Db}
use messenger_web_app.Auth.Access.{
  RegisterDto, LoginDto, register, login, refresh, logout, logout_all, terminate_session,
}
use messenger_web_app.Auth.Recovery.{
  forgot_password, reset_password, change_password, verify_email, resend_verification_email,
}
use messenger_web_app.Auth.TwoFactor.{setup_2fa, enable_2fa, disable_2fa, delete_account}

pub data Call : Type 0 where
  registers : RegisterDto → SessionMeta → ℕ → String → String → ℕ → Call
  logs_in : LoginDto → SessionMeta → String → ℕ → Call
  refreshes : String → SessionMeta → String → ℕ → Call
  logs_out : String → Call
  logs_out_all : ℕ → Call
  terminates : ℕ → ℕ → Call
  forgets : String → String → ℕ → Call
  resets : String → String → ℕ → ℕ → Call
  changes : ℕ → String → String → ℕ → Call
  verifies : String → Call
  resends : String → String → Call
  sets_up enables : ℕ → String → Call
  disables : ℕ → String → String → Call
  deletes : ℕ → String → Option String → Call

module _ {U S : Type 0} (users : Table User U) (sessions : Table Session S) (c : Crypto) where
  unfoldable pub step : Call → Db U S → Db U S
  step (registers dto meta salt verify raw now) d =
      (register users sessions c dto meta salt verify raw now d).1
  step (logs_in dto meta raw now) d = (login users sessions c dto meta raw now d).1
  step (refreshes token meta raw now) d = (refresh users sessions c token meta raw now d).1
  step (logs_out token) d = (logout users sessions c token d).1
  step (logs_out_all user) d = (logout_all users sessions c user d).1
  step (terminates user id) d = (terminate_session users sessions c user id d).1
  step (forgets email raw now) d = (forgot_password users sessions c email raw now d).1
  step (resets token password salt now) d =
      (reset_password users sessions c token password salt now d).1
  step (changes user old new salt) d = (change_password users sessions c user old new salt d).1
  step (verifies token) d = (verify_email users sessions c token d).1
  step (resends email verify) d = (resend_verification_email users sessions c email verify d).1
  step (sets_up user secret) d = (setup_2fa users sessions c user secret d).1
  step (enables user token) d = (enable_2fa users sessions c user token d).1
  step (disables user token password) d = (disable_2fa users sessions c user token password d).1
  step (deletes user password code) d = (delete_account users sessions c user password code d).1
