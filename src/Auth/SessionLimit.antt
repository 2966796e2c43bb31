-- ===== src/Auth/SessionLimit.antt =====
-- No user has more than `max_sessions` sessions, whatever calls of the service are made.
pub mod Issue
use mathlib.Core.Option
use messenger_web_app.Prelude.{
  ℕ, suc, ◌+◌, ◌≤◌, ◌<◌, ◌≡◌, ◌≢◌, refl, sym, ◌∙◌, ◌⊎◌, inl, inr, Bool, true, false, not, ◌&&◌,
  ◌||◌, Option, none, some, String, List, [], ◌∷◌, ◌++◌, map, arith, if◌then◌else◌, filter, any,
  count, All, In, is_some, All-In, ◌==◌, nat_eq, string_eq, Bool-cases, subst, Option-cases, ok,
  err, Error, Result, ap, nat_beq_iff, ltb, leb, length, count-filter-le, count-append, settle,
}
use messenger_web_app.Prelude.Store.{Table, rewrite, Finds}
use messenger_web_app.Prelude.Rows.{is_some-find_first, In-filter}
use messenger_web_app.Auth.{
  User, Session, SessionMeta, TokenPair, Crypto, Db, Mail, verification, user_has_id, max_sessions,
  refresh_token_expiry_ms, belongs_to, has_token, session_has_id, or_unknown,
}
use messenger_web_app.Auth.Tokens.{
  update_sessions, delete_sessions, create_session, rotated, new_session, same_agent,
  generate_tokens, rotate_session, drop_oldest, open_session, issue_tokens, update_users,
}
use messenger_web_app.Auth.Access.{
  has_email, create_user, new_user, register_in, RegisterDto, LoginDto, register, login, refresh,
  refresh_found, logout, logout_all, terminate_session,
}
use messenger_web_app.Auth.Recovery.{
  may_reset, with_password, forgot_password, reset_password, change_password, verify_email,
  resend_verification_email,
}
use messenger_web_app.Auth.TwoFactor.{
  setup_2fa, enable_2fa, disable_2fa, verify_2fa_token, delete_user, delete_account,
}
use messenger_web_app.Auth.Calls.{
  Call, registers, logs_in, refreshes, logs_out, logs_out_all, terminates, forgets, resets, changes,
  verifies, resends, sets_up, enables, disables, deletes, step,
}
use messenger_web_app.Auth.SessionLimit.Issue.{
  IsLimited, delete-le, fewer-limit, delete-limit, rotate-limit, issue-limit,
}

module _ {U S : Type 0} (users : Table User U) (sessions : Table Session S) (c : Crypto) where
  login-limit :
      (dto : LoginDto) (meta : SessionMeta) (raw : String) (now : ℕ) (d : Db U S)
      → IsLimited users sessions c d
      → IsLimited users sessions c (login users sessions c dto meta raw now d).1
  unfolding login
  login-limit dto meta raw now d l =
      elim (Option-cases (users.find_first (has_email dto.email) d.users)) [
        | inl e ↦ rw (e, login) l
        | inr (u, e) ↦ ground (arith, issue-limit users sessions c u.id meta raw now d l)
      ]

  settle-limit :
      {A : Type 0} (d : Db U S) (r : Result A × Db U S)
      → IsLimited users sessions c d
      → IsLimited users sessions c r.1
      → IsLimited users sessions c (settle d r).1
  settle-limit d (ok a, e) l m = m
  settle-limit d (err x, e) l m = l

  refresh_found-limit :
      (found : Option Session) (meta : SessionMeta) (raw : String) (now : ℕ) (d : Db U S)
      → IsLimited users sessions c d
      → IsLimited users sessions c (refresh_found users sessions c found meta raw now d).1
  unfolding refresh_found
  refresh_found-limit none meta raw now d l = l
  refresh_found-limit (some s) meta raw now d l = ground (
    arith,
    delete-limit users sessions c (session_has_id s.id) d l,
    rotate-limit users sessions c s.id s.user_id meta raw now d l,
  )

  refresh-limit :
      (token : String) (meta : SessionMeta) (raw : String) (now : ℕ) (d : Db U S)
      → IsLimited users sessions c d
      → IsLimited users sessions c (refresh users sessions c token meta raw now d).1
  unfolding refresh
  refresh-limit token meta raw now d l = settle-limit d _ l (
      refresh_found-limit (sessions.find_first (has_token (c.hash_token token)) d.sessions) meta raw
        now d l)

  register_in-limit :
      (dto : RegisterDto) (meta : SessionMeta) (salt : ℕ) (verify raw : String) (now : ℕ)
      (d : Db U S)
      → IsLimited users sessions c d
      → IsLimited users sessions c (register_in users sessions c dto meta salt verify raw now d).1
  unfolding register_in
  register_in-limit dto meta salt verify raw now d l =
      let row = new_user dto (c.bcrypt_hash salt dto.password) (c.hash_token verify) now in
      let d' = create_user users sessions c row d in
      let mail = verification dto.email verify in
      ground (
        arith,
        l,
        fewer-limit users sessions c d d' (λ u. omega arith) l,
        issue-limit users sessions c (users.next_id d.users) meta raw now
            (record d' { outbox = mail ∷ d.outbox })
            (fewer-limit users sessions c d _ (λ u. omega arith) l),
      )

  register-limit :
      (dto : RegisterDto) (meta : SessionMeta) (salt : ℕ) (verify raw : String) (now : ℕ)
      (d : Db U S)
      → IsLimited users sessions c d
      → IsLimited users sessions c (register users sessions c dto meta salt verify raw now d).1
  unfolding register
  register-limit dto meta salt verify raw now d l =
      let body =
        settle-limit d (register_in users sessions c dto meta salt verify raw now d) l
          (register_in-limit dto meta salt verify raw now d l) in
      ground (arith, body, l)

  -- A call that leaves the sessions alone.
  same-limit :
      (d e : Db U S)
      → e.sessions ≡ d.sessions
      → IsLimited users sessions c d
      → IsLimited users sessions c e
  same-limit d e same l = record { at_most = λ u. rw same (l.at_most u) }

  forgot_password-sessions :
      (email raw : String) (now : ℕ) (d : Db U S)
      → (forgot_password users sessions c email raw now d).1.sessions ≡ d.sessions
  unfolding forgot_password
  forgot_password-sessions email raw now d = ground arith

  resend-sessions :
      (email verify : String) (d : Db U S)
      → (resend_verification_email users sessions c email verify d).1.sessions ≡ d.sessions
  unfolding resend_verification_email
  resend-sessions email verify d = ground arith

  reset-limit :
      (token password : String) (salt now : ℕ) (d : Db U S)
      → IsLimited users sessions c d
      → IsLimited users sessions c (reset_password users sessions c token password salt now d).1
  unfolding reset_password
  reset-limit token password salt now d l =
      elim (Option-cases (users.find_first (may_reset (c.hash_token token) now) d.users)) [
        | inl e ↦ rw (e, reset_password) l
        | inr (u, e) ↦
            rw (e, reset_password)
              (delete-limit users sessions c (belongs_to u.id) _ (same-limit d _ refl l))
      ]

  change-limit :
      (user : ℕ) (old new : String) (salt : ℕ) (d : Db U S)
      → IsLimited users sessions c d
      → IsLimited users sessions c (change_password users sessions c user old new salt d).1
  unfolding change_password
  change-limit user old new salt d l =
      let d' =
        update_users users sessions c (user_has_id user) (with_password (c.bcrypt_hash salt new))
          d in
      ground (arith, l, delete-limit users sessions c (belongs_to user) d' (same-limit d d' refl l))

  terminate-limit :
      (user id : ℕ) (d : Db U S)
      → IsLimited users sessions c d
      → IsLimited users sessions c (terminate_session users sessions c user id d).1
  unfolding terminate_session
  terminate-limit user id d l =
      ground (arith, l, delete-limit users sessions c (session_has_id id) d l)

  verify_2fa_token-state :
      (user : ℕ) (code : Option String) (d : Db U S)
      → (verify_2fa_token users sessions c user code d).1 ≡ d
  unfolding verify_2fa_token
  verify_2fa_token-state user code d = ground arith

  delete_account-limit :
      (user : ℕ) (password : String) (code : Option String) (d : Db U S)
      → IsLimited users sessions c d
      → IsLimited users sessions c (delete_account users sessions c user password code d).1
  unfolding delete_account
  delete_account-limit user password code d l = ground (
    arith,
    l,
    verify_2fa_token-state user code d,
    fewer-limit users sessions c d (delete_user users sessions c user d)
        (λ u. delete-le users sessions c (belongs_to user) d u) l,
  )

  setup-sessions :
      (user : ℕ) (secret : String) (d : Db U S)
      → (setup_2fa users sessions c user secret d).1.sessions ≡ d.sessions
  unfolding setup_2fa
  setup-sessions user secret d = ground arith

  enable-sessions :
      (user : ℕ) (token : String) (d : Db U S)
      → (enable_2fa users sessions c user token d).1.sessions ≡ d.sessions
  unfolding enable_2fa
  enable-sessions user token d = ground arith

  disable-sessions :
      (user : ℕ) (token password : String) (d : Db U S)
      → (disable_2fa users sessions c user token password d).1.sessions ≡ d.sessions
  unfolding disable_2fa
  disable-sessions user token password d = ground arith

  verify_email-sessions :
      (token : String) (d : Db U S)
      → (verify_email users sessions c token d).1.sessions ≡ d.sessions
  unfolding verify_email
  verify_email-sessions token d = ground arith

  -- No call of the service gives a user more than five sessions.
  pub step-IsLimited :
      (k : Call) (d : Db U S)
      → IsLimited users sessions c d
      → IsLimited users sessions c (step users sessions c k d)
  unfolding step logout logout_all
  step-IsLimited (registers dto meta salt verify raw now) d l =
      register-limit dto meta salt verify raw now d l
  step-IsLimited (logs_in dto meta raw now) d l = login-limit dto meta raw now d l
  step-IsLimited (refreshes token meta raw now) d l = refresh-limit token meta raw now d l
  step-IsLimited (logs_out token) d l =
      delete-limit users sessions c (has_token (c.hash_token token)) d l
  step-IsLimited (logs_out_all user) d l = delete-limit users sessions c (belongs_to user) d l
  step-IsLimited (terminates user id) d l = terminate-limit user id d l
  step-IsLimited (forgets email raw now) d l =
      same-limit d _ (forgot_password-sessions email raw now d) l
  step-IsLimited (resets token password salt now) d l = reset-limit token password salt now d l
  step-IsLimited (changes user old new salt) d l = change-limit user old new salt d l
  step-IsLimited (verifies token) d l = same-limit d _ (verify_email-sessions token d) l
  step-IsLimited (resends email verify) d l = same-limit d _ (resend-sessions email verify d) l
  step-IsLimited (sets_up user secret) d l = same-limit d _ (setup-sessions user secret d) l
  step-IsLimited (enables user token) d l = same-limit d _ (enable-sessions user token d) l
  step-IsLimited (disables user token password) d l =
      same-limit d _ (disable-sessions user token password d) l
  step-IsLimited (deletes user password code) d l = delete_account-limit user password code d l
