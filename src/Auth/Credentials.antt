-- ===== src/Auth/Credentials.antt =====
-- What a log-in, a new password, the second factor and a deletion ask for, and what they change.
use messenger_web_app.Prelude.{
  ℕ, ◌≤◌, ◌≡◌, refl, ◌⊎◌, inl, inr, true, false, not, Option, none, some, String, arith, filter,
  count, In, is_some, nat_eq, string_eq, Bool-cases, Option-cases, ok, err, nat_beq_iff,
  bad_request, Bool, ◌&&◌, ◌<◌, ap, map, ◌≢◌, ◌==◌, if◌then◌else◌, ◌>>=◌,
}
use text.Mathlib.TextEquality.{eq_iff}
use messenger_web_app.Prelude.Store.{Table, rewrite}
use messenger_web_app.Prelude.Rows.{In-map, In_map, find_known, find_nothing, count_unique}
use messenger_web_app.Auth.{
  User, Session, SessionMeta, TokenPair, Crypto, Db, user_has_id, belongs_to, is_text,
}
use messenger_web_app.Auth.Tokens.{update_users}
use messenger_web_app.Auth.Access.{LoginDto, login, has_email}
use messenger_web_app.Auth.Recovery.{reset_password, may_reset, reset_done, is_later}
use messenger_web_app.Auth.TwoFactor.{
  setup_2fa, get_2fa_status, verify_2fa_token, delete_account, set_up, code_matches, is_missing,
}

and-true : (a b : Bool) → (a && b) ≡ true → (a ≡ true) × (b ≡ true)
and-true true true h = (refl, refl)
and-true true false h = cc
and-true false b h = cc

is_text-some : (o : Option String) (t : String) → is_text o t ≡ true → o ≡ some t
is_text-some none t h = cc
is_text-some (some s) t h = ap some ((eq_iff s t).0 h)

is_later-some :
    (o : Option ℕ) (now : ℕ) → is_later o now ≡ true → (t : ℕ) × (o ≡ some t) × (now < t)
is_later-some none now h = cc
is_later-some (some t) now h = (t, refl, ground arith)

module _ {U S : Type 0} (users : Table User U) (sessions : Table Session S) (c : Crypto) where
  -- A log-in that succeeds was made with the address of a user, whose password it gave, and whose
  -- address is verified.
  pub login_sound :
      (dto : LoginDto) (meta : SessionMeta) (raw : String) (now : ℕ) (d : Db U S) (t : TokenPair)
      → (login users sessions c dto meta raw now d).0 ≡ ok t
      → (u : User) × In u (users.rows d.users)
        × (u.email ≡ dto.email)
        × (c.bcrypt_compare dto.password u.password ≡ true)
        × (u.is_email_verified ≡ true)
  unfolding login
  login_sound dto meta raw now d t h =
      elim (Option-cases (users.find_first (has_email dto.email) d.users)) [
        | inl e ↦ absurd (ground arith)
        | inr (u, e) ↦
            let (hit, stands) = rw e at (users.find_first_lem (has_email dto.email) d.users) in
            (u, stands, (eq_iff _ _).0 hit, ground arith, ground arith)
      ]

  -- Every user with the id has what the update gives.
  update_at :
      (user : ℕ) (f : User → User) (d : Db U S) (u : User)
      → ((v : User) → (f v).id ≡ v.id)
      → users.find_first
          (user_has_id user)
          (update_users users sessions c (user_has_id user) f d).users
        ≡ some u
      → (v : User) × In v (users.rows d.users) × (v.id ≡ user) × (u ≡ f v)
  update_at user f d u keep e =
      let (hit, stands) = rw e at (
        users.find_first_lem (user_has_id user)
          (users.update_where (user_has_id user) f d.users)) in
      let (v, k, same) =
        In-map (rewrite (user_has_id user) f) u (users.rows d.users)
          (rw (users.rows-update_where (user_has_id user) f d.users) at stands) in
      let kept = keep v in (v, k, ground arith, ground arith)

  -- After such an update the user is still found, with what the update gives.
  found_after_update :
      (user : ℕ) (f : User → User) (d : Db U S) (u : User)
      → ((v : User) → (f v).id ≡ v.id)
      → users.find_first (user_has_id user) d.users ≡ some u
      → (u' : User) × (users.find_first
            (user_has_id user)
            (update_users users sessions c (user_has_id user) f d).users
          ≡ some u')
        × ((v : User) × In v (users.rows d.users) × (v.id ≡ user) × (u' ≡ f v))
  found_after_update user f d u keep e =
      let (hit, stands) = rw e at (users.find_first_lem (user_has_id user) d.users) in
      let turn = rewrite (user_has_id user) f in
      let there : In (turn u) (users.rows (users.update_where (user_has_id user) f d.users)) =
        rw (users.rows-update_where (user_has_id user) f d.users)
          (In_map turn u (users.rows d.users) stands) in
      let same : user_has_id user (turn u) ≡ true = ground (arith, keep u) in
      let (u', e', _, _) = find_known users (user_has_id user) (turn u) _ there same in
      (u', e', update_at user f d u' keep e')

  -- Setting the second factor up for a user who exists turns it off, and asks for neither password nor
  -- code: whoever holds an access token of an account that is protected by it can end the protection. Afterwards the
  -- checks of the second factor pass with any code and with none.
  pub setup_2fa-verify_2fa_token :
      (user : ℕ) (secret : String) (code : Option String) (d : Db U S)
      → is_some (users.find_first (user_has_id user) d.users) ≡ true
      → ((setup_2fa users sessions c user secret d).0 ≡ ok secret)
        × ((get_2fa_status users sessions c user (setup_2fa users sessions c user secret d).1).0
            ≡ ok false)
        × ((verify_2fa_token users sessions c user code
              (setup_2fa users sessions c user secret d).1).0
            ≡ ok tt)
  unfolding setup_2fa get_2fa_status verify_2fa_token
  setup_2fa-verify_2fa_token user secret code d h =
      elim (Option-cases (users.find_first (user_has_id user) d.users)) [
        | inl e ↦ absurd (ground arith)
        | inr (u, e) ↦
            let d' = update_users users sessions c (user_has_id user) (set_up secret) d in
            let (u', e', off) = found_after_update user (set_up secret) d u (λ v. refl) e in
            ground arith
      ]

  -- A deletion of an account either throws and changes nothing, or it gave the account's password, and
  -- a code where the second factor is on; then the rows of the user and of its sessions are gone, and
  -- all the others are as they were.
  pub delete_account_sound :
      (user : ℕ) (password : String) (code : Option String) (d : Db U S)
      → (((delete_account users sessions c user password code d).0 ≢ ok tt)
          × ((delete_account users sessions c user password code d).1 ≡ d))
        ⊎ (((delete_account users sessions c user password code d).0 ≡ ok tt)
            × ((u : User) × In u (users.rows d.users)
                × (u.id ≡ user)
                × (c.bcrypt_compare password u.password ≡ true)
                × ((u.two_factor_enabled ≡ false)
                    ⊎ (code_matches c code u.two_factor_secret ≡ true)))
            × (users.rows (delete_account users sessions c user password code d).1.users
                ≡ filter (λ u. not (u.id == user)) (users.rows d.users))
            × (sessions.rows (delete_account users sessions c user password code d).1.sessions
                ≡ filter (λ s. not (s.user_id == user)) (sessions.rows d.sessions))
            × ((delete_account users sessions c user password code d).1.outbox ≡ d.outbox))
  unfolding delete_account verify_2fa_token
  delete_account_sound user password code d =
      elim (Option-cases (users.find_first (user_has_id user) d.users)) [
        | inl e ↦ inl (λ q. ground (arith, e, q), ground (arith, e))
        | inr (u, e) ↦
            let (hit, stands) = rw e at (users.find_first_lem (user_has_id user) d.users) in
            let gone = users.rows-delete_where (user_has_id user) d.users in
            let out = sessions.rows-delete_where (belongs_to user) d.sessions in
            elim (Bool-cases (c.bcrypt_compare password u.password)) [
              | inr wrong ↦ inl (λ q. ground (arith, e, wrong, q), ground (arith, e, wrong))
              | inl right ↦ elim (Bool-cases u.two_factor_enabled) [
                | inr off ↦ inr (
                  ground (arith, e, right, off),
                  (u, stands, ground (arith, hit), right, inl off),
                  ground (arith, e, right, off, gone),
                  ground (arith, e, right, off, out),
                  ground (arith, e, right, off),
                )
                | inl on ↦ elim (Bool-cases (is_missing code)) [
                  | inl none_given ↦ inl (
                    λ q. ground (arith, e, right, on, none_given, q),
                    ground (arith, e, right, on, none_given),
                  )
                  | inr there ↦ elim (Bool-cases (code_matches c code u.two_factor_secret)) [
                    | inr other ↦ inl (
                      λ q. ground (arith, e, right, on, there, other, q),
                      ground (arith, e, right, on, there, other),
                    )
                    | inl same ↦ inr (
                      ground (arith, e, right, on, there, same),
                      (u, stands, ground (arith, hit), right, inr same),
                      ground (arith, e, right, on, there, same, gone),
                      ground (arith, e, right, on, there, same, out),
                      ground (arith, e, right, on, there, same),
                    )
                  ]
                ]
              ]
            ]
      ]

  token_gone :
      (hashed new : String) (later : ℕ) (u : User) (d : Db U S)
      → count (λ v. is_text v.password_reset_token hashed) (users.rows d.users) ≤ 1
      → In u (users.rows d.users)
      → is_text u.password_reset_token hashed ≡ true
      → users.find_first
          (may_reset hashed later)
          (users.update_where (user_has_id u.id) (reset_done new) d.users)
        ≡ none
  token_gone hashed new later u d sole i held = find_nothing users (may_reset hashed later) _ λ y j.
      let turn = rewrite (user_has_id u.id) (reset_done new) in
      let (v, k, e) =
        In-map turn y (users.rows d.users)
          (rw (users.rows-update_where (user_has_id u.id) (reset_done new) d.users) at j) in
      elim (Bool-cases (is_text v.password_reset_token hashed)) [
        | inl holds ↦
            let one =
              count_unique (λ w. is_text w.password_reset_token hashed) u v (users.rows d.users)
                sole i k held holds in
            ground (arith, nat_beq_iff v.id u.id)
        | inr other ↦ ground arith
      ]

  -- Where at most one user holds a reset token, a reset by it gives the token's user, before the token
  -- expires, the new password, and takes the token away; the other users are as they were. Every
  -- session of the user has ended, those of the others are as they were, and afterwards the token is
  -- refused.
  pub reset_password_twice :
      (token password : String) (salt now : ℕ) (password' : String) (salt' later : ℕ) (d : Db U S)
      → count (λ u. is_text u.password_reset_token (c.hash_token token)) (users.rows d.users) ≤ 1
      → (reset_password users sessions c token password salt now d).0 ≡ ok tt
      → (u : User) × In u (users.rows d.users)
        × (u.password_reset_token ≡ some (c.hash_token token))
        × ((t : ℕ) × (u.password_reset_expires ≡ some t) × (now < t))
        × (users.rows (reset_password users sessions c token password salt now d).1.users
            ≡ map
                (λ (v : User).
                  if v.id == u.id
                  then record v {
                    password = c.bcrypt_hash salt password;
                    password_reset_token = none;
                    password_reset_expires = none;
                  }
                  else v)
                (users.rows d.users))
        × (sessions.rows (reset_password users sessions c token password salt now d).1.sessions
            ≡ filter (λ s. not (s.user_id == u.id)) (sessions.rows d.sessions))
        × ((reset_password users sessions c token password' salt' later
              (reset_password users sessions c token password salt now d).1).0
            ≡ err (bad_request "Invalid or expired token"))
  unfolding reset_password
  reset_password_twice token password salt now password' salt' later d sole h =
      let hashed = c.hash_token token in
      elim (Option-cases (users.find_first (may_reset hashed now) d.users)) [
        | inl e ↦ absurd (ground arith)
        | inr (u, e) ↦
            let (hit, stands) = rw e at (users.find_first_lem (may_reset hashed now) d.users) in
            let (held, in_time) =
              and-true (is_text u.password_reset_token hashed)
                (is_later u.password_reset_expires now) hit in
            let gone = token_gone hashed (c.bcrypt_hash salt password) later u d sole stands held in
            let new =
              users.rows-update_where (user_has_id u.id) (reset_done (c.bcrypt_hash salt password))
                d.users in
            (
              u,
              stands,
              is_text-some u.password_reset_token hashed held,
              is_later-some u.password_reset_expires now in_time,
              rw (e, ◌>>=◌) (rw e new),
              ground (arith, e, sessions.rows-delete_where (belongs_to u.id) d.sessions),
              ground (arith, e, gone),
            )
      ]
