-- ===== src/Auth/Tests.antt =====
-- Runs of the auth service over listed tables, and its theorems at concrete inputs. The stand-ins for
-- the hash functions keep their input.
use text.Mathlib.Text.{◌==◌ as str_eq}
use text.Mathlib.TextEquality.{eq_iff}
use messenger_web_app.Prelude.{
  map, ◌<◌, ◌≢◌, if◌then◌else◌, ◌==◌, nat_eq, ℕ, ◌≡◌, refl, ◌⊎◌, true, false, not, none, some,
  String, List, [], ◌∷◌, arith, ok, err, unauthorized, bad_request, filter, In,
}
use messenger_web_app.Prelude.Store.Listed.{listed}
use messenger_web_app.Auth.{User, Session, SessionMeta, TokenPair, Crypto, Db, belongs_to, is_text}
use messenger_web_app.Auth.Access.{login, refresh, refresh_found}
use messenger_web_app.Auth.Tokens.{issue_tokens, rotate_session}
use messenger_web_app.Auth.Recovery.{reset_password}
use messenger_web_app.Auth.TwoFactor.{
  setup_2fa, get_2fa_status, verify_2fa_token, delete_account, code_matches,
}
use messenger_web_app.Auth.Calls.{logs_in, step}
use messenger_web_app.Auth.SessionLimit.Issue.{IsLimited}
use messenger_web_app.Auth.SessionLimit.{step-IsLimited}
use messenger_web_app.Auth.Rotation.{IsFresh, refresh_twice, refresh_next, refresh_expired}
use messenger_web_app.Auth.Credentials.{
  login_sound, setup_2fa-verify_2fa_token, delete_account_sound, reset_password_twice,
}

str_eq_refl : (p : String) → str_eq p p ≡ true
str_eq_refl p = (eq_iff p p).1 refl

abbrev plain : Crypto
plain = record {
  hash_token = λ t. t;
  bcrypt_hash = λ salt p. p;
  bcrypt_compare = str_eq;
  sign = λ p expires. p.nickname;
  totp_check = str_eq;
  delivers = λ m. true;
  bcrypt_compare_hash = λ salt p. str_eq_refl p;
}

abbrev ann : User
ann = record {
  id = 1;
  email = "ann@x";
  nickname = "ann";
  password = "pw";
  role = "USER";
  avatar_url = none;
  is_email_verified = true;
  email_verify_token = none;
  password_reset_token = some "r1";
  password_reset_expires = some 500;
  tos_accepted_at = some 0;
  two_factor_secret = some "123";
  two_factor_enabled = true;
}

abbrev laptop : Session
laptop = record {
  id = 1;
  user_id = 1;
  refresh_token = "t1";
  user_agent = "laptop";
  ip_address = "::1";
  expires_at = 1000;
  created_at = 0;
  prev_refresh_token = none;
}

abbrev sample : Db (List User × ℕ) (List Session × ℕ)
sample = record { users = (ann ∷ [], 2); sessions = (laptop ∷ [], 2); outbox = [] }

abbrev meta : SessionMeta
meta = record { ip = "::1"; user_agent = "laptop" }

abbrev dto : messenger_web_app.Auth.Access.LoginDto
dto = record { email = "ann@x"; password = "pw" }

abbrev pair : TokenPair
pair = record { access_token = "ann"; refresh_token = "t2" }

sample-IsFresh : IsFresh listed listed plain "t2" sample
sample-IsFresh = record {
  keyed = omega arith;
  apart = (tt, tt);
  unused = (ground (arith, eq_iff "t1" "t2"), tt);
}

step-IsLimited_example :
    IsLimited listed listed plain (step listed listed plain (logs_in dto meta "t2" 10) sample)
step-IsLimited_example =
    step-IsLimited listed listed plain (logs_in dto meta "t2" 10) sample
      (record { at_most = λ u. ground arith })

refresh_twice_example :
    refresh listed listed plain "t1" meta "t3" 20
      (refresh listed listed plain "t1" meta "t2" 10 sample).1
    ≡ (
      err (unauthorized "Invalid or expired refresh token"),
      (refresh listed listed plain "t1" meta "t2" 10 sample).1,
    )
unfolding refresh refresh_found rotate_session
refresh_twice_example =
    refresh_twice listed listed plain "t1" meta "t2" 10 meta "t3" 20 sample pair sample-IsFresh refl

refresh_next_example :
    (t' : TokenPair) × ((refresh listed listed plain "t2" meta "t3" 20
        (refresh listed listed plain "t1" meta "t2" 10 sample).1).0
      ≡ ok t')
    × (t'.refresh_token ≡ "t3")
unfolding refresh refresh_found rotate_session
refresh_next_example =
    refresh_next listed listed plain "t1" meta "t2" 10 meta "t3" 20 sample pair sample-IsFresh refl
      (omega arith)

refresh_expired_example :
    refresh listed listed plain "t1" meta "t2" 2000 sample
    ≡ (err (unauthorized "Refresh token expired, please log in again"), sample)
refresh_expired_example =
    refresh_expired listed listed plain "t1" meta "t2" 2000 sample laptop refl (omega arith)

login_sound_example :
    (u : User) × In u (ann ∷ [])
    × (u.email ≡ "ann@x")
    × (str_eq "pw" u.password ≡ true)
    × (u.is_email_verified ≡ true)
unfolding login issue_tokens rotate_session
login_sound_example = login_sound listed listed plain dto meta "t2" 10 sample pair refl

setup_2fa-verify_2fa_token_example :
    ((setup_2fa listed listed plain 1 "new" sample).0 ≡ ok "new")
    × ((get_2fa_status listed listed plain 1 (setup_2fa listed listed plain 1 "new" sample).1).0
        ≡ ok false)
    × ((verify_2fa_token listed listed plain 1 none
          (setup_2fa listed listed plain 1 "new" sample).1).0
        ≡ ok tt)
setup_2fa-verify_2fa_token_example =
    setup_2fa-verify_2fa_token listed listed plain 1 "new" none sample refl

delete_account_sound_example :
    (((delete_account listed listed plain 1 "pw" (some "123") sample).0 ≢ ok tt)
      × ((delete_account listed listed plain 1 "pw" (some "123") sample).1 ≡ sample))
    ⊎ (((delete_account listed listed plain 1 "pw" (some "123") sample).0 ≡ ok tt)
        × ((u : User) × In u (ann ∷ [])
            × (u.id ≡ 1)
            × (str_eq "pw" u.password ≡ true)
            × ((u.two_factor_enabled ≡ false)
                ⊎ (code_matches plain (some "123") u.two_factor_secret ≡ true)))
        × ((delete_account listed listed plain 1 "pw" (some "123") sample).1.users.0 ≡ [])
        × ((delete_account listed listed plain 1 "pw" (some "123") sample).1.sessions.0 ≡ [])
        × ((delete_account listed listed plain 1 "pw" (some "123") sample).1.outbox
            ≡ sample.outbox))
delete_account_sound_example = delete_account_sound listed listed plain 1 "pw" (some "123") sample

account_is_gone : (delete_account listed listed plain 1 "pw" (some "123") sample).0 ≡ ok tt
unfolding delete_account
account_is_gone = refl

reset_password_twice_example :
    (u : User) × In u (ann ∷ [])
    × (u.password_reset_token ≡ some "r1")
    × ((t : ℕ) × (u.password_reset_expires ≡ some t) × (100 < t))
    × ((reset_password listed listed plain "r1" "new" 0 100 sample).1.users.0
        ≡ map
            (λ (v : User).
              if v.id == u.id
              then record v {
                password = plain.bcrypt_hash 0 "new";
                password_reset_token = none;
                password_reset_expires = none;
              }
              else v)
            (ann ∷ []))
    × ((reset_password listed listed plain "r1" "new" 0 100 sample).1.sessions.0
        ≡ filter (λ s. not (s.user_id == u.id)) (laptop ∷ []))
    × ((reset_password listed listed plain "r1" "newer" 0 200
          (reset_password listed listed plain "r1" "new" 0 100 sample).1).0
        ≡ err (bad_request "Invalid or expired token"))
unfolding reset_password
reset_password_twice_example =
    reset_password_twice listed listed plain "r1" "new" 0 100 "newer" 0 200 sample (omega arith)
      refl
