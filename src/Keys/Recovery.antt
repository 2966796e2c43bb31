-- ===== src/Keys/Recovery.antt =====
-- keys.service.ts: when a recovery blob is overwritten.
use messenger_web_app.Prelude.{ℕ, ◌≡◌, refl, true, false, Option, some, String, arith, ok}
use messenger_web_app.Auth.{Crypto}
use messenger_web_app.Auth.TwoFactor.{code_matches}
use messenger_web_app.Keys.{
  Account, Client, Db, account_has_id, with_recovery_v2, check_reset, save_recovery_v2,
}

module _ {U P B : Type 0} (client : Client U P B) (c : Crypto) where
  -- Where an account has a second factor and the code does not match, a blob that is saved as a reset
  -- changes nothing, while one that is not called a reset overwrites the old blob.
  pub save_recovery_v2_guard :
      (user : ℕ) (blob : String) (code : Option String) (d : Db U P B) (a : Account)
      → client.users.find_first (account_has_id user) d.users ≡ some a
      → a.two_factor_enabled ≡ true
      → code_matches c code a.two_factor_secret ≡ false
      → ((save_recovery_v2 client c user blob true code d).1 ≡ d)
        × (save_recovery_v2 client c user blob false code d ≡ (
          ok user,
          record d {
            users = client.users.update_where (account_has_id user) (with_recovery_v2 blob) d.users;
          },
        ))
  unfolding save_recovery_v2 check_reset
  save_recovery_v2_guard user blob code d a e t m = (ground (arith, e), rw e refl)
