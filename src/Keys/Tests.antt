-- ===== src/Keys/Tests.antt =====
-- keys.service.ts: an account with a second factor, and the theorem at its blob.
use messenger_web_app.Prelude.{
  ℕ, ◌≡◌, refl, true, false, none, some, List, [], ◌∷◌, ok, ◌==◌, string_eq,
}
use messenger_web_app.Prelude.Store.Listed.{listed}
use messenger_web_app.Auth.{Crypto}
use messenger_web_app.Keys.{Account, UserPublicKey, UserKeyBundle, Db, Client, save_recovery_v2}
use messenger_web_app.Keys.Recovery.{save_recovery_v2_guard}

abbrev toy : Crypto
toy = record {
  hash_token = λ s. s;
  bcrypt_hash = λ salt p. p;
  bcrypt_compare = λ p h. true;
  sign = λ payload expiry. "token";
  totp_check = λ code secret. code == secret;
  delivers = λ mail. true;
  bcrypt_compare_hash = λ salt p. refl;
}

abbrev client : Client (List Account × ℕ) (List UserPublicKey × ℕ) (List UserKeyBundle × ℕ)
client = record { users = listed; public_keys = listed; bundles = listed }

abbrev ann : Account
ann = record {
  id = 7;
  email = "ann@example.org";
  nickname = "Ann";
  two_factor_enabled = true;
  two_factor_secret = some "123456";
  encrypted_private_key = none;
  private_key_salt = none;
  encrypted_private_key_v2 = some "old";
}

abbrev store : Db (List Account × ℕ) (List UserPublicKey × ℕ) (List UserKeyBundle × ℕ)
store = record { users = (ann ∷ [], 8); public_keys = ([], 1); bundles = ([], 1) }

save_recovery_v2_guard_example :
    ((save_recovery_v2 client toy 7 "new" true (some "000000") store).1 ≡ store)
    × (save_recovery_v2 client toy 7 "new" false (some "000000") store ≡ (
      ok 7,
      record store { users = (record ann { encrypted_private_key_v2 = some "new" } ∷ [], 8) },
    ))
save_recovery_v2_guard_example =
    save_recovery_v2_guard client toy 7 "new" (some "000000") store ann refl refl refl
