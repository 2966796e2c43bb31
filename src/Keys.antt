-- ===== src/Keys.antt =====
-- server/src/keys/keys.service.ts: the published keys of an account and its recovery blobs.
mod Recovery
mod Tests
use messenger_web_app.Prelude.{
  ℕ, Bool, true, false, not, ◌&&◌, Option, none, some, String, ◌==◌, nat_eq, string_eq,
  if◌then◌else◌, Action, pure, gets, or_throw, ◌>>=◌, ◌>>◌, throw_if, modify, unauthorized,
  not_found, missing_record, is_some,
}
use messenger_web_app.Prelude.Store.{Table}
use messenger_web_app.Devices.{Ed25519, verify_key_bundle}
use messenger_web_app.Auth.{Crypto}
use messenger_web_app.Auth.TwoFactor.{code_matches, is_missing}

-- The columns of a user that the service reads and writes.
pub record Account : Type 0 where
  pub id : ℕ
  pub email : String
  pub nickname : String
  pub two_factor_enabled : Bool
  pub two_factor_secret : Option String
  pub encrypted_private_key : Option String
  pub private_key_salt : Option String
  pub encrypted_private_key_v2 : Option String

pub record UserPublicKey : Type 0 where
  pub user_id : ℕ
  pub public_key : String
  pub updated_at : ℕ

pub record UserKeyBundle : Type 0 where
  pub user_id : ℕ
  pub bundle : String
  pub updated_at : ℕ

pub record Db (U P B : Type 0) : Type 0 where
  pub users : U
  pub public_keys : P
  pub bundles : B

pub record Client (U P B : Type 0) : Type 0 where
  pub users : Table Account U
  pub public_keys : Table UserPublicKey P
  pub bundles : Table UserKeyBundle B

abbrev pub account_has_id : ℕ → Account → Bool
account_has_id id a = a.id == id

abbrev pub key_of : ℕ → UserPublicKey → Bool
key_of user k = k.user_id == user

abbrev pub bundle_of : ℕ → UserKeyBundle → Bool
bundle_of user b = b.user_id == user

abbrev pub with_recovery : String → String → Account → Account
with_recovery blob salt a = record a {
  encrypted_private_key = some blob;
  private_key_salt = some salt;
}

abbrev pub with_recovery_v2 : String → Account → Account
with_recovery_v2 blob a = record a { encrypted_private_key_v2 = some blob }

abbrev pub with_key : String → ℕ → UserPublicKey → UserPublicKey
with_key key now k = record k { public_key = key; updated_at = now }

abbrev pub with_bundle : String → ℕ → UserKeyBundle → UserKeyBundle
with_bundle bundle now b = record b { bundle = bundle; updated_at = now }

-- `RecoveryKey`; the salt is given with `!`.
pub record RecoveryKey : Type 0 where
  pub encrypted_blob : String
  pub salt : Option String

abbrev pub name_or_default : Option Account → String
name_or_default none = "Ваш контакт"
name_or_default (some a) = a.nickname

module _ {U P B : Type 0} (client : Client U P B) where
  abbrev pub find_account : ℕ → Action (Db U P B) (Option Account)
  find_account id = gets (λ d. client.users.find_first (account_has_id id) d.users)

  abbrev pub update_account : ℕ → (Account → Account) → Action (Db U P B) ℕ
  update_account id f = do
    there ← find_account id
    throw_if (not (is_some there)) missing_record
    modify (λ d. record d { users = client.users.update_where (account_has_id id) f d.users })
    pure id

  unfoldable pub publish_key : ℕ → String → ℕ → Action (Db U P B) (Unit {0})
  publish_key user key now = do
    there ← gets (λ d. client.public_keys.find_first (key_of user) d.public_keys)
    modify (λ d. record d {
      public_keys =
          if is_some there
          then client.public_keys.update_where (key_of user) (with_key key now) d.public_keys
          else client.public_keys.create
              (λ _. record { user_id = user; public_key = key; updated_at = now }) d.public_keys;
    })

  unfoldable pub get_key : ℕ → Action (Db U P B) UserPublicKey
  get_key user = do
    found ← gets (λ d. client.public_keys.find_first (key_of user) d.public_keys)
    or_throw found (not_found "Public key not found")

  -- The check of the second factor, which `saveRecoveryKey` and `saveRecoveryV2` share.
  unfoldable pub check_reset : Crypto → ℕ → Bool → Option String → Action (Db U P B) (Unit {0})
  check_reset c user is_reset code =
      if is_reset
      then (do
        found ← find_account user
        a ← or_throw found missing_record
        throw_if (a.two_factor_enabled && is_missing code) (unauthorized "Потрібен код 2FA")
        throw_if (a.two_factor_enabled && not (code_matches c code a.two_factor_secret))
            (unauthorized "Невірний код 2FA"))
      else pure tt

  unfoldable pub save_recovery_key :
      Crypto → ℕ → String → String → Bool → Option String → Action (Db U P B) ℕ
  unfolding check_reset
  save_recovery_key c user blob salt is_reset code = do
    check_reset c user is_reset code
    update_account user (with_recovery blob salt)

  unfoldable pub save_recovery_v2 : Crypto → ℕ → String → Bool → Option String → Action (Db U P B) ℕ
  unfolding check_reset
  save_recovery_v2 c user blob is_reset code = do
    check_reset c user is_reset code
    update_account user (with_recovery_v2 blob)

  abbrev pub blob_of : Option Account → Option String
  blob_of none = none
  blob_of (some a) = if is_missing a.encrypted_private_key then none else a.encrypted_private_key

  abbrev pub salt_of : Option Account → Option String
  salt_of none = none
  salt_of (some a) = a.private_key_salt

  abbrev pub blob_v2_of : Option Account → Option String
  blob_v2_of none = none
  blob_v2_of (some a) =
      if is_missing a.encrypted_private_key_v2 then none else a.encrypted_private_key_v2

  unfoldable pub get_recovery_key : ℕ → Action (Db U P B) RecoveryKey
  get_recovery_key user = do
    found ← find_account user
    blob ← or_throw (blob_of found) (not_found "No recovery key found")
    pure (record { encrypted_blob = blob; salt = salt_of found })

  unfoldable pub has_recovery_key : ℕ → Action (Db U P B) Bool
  has_recovery_key user = do found ← find_account user; pure (is_some (blob_of found))

  unfoldable pub publish_bundle_v2 :
      {K : Type 0} → Ed25519 K → ℕ → String → ℕ → Action (Db U P B) (Unit {0})
  unfolding verify_key_bundle
  publish_bundle_v2 ed user bundle now = do
    verify_key_bundle ed bundle
    there ← gets (λ d. client.bundles.find_first (bundle_of user) d.bundles)
    modify (λ d. record d {
      bundles =
          if is_some there
          then client.bundles.update_where (bundle_of user) (with_bundle bundle now) d.bundles
          else client.bundles.create
              (λ _. record { user_id = user; bundle = bundle; updated_at = now }) d.bundles;
    })

  unfoldable pub get_bundle_v2 : ℕ → Action (Db U P B) UserKeyBundle
  get_bundle_v2 user = do
    found ← gets (λ d. client.bundles.find_first (bundle_of user) d.bundles)
    or_throw found (not_found "V2 key bundle not found")

  unfoldable pub get_recovery_v2 : ℕ → Action (Db U P B) String
  get_recovery_v2 user = do
    found ← find_account user
    or_throw (blob_v2_of found) (not_found "No v2 recovery key found")

  -- The mail that goes out: the address, the name of its owner, and that of who asks.
  abbrev pub email_of : Option Account → Option String
  email_of none = none
  email_of (some a) = if a.email == "" then none else some a.email

  unfoldable pub notify_upgrade_v2 : ℕ → ℕ → Action (Db U P B) (String × String × String)
  notify_upgrade_v2 requester target = do
    from ← find_account requester
    to ← find_account target
    address ← or_throw (email_of to) (not_found "Target user not found")
    pure (address, name_or_default to, name_or_default from)
