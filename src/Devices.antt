-- ===== src/Devices.antt =====
-- server/src/common/verify-bundle.ts and server/src/devices/devices.service.ts: the devices of an
-- account, each with the bundle of its keys.
mod Limits
mod Tests
use messenger_web_app.Prelude.{
  ℕ, ◌+◌, ◌-◌, ◌*◌, Bool, true, false, not, ◌&&◌, Option, none, some, String, List, [], ◌∷◌, ◌++◌,
  ◌==◌, nat_eq, string_eq, leb, map, length, if◌then◌else◌, Action, pure, gets, or_throw, ◌>>=◌,
  ◌>>◌, throw_if, modify, bad_request, not_found, missing_record, is_some,
}
use messenger_web_app.Prelude.Store.{Table}
use messenger_web_app.Prelude.Texts.{Text, codes, take, drop}

abbrev pub max_devices : ℕ
max_devices = 5

abbrev pub bundle_bytes : ℕ
bundle_bytes = 161

-- The header of a key in DER.
abbrev pub ed25519_spki_header : List ℕ
ed25519_spki_header =
    0x30 ∷ 0x2a ∷ 0x30 ∷ 0x05 ∷ 0x06 ∷ 0x03 ∷ 0x2b ∷ 0x65 ∷ 0x70 ∷ 0x03 ∷ 0x21 ∷ 0x00 ∷ []

-- What the platform gives: `Buffer.from(s, 'base64')`, `createPublicKey`, which throws where there is
-- no key, and `verify` of a message by a key and a signature.
pub record Ed25519 (K : Type 0) : Type 0 where
  pub from_base64 : Text → List ℕ
  pub create_public_key : List ℕ → Option K
  pub verify : List ℕ → K → List ℕ → Bool

abbrev pub to_base64_char : ℕ → ℕ
to_base64_char c = if c == b'-' then b'+' else (if c == b'_' then b'/' else c)

-- `subarray(from, to)`
abbrev pub subarray : ℕ → ℕ → List ℕ → List ℕ
subarray from to xs = take (to - from) (drop from xs)

abbrev pub is_signed : {K : Type 0} → Ed25519 K → List ℕ → Option K → Bool
is_signed ed bundle none = false
is_signed ed bundle (some key) = ed.verify (subarray 64 96 bundle) key (subarray 96 160 bundle)

pub record Device : Type 0 where
  pub id : ℕ
  pub user_id : ℕ
  pub bundle : String
  pub device_name : Option String
  pub created_at : ℕ
  pub last_seen_at : ℕ

abbrev pub is_owned_by : ℕ → Device → Bool
is_owned_by user d = d.user_id == user

abbrev pub device_has_id : ℕ → Device → Bool
device_has_id id d = d.id == id

abbrev pub has_bundle : ℕ → String → Device → Bool
has_bundle user bundle d = d.user_id == user && d.bundle == bundle

abbrev pub seen_at : ℕ → Device → Device
seen_at now d = record d { last_seen_at = now }

abbrev pub new_device : ℕ → String → Option String → ℕ → ℕ → Device
new_device user bundle name now id = record {
  id = id;
  user_id = user;
  bundle = bundle;
  device_name = name;
  created_at = now;
  last_seen_at = now;
}

module _ {K : Type 0} (ed : Ed25519 K) where
  unfoldable pub decode_b64_url : String → List ℕ
  decode_b64_url s = ed.from_base64 (map to_base64_char (codes s))

  abbrev pub signing_key : List ℕ → Option K
  signing_key bundle = ed.create_public_key (ed25519_spki_header ++ subarray 0 32 bundle)

  unfoldable pub verify_key_bundle : {S : Type 0} → String → Action S (Unit {0})
  unfolding decode_b64_url
  verify_key_bundle text = do
    throw_if (not (length (decode_b64_url text) == bundle_bytes))
        (bad_request "Invalid bundle length")
    throw_if (not (is_some (signing_key (decode_b64_url text))))
        (bad_request "Invalid identity signing key in bundle")
    throw_if (not (is_signed ed (decode_b64_url text) (signing_key (decode_b64_url text))))
        (bad_request "Bundle signature verification failed")

  module _ {S : Type 0} (devices : Table Device S) where
    -- The part of `register_device` after its search.
    abbrev pub register_new : ℕ → String → Option String → ℕ → Action S ℕ
    register_new user bundle name now = do
      count ← gets (devices.count_where (is_owned_by user))
      throw_if (leb max_devices count) (bad_request "Maximum 5 devices per account")
      id ← gets devices.next_id
      modify (devices.create (new_device user bundle name now))
      pure id

    abbrev pub register_found : ℕ → String → Option String → ℕ → Option Device → Action S ℕ
    register_found user bundle name now none = register_new user bundle name now
    register_found user bundle name now (some d) = do
      modify (devices.update_where (device_has_id d.id) (seen_at now))
      pure d.id

    unfoldable pub register_device : ℕ → String → Option String → ℕ → Action S ℕ
    register_device user bundle name now = do
      verify_key_bundle bundle
      existing ← gets (devices.find_first (has_bundle user bundle))
      register_found user bundle name now existing

    unfoldable pub list_mine : ℕ → Action S (List Device)
    list_mine user = gets (devices.find_sorted (λ d. d.created_at) (is_owned_by user))

    unfoldable pub remove : ℕ → ℕ → Action S (Unit {0})
    remove user id = do
      found ← gets (devices.find_first (device_has_id id))
      d ← or_throw found (not_found "Device not found")
      throw_if (not (d.user_id == user)) (bad_request "Not your device")
      modify (devices.delete_where (device_has_id id))

    unfoldable pub touch : ℕ → ℕ → Action S (Unit {0})
    touch id now = modify (devices.update_where (device_has_id id) (seen_at now))

    unfoldable pub get_bundle : ℕ → Action S (Option (ℕ × String))
    get_bundle id = do
      found ← gets (devices.find_first (device_has_id id))
      pure (elim found [ none ↦ none | some d ↦ some (d.id, d.bundle) ])
