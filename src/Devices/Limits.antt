-- ===== src/Devices/Limits.antt =====
-- devices.service.ts: how many devices an account has, and what is known of their bundles.
use messenger_web_app.Prelude.{
  ℕ, ◌≤◌, ◌<◌, ◌≡◌, refl, Bool, true, false, not, Option, none, some, String, List, [], ◌∷◌, ◌++◌,
  ◌==◌, nat_eq, leb, map, count, count-append, count-filter-le, arith, All, All-append, All-filter,
  Bool-cases, inl, inr, length, is_some, Result, ok, err, gets, or_throw, ◌>>=◌, ◌>>◌, throw_if,
  modify, bad_request, not_found, ◌&&◌,
}
use messenger_web_app.Prelude.Store.{Table, rewrite}
use messenger_web_app.Devices.{
  Device, Ed25519, max_devices, bundle_bytes, is_owned_by, device_has_id, has_bundle, seen_at,
  new_device, is_signed, decode_b64_url, signing_key, verify_key_bundle, register_device,
  register_found, remove, touch,
}

count-seen_at :
    (user now : ℕ) (p : Device → Bool) (ds : List Device)
    → count (is_owned_by user) (map (rewrite p (seen_at now)) ds) ≡ count (is_owned_by user) ds
count-seen_at user now p [] = refl
count-seen_at user now p (d ∷ ds) = ground (arith, count-seen_at user now p ds)

All-seen_at :
    (P : String → Type 0) (now : ℕ) (p : Device → Bool) (ds : List Device)
    → All (λ d. P d.bundle) ds
    → All (λ d. P d.bundle) (map (rewrite p (seen_at now)) ds)
All-seen_at P now p [] a = tt
All-seen_at P now p (d ∷ ds) (h, a) = elim (Bool-cases (p d)) [
  | inl e ↦ rw e (h, All-seen_at P now p ds a)
  | inr e ↦ rw e (h, All-seen_at P now p ds a)
]

-- One device more for an account that has room.
count-snoc :
    (user other : ℕ) (d : Device) (ds : List Device)
    → d.user_id ≡ user
    → count (is_owned_by user) ds < max_devices
    → count (is_owned_by other) ds ≤ max_devices
    → count (is_owned_by other) (ds ++ d ∷ []) ≤ max_devices
count-snoc user other d ds e room h = ground (arith, count-append (is_owned_by other) ds (d ∷ []))

lt_of_room : (c n : ℕ) → n ≡ c → leb max_devices n ≡ false → c < max_devices
lt_of_room c n e h = ground arith

pub data Call : Type 0 where
  registers : ℕ → String → Option String → ℕ → Call
  removes : ℕ → ℕ → Call
  touches : ℕ → ℕ → Call

module _ {K S : Type 0} (ed : Ed25519 K) (devices : Table Device S) where
  unfoldable pub step : Call → S → S
  step (registers user bundle name now) s = (register_device ed devices user bundle name now s).1
  step (removes user id) s = (remove ed devices user id s).1
  step (touches id now) s = (touch ed devices id now s).1

  -- A bundle of the right length whose prekey is signed by its identity key.
  unfoldable pub is_verified : String → Bool
  is_verified text =
      length (decode_b64_url ed text) == bundle_bytes
      && is_signed ed (decode_b64_url ed text) (signing_key ed (decode_b64_url ed text))

  abbrev pub IsVerified : String → Type 0
  IsVerified text = is_verified text ≡ true

  verify_key_bundle-ok :
      (text : String) (s : S)
      → ((verify_key_bundle ed text s).1 ≡ s)
        × ((verify_key_bundle ed text s).0 ≡ ok tt → IsVerified text)
  unfolding verify_key_bundle is_verified
  verify_key_bundle-ok text s =
      let bytes = decode_b64_url ed text in
      elim (Bool-cases (length bytes == bundle_bytes)) [
        | inr e ↦ rw e (refl, λ h. cc)
        | inl e ↦ rw e (elim (Bool-cases (is_some (signing_key ed bytes))) [
          | inr k ↦ rw k (refl, λ h. cc)
          | inl k ↦ rw k (elim (Bool-cases (is_signed ed bytes (signing_key ed bytes))) [
            | inr g ↦ rw g (refl, λ h. cc)
            | inl g ↦ rw g (refl, λ h. refl)
          ])
        ])
      ]

  pub record IsSound (s : S) : Type 0 where
    pub at_most : (user : ℕ) → count (is_owned_by user) (devices.rows s) ≤ max_devices
    pub signed : All (λ d. IsVerified d.bundle) (devices.rows s)

  seen-IsSound :
      (now : ℕ) (p : Device → Bool) (s : S)
      → IsSound s
      → IsSound (devices.update_where p (seen_at now) s)
  seen-IsSound now p s v = record {
    at_most = λ user.
        rw (devices.rows-update_where p (seen_at now) s, count-seen_at user now p (devices.rows s))
          (v.at_most user);
    signed =
        rw (devices.rows-update_where p (seen_at now) s)
          (All-seen_at IsVerified now p (devices.rows s) v.signed);
  }

  new-IsSound :
      (user now : ℕ) (bundle : String) (name : Option String) (s : S)
      → count (is_owned_by user) (devices.rows s) < max_devices
      → IsVerified bundle
      → IsSound s
      → IsSound (devices.create (new_device user bundle name now) s)
  new-IsSound user now bundle name s room b v =
      let row = new_device user bundle name now (devices.next_id s) in
      record {
        at_most = λ other.
            rw (devices.rows-create (new_device user bundle name now) s)
              (count-snoc user other row (devices.rows s) refl room (v.at_most other));
        signed =
            rw (devices.rows-create (new_device user bundle name now) s)
              (All-append (λ d. IsVerified d.bundle) (devices.rows s) (row ∷ []) v.signed (b, tt));
      }

  register_found-IsSound :
      (user : ℕ) (bundle : String) (name : Option String) (now : ℕ) (found : Option Device) (s : S)
      → IsVerified bundle
      → IsSound s
      → IsSound (register_found ed devices user bundle name now found s).1
  register_found-IsSound user bundle name now (some d) s b v =
      seen-IsSound now (device_has_id d.id) s v
  register_found-IsSound user bundle name now none s b v =
      elim (Bool-cases (leb max_devices (devices.count_where (is_owned_by user) s))) [
        | inl full ↦ rw full v
        | inr room ↦ rw room (
            new-IsSound user now bundle name s
              (lt_of_room _ _ (devices.count_where_lem (is_owned_by user) s) room) b v)
      ]

  after_check :
      (user : ℕ) (bundle : String) (name : Option String) (now : ℕ) (r : Result (Unit {0}) × S)
      → (r.0 ≡ ok tt → IsVerified bundle)
      → IsSound r.1
      → IsSound
          (((λ _. r) >>= λ _. gets (devices.find_first (has_bundle user bundle)) >>= λ found.
              register_found ed devices user bundle name now found)
            r.1).1
  after_check user bundle name now (err e, s) h v = v
  after_check user bundle name now (ok tt, s) h v =
      register_found-IsSound user bundle name now _ s (h refl) v

  register_device-IsSound :
      (user : ℕ) (bundle : String) (name : Option String) (now : ℕ) (s : S)
      → IsSound s
      → IsSound (register_device ed devices user bundle name now s).1
  unfolding register_device
  register_device-IsSound user bundle name now s v =
      let (same, good) = verify_key_bundle-ok bundle s in
      after_check user bundle name now (verify_key_bundle ed bundle s) good (rw same v)

  remove_found :
      (user id : ℕ) (found : Option Device) (s : S)
      → IsSound s
      → IsSound
          ((or_throw found (not_found "Device not found") >>= λ d.
              throw_if (not (d.user_id == user)) (bad_request "Not your device")
              >> modify (devices.delete_where (device_has_id id)))
            s).1
  remove_found user id none s v = v
  remove_found user id (some d) s v = elim (Bool-cases (d.user_id == user)) [
    | inr e ↦ rw e v
    | inl e ↦ rw e (record {
      at_most = λ other. rw (devices.rows-delete_where (device_has_id id) s) (
          omega (
            arith,
            count-filter-le (is_owned_by other) (λ r. not (device_has_id id r)) (devices.rows s),
            v.at_most other,
          ));
      signed = rw (devices.rows-delete_where (device_has_id id) s) (
          All-filter (λ r. IsVerified r.bundle) (λ r. not (device_has_id id r)) (devices.rows s)
            v.signed);
    })
  ]

  remove-IsSound : (user id : ℕ) (s : S) → IsSound s → IsSound (remove ed devices user id s).1
  unfolding remove
  remove-IsSound user id s v = remove_found user id (devices.find_first (device_has_id id) s) s v

  -- No call of the service gives an account more than five devices, or stores a bundle whose length or
  -- signature is wrong.
  pub step-IsSound : (k : Call) (s : S) → IsSound s → IsSound (step k s)
  unfolding step touch
  step-IsSound (registers user bundle name now) s v =
      register_device-IsSound user bundle name now s v
  step-IsSound (removes user id) s v = remove-IsSound user id s v
  step-IsSound (touches id now) s v = seen-IsSound now (device_has_id id) s v
