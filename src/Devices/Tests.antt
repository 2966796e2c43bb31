-- ===== src/Devices/Tests.antt =====
-- devices.service.ts: a toy scheme of signatures, and the theorem at a call.
use messenger_web_app.Prelude.{ℕ, ◌≡◌, refl, true, none, some, List, [], arith, ok}
use messenger_web_app.Prelude.Texts.{replicate}
use messenger_web_app.Prelude.Store.Listed.{listed}
use messenger_web_app.Devices.{Ed25519, register_device, verify_key_bundle}
use messenger_web_app.Devices.Limits.{IsSound, step, registers, step-IsSound}

-- Every text stands for the same bytes, and every signature is good.
abbrev toy : Ed25519 (List ℕ)
toy = record {
  from_base64 = λ text. replicate 161 7;
  create_public_key = λ bytes. some bytes;
  verify = λ message key signature. true;
}

empty-IsSound : IsSound toy listed ([], 1)
empty-IsSound = record { at_most = λ user. omega arith; signed = tt }

-- The same bundle again: the same device.
run_again :
    let first = register_device toy listed 4 "bundle" none 100 ([], 1) in
    (register_device toy listed 4 "bundle" none 200 first.1).0 ≡ ok 1
unfolding register_device verify_key_bundle
run_again = refl

step-IsSound_example : IsSound toy listed (step toy listed (registers 4 "bundle" none 100) ([], 1))
step-IsSound_example = step-IsSound toy listed (registers 4 "bundle" none 100) ([], 1) empty-IsSound
