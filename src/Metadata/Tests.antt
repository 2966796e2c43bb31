-- ===== src/Metadata/Tests.antt =====
-- metadata.validator.ts: the theorems at an input.
use messenger_web_app.Prelude.{◌≡◌, refl, some}
use messenger_web_app.Metadata.{
  Json, num, end, field, valid, invalid, validate_fields, to_fields, validate_json, check_waveform,
  check_duration, duration_too_long,
}
use messenger_web_app.Metadata.Normal.{IsNormal}
use messenger_web_app.Metadata.Again.{validate_fields-IsNormal, validate_fields_again}
use messenger_web_app.Metadata.Thousandths.{thousandths, voice, stored, accepts}

run_too_long :
    validate_json thousandths (some (Json.obj (field "duration" (num (some 10800001)) end)))
    ≡ invalid duration_too_long
unfolding validate_json check_waveform check_duration
run_too_long = refl

validate_fields-IsNormal_example : IsNormal thousandths stored
validate_fields-IsNormal_example = validate_fields-IsNormal thousandths voice stored accepts

validate_fields_again_example :
    validate_fields thousandths (to_fields thousandths stored) ≡ valid stored
validate_fields_again_example = validate_fields_again thousandths voice stored accepts
