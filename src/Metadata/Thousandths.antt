-- ===== src/Metadata/Thousandths.antt =====
-- metadata.validator.ts: numbers in thousandths, with one that is infinite, and metadata in them.
use messenger_web_app.Prelude.{
  ℕ, ◌+◌, ◌*◌, ◌/◌, ◌≡◌, refl, Bool, true, false, Option, none, some, [], ◌∷◌, arith, ltb, is_some,
}
use messenger_web_app.Prelude.Texts.{codes, includes, trim_codes}
use messenger_web_app.Metadata.{
  Numbers, Fields, ValidatedMetadata, num, str, arr, nil, cons, end, field, valid, validate_fields,
  check_waveform, check_duration, check_mime, check_encrypted, check_destruct, is_safe_audio_mime,
}

-- Thousandths that are not negative; `none` is beyond all of them.
abbrev pub less : Option ℕ → Option ℕ → Bool
less none y = false
less (some a) none = true
less (some a) (some b) = ltb a b

abbrev pub whole : Option ℕ → Option ℕ
whole none = none
whole (some a) = some ((a + 500) / 1000 * 1000)

pub less_asym : (x y : Option ℕ) → less x y ≡ true → less y x ≡ false
less_asym none y h = cc
less_asym (some a) none h = refl
less_asym (some a) (some b) h = ground arith

pub of_nat_less : (m n : ℕ) → less (some (1000 * m)) (some (1000 * n)) ≡ ltb m n
of_nat_less m n = ground arith

pub whole_finite : (x : Option ℕ) → is_some x ≡ true → is_some (whole x) ≡ true
whole_finite none h = cc
whole_finite (some a) h = refl

pub whole_below :
    (x : Option ℕ) (n : ℕ)
    → less (some (1000 * n)) x ≡ false
    → less (some (1000 * n)) (whole x) ≡ false
whole_below none n h = cc
whole_below (some a) n h = ground arith

pub whole_above :
    (x : Option ℕ) (n : ℕ)
    → less x (some (1000 * n)) ≡ false
    → less (whole x) (some (1000 * n)) ≡ false
whole_above none n h = refl
whole_above (some a) n h = ground arith

pub whole_whole : (x : Option ℕ) → whole (whole x) ≡ whole x
whole_whole none = refl
whole_whole (some a) = ground arith

abbrev pub thousandths : Numbers (Option ℕ)
thousandths = record {
  is_finite = is_some;
  lt = less;
  of_nat = λ n. some (1000 * n);
  round = whole;
  round_thousandths = λ x. x;
  lt_asym = less_asym;
  of_nat_lt = λ m n _ _. of_nat_less m n;
  of_nat_finite = λ n _. refl;
  round_finite = whole_finite;
  round_below = whole_below;
  round_above = whole_above;
  round_round = whole_whole;
  thousandths_finite = λ x h _ _. h;
  thousandths_below = λ x n _ h. h;
  thousandths_above = λ x n _ h. h;
  thousandths_thousandths = λ x _ _. refl;
}

-- A voice message: one point is above the range, and the time to destruction is 1.6 seconds.
abbrev pub voice : Fields (Option ℕ)
voice = field "waveform" (arr (cons (num (some 250)) (cons (num (some 1700)) nil))) (
    field "mimeType" (str (codes " audio/webm "))
      (field "destructAfterSeconds" (num (some 1600)) end))

abbrev pub stored : ValidatedMetadata (Option ℕ)
stored = record {
  waveform = some (some 250 ∷ some 1000 ∷ []);
  duration = none;
  mime_type = some (codes "audio/webm");
  encrypted = false;
  destruct_after_seconds = some (some 2000);
}

pub accepts : validate_fields thousandths voice ≡ valid stored
unfolding validate_fields check_waveform check_duration check_mime check_encrypted check_destruct
    is_safe_audio_mime trim_codes includes
accepts = refl
