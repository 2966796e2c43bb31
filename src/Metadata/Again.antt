-- ===== src/Metadata/Again.antt =====
-- metadata.validator.ts: metadata in normal form passes the validator unchanged.
use messenger_web_app.Prelude.{
  ℕ, suc, ◌≤◌, ◌≡◌, refl, Bool, true, false, Option, none, some, String, List, [], ◌∷◌, arith,
  if◌then◌else◌, length, All, ltb, ◌==◌, string_eq, any,
}
use messenger_web_app.Prelude.Texts.{Text, trim_codes}
use messenger_web_app.Metadata.{
  Numbers, Json, Fields, ValidatedMetadata, valid, forbidden_keys, allowed_keys, get,
  check_forbidden, check_known, length_items, points, check_waveform, check_duration, check_mime,
  check_encrypted, check_destruct, validate_fields, items_of, with_field, waveform_json,
  number_json, mime_json, encrypted_json, to_fields, max_waveform_points, max_duration_sec,
  max_destruct_sec, is_safe_audio_mime,
}
use messenger_web_app.Metadata.Normal.{
  >>=-eq-valid, Each, InRange, IsPoint, IsNormal, check_waveform-valid, check_duration-valid,
  check_mime-valid, check_destruct-valid,
}

module _ {N : Type 0} (n : Numbers N) where
  or_get : Option (Json N) → Option (Json N) → Option (Json N)
  or_get none o = o
  or_get (some v) o = some v

  or_get-none : (o : Option (Json N)) → or_get o none ≡ o
  unfolding or_get
  or_get-none none = refl
  or_get-none (some v) = refl

  get-with_field :
      (k key : String) (o : Option (Json N)) (fs : Fields N)
      → get n k (with_field n key o fs) ≡ (if key == k then or_get o (get n k fs) else get n k fs)
  unfolding or_get
  get-with_field k key none fs = ground arith
  get-with_field k key (some v) fs = ground arith

  check_forbidden-with_field :
      (key : String) (o : Option (Json N)) (fs : Fields N)
      → any (λ f. f == key) forbidden_keys ≡ false
      → check_forbidden n (with_field n key o fs) ≡ check_forbidden n fs
  unfolding check_forbidden
  check_forbidden-with_field key none fs h = refl
  check_forbidden-with_field key (some v) fs h = rw h

  check_known-with_field :
      (key : String) (o : Option (Json N)) (fs : Fields N)
      → any (λ f. f == key) allowed_keys ≡ true
      → check_known n (with_field n key o fs) ≡ check_known n fs
  unfolding check_known
  check_known-with_field key none fs h = refl
  check_known-with_field key (some v) fs h = rw h

  -- The fields of the normal form: no key is refused, and each is found.
  pub record Found (m : ValidatedMetadata N) : Type 0 where
    pub no_forbidden : check_forbidden n (to_fields n m) ≡ valid tt
    pub all_known : check_known n (to_fields n m) ≡ valid tt
    pub waveform : get n "waveform" (to_fields n m) ≡ waveform_json n m.waveform
    pub duration : get n "duration" (to_fields n m) ≡ number_json n m.duration
    pub mime_type : get n "mimeType" (to_fields n m) ≡ mime_json n m.mime_type
    pub encrypted : get n "encrypted" (to_fields n m) ≡ encrypted_json n m.encrypted
    pub destruct :
        get n "destructAfterSeconds" (to_fields n m) ≡ number_json n m.destruct_after_seconds

  pub to_fields-Found : (m : ValidatedMetadata N) → Found m
  unfolding to_fields check_forbidden check_known
  to_fields-Found m = record {
    no_forbidden = simp check_forbidden-with_field;
    all_known = simp check_known-with_field;
    waveform = simp (get-with_field, or_get-none);
    duration = simp (get-with_field, or_get-none);
    mime_type = simp (get-with_field, or_get-none);
    encrypted = simp (get-with_field, or_get-none);
    destruct = simp (get-with_field, or_get-none);
  }

  length-items_of : (vs : List N) → length_items n (items_of n vs) ≡ length vs
  length-items_of [] = refl
  length-items_of (v ∷ vs) = omega (arith, length-items_of vs)

  points-items_of :
      (i : ℕ) (vs : List N) → All (IsPoint n) vs → points n i (items_of n vs) ≡ valid vs
  unfolding points
  points-items_of i [] a = refl
  points-items_of i (v ∷ vs) (((f, _, _), c), a) = rw (f, c, points-items_of (suc i) vs a)

  waveform_again :
      (o : Option (List N))
      → Each n (λ vs. (length vs ≤ max_waveform_points) × All (IsPoint n) vs) o
      → check_waveform n (waveform_json n o) ≡ valid o
  unfolding check_waveform
  waveform_again none e = refl
  waveform_again (some vs) (l, a) =
      let short : ltb max_waveform_points (length_items n (items_of n vs)) ≡ false =
        ground (arith, length-items_of vs) in
      rw (short, points-items_of 0 vs a)

  duration_again :
      (o : Option N)
      → Each n (λ v. InRange n 0 max_duration_sec v × (n.round_thousandths v ≡ v)) o
      → check_duration n (number_json n o) ≡ valid o
  unfolding check_duration
  duration_again none e = refl
  duration_again (some v) ((f, a, b), r) = rw (f, a, b, r)

  destruct_again :
      (o : Option N)
      → Each n (λ v. InRange n 1 max_destruct_sec v × (n.round v ≡ v)) o
      → check_destruct n (number_json n o) ≡ valid o
  unfolding check_destruct
  destruct_again none e = refl
  destruct_again (some v) ((f, a, b), r) = rw (f, a, b, r)

  mime_again :
      (o : Option Text)
      → Each n (λ s. (trim_codes s ≡ s) × (is_safe_audio_mime s ≡ true)) o
      → check_mime n (mime_json n o) ≡ valid o
  unfolding check_mime
  mime_again none e = refl
  mime_again (some s) (t, a) = rw (t, a)

  encrypted_again : (b : Bool) → check_encrypted n (encrypted_json n b) ≡ valid b
  unfolding check_encrypted
  encrypted_again false = refl
  encrypted_again true = refl

  -- What the validator accepts is in range: at most 2000 points from 0 to 1, a duration of at most
  -- three hours, a time to destruction from a second to a week, and an audio type that is trimmed
  -- and safe.
  pub validate_fields-IsNormal :
      (fs : Fields N) (m : ValidatedMetadata N) → validate_fields n fs ≡ valid m → IsNormal n m
  unfolding validate_fields
  validate_fields-IsNormal fs m h =
      let (_, _, h1) = >>=-eq-valid (check_forbidden n fs) _ h in
      let (_, _, h2) = >>=-eq-valid (check_known n fs) _ h1 in
      let (w, pw, h3) = >>=-eq-valid (check_waveform n (get n "waveform" fs)) _ h2 in
      let (d, pd, h4) = >>=-eq-valid (check_duration n (get n "duration" fs)) _ h3 in
      let (t, pt, h5) = >>=-eq-valid (check_mime n (get n "mimeType" fs)) _ h4 in
      let (b, pb, h6) = >>=-eq-valid (check_encrypted n (get n "encrypted" fs)) _ h5 in
      let (e, pe, h7) = >>=-eq-valid (check_destruct n (get n "destructAfterSeconds" fs)) _ h6 in
      let made : ValidatedMetadata N = record {
        waveform = w;
        duration = d;
        mime_type = t;
        encrypted = b;
        destruct_after_seconds = e;
      } in
      let same : made ≡ m = cc in
      rw (← same) (record {
        waveform = check_waveform-valid n (get n "waveform" fs) w pw;
        duration = check_duration-valid n (get n "duration" fs) d pd;
        mime_type = check_mime-valid n (get n "mimeType" fs) t pt;
        destruct = check_destruct-valid n (get n "destructAfterSeconds" fs) e pe;
      })

  -- The object that is stored for accepted metadata is accepted again, and gives the same metadata.
  pub validate_fields_again :
      (fs : Fields N) (m : ValidatedMetadata N)
      → validate_fields n fs ≡ valid m
      → validate_fields n (to_fields n m) ≡ valid m
  unfolding validate_fields
  validate_fields_again fs m h =
      let v = validate_fields-IsNormal fs m h in
      let f = to_fields-Found m in
      rw (
        f.no_forbidden,
        f.all_known,
        f.waveform,
        f.duration,
        f.mime_type,
        f.encrypted,
        f.destruct,
        waveform_again m.waveform v.waveform,
        duration_again m.duration v.duration,
        mime_again m.mime_type v.mime_type,
        encrypted_again m.encrypted,
        destruct_again m.destruct_after_seconds v.destruct,
      )
