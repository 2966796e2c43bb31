-- ===== src/Client/Stored.antt =====
-- client/src/lib/parseMetadata.ts: what the client shows of metadata that the server has stored.
use messenger_web_app.Prelude.{
  ℕ, zero, suc, ◌≤◌, ◌≡◌, refl, Bool, true, false, not, ◌&&◌, ◌||◌, Option, none, some, String,
  List, [], ◌∷◌, arith, ◌==◌, string_eq, leb, any, length, All,
}
use messenger_web_app.Prelude.Texts.{Text, codes, includes, starts_with, trim_codes}
use messenger_web_app.Metadata.{
  Numbers, Json, Fields, ValidatedMetadata, obj, valid, get, to_lower, to_fields, validate_fields,
  items_of, waveform_json, number_json, mime_json, encrypted_json, is_forbidden_text, with_field,
  after_audio, all_mime_chars, is_safe_audio_mime, max_waveform_points, max_duration_sec,
  max_destruct_sec,
}
use messenger_web_app.Metadata.Normal.{Each, IsPoint, InRange, IsNormal}
use messenger_web_app.Metadata.Again.{validate_fields-IsNormal, to_fields-Found}
use messenger_web_app.Client.ParsedMetadata.{
  client_forbidden_keys, default_mime_type, is_client_safe_mime, is_client_forbidden_text, has_own,
  shown_points, shown_waveform, shown_duration, shown_mime, shown_encrypted, shown_destruct,
  parse_fields, parse_metadata, with_defaults, or_default,
}

without_last :
    (f g h i j k : Bool)
    → not (f || g || h || i || j || k) ≡ true
    → not (f || g || h || i || j) ≡ true
without_last f g h i j k e = ground arith

fewer_tests :
    (a b x y c d : Bool)
    → (x ≡ true → y ≡ true)
    → (a && b && x && c && d) ≡ true
    → (a && b && y) ≡ true
fewer_tests true true true y c d f h = f refl
fewer_tests true true false y c d f h = cc
fewer_tests true false x y c d f h = cc
fewer_tests false b x y c d f h = cc

-- What the server takes for a safe type the client takes for one.
safe_mime : (s : Text) → is_safe_audio_mime s ≡ true → is_client_safe_mime s ≡ true
unfolding is_safe_audio_mime is_client_safe_mime
safe_mime s h =
    let t = trim_codes (to_lower s) in
    fewer_tests (starts_with (codes "audio/") t) (leb (length t) 100) (not (is_forbidden_text t))
      (not (is_client_forbidden_text t)) (leb 1 (length (after_audio t)))
      (all_mime_chars (after_audio t))
      (without_last (includes (codes "html") t) (includes (codes "javascript") t)
        (includes (codes "script") t) (includes (codes "<") t) (includes (codes ">") t)
        (includes (codes "data:") t))
      h

length-cons : (c : ℕ) (s : Text) → leb 1 (length (c ∷ s)) ≡ true
length-cons c s = ground arith

safe_mime-length : (s : Text) → is_safe_audio_mime s ≡ true → leb 1 (length s) ≡ true
unfolding is_safe_audio_mime trim_codes
safe_mime-length [] h = cc
safe_mime-length (c ∷ s) h = length-cons c s

module _ {N : Type 0} (n : Numbers N) (quiet : N) (read_number : Json N → N) where
  points_shown :
      (k : ℕ) (vs : List N)
      → length vs ≤ k
      → All (IsPoint n) vs
      → shown_points n quiet read_number k (items_of n vs) ≡ vs
  points_shown zero [] l a = refl
  points_shown zero (v ∷ vs) l a = absurd (omega arith)
  points_shown (suc k) [] l a = refl
  points_shown (suc k) (v ∷ vs) l (((f, _, _), c), a) = rw (f, c, points_shown k vs (omega arith) a)

  waveform_shown :
      (o : Option (List N))
      → Each n (λ vs. (length vs ≤ max_waveform_points) × All (IsPoint n) vs) o
      → shown_waveform n quiet read_number (waveform_json n o) ≡ or_default n quiet read_number o []
  waveform_shown none e = refl
  waveform_shown (some vs) (l, a) = points_shown max_waveform_points vs l a

  duration_shown :
      (o : Option N)
      → Each n (λ v. InRange n 0 max_duration_sec v × (n.round_thousandths v ≡ v)) o
      → shown_duration n quiet read_number (number_json n o)
        ≡ or_default n quiet read_number o (n.of_nat 0)
  duration_shown none e = refl
  duration_shown (some v) ((f, a, b), r) = rw (f, a, b) refl

  destruct_shown :
      (o : Option N)
      → Each n (λ v. InRange n 1 max_destruct_sec v × (n.round v ≡ v)) o
      → shown_destruct n quiet read_number (number_json n o) ≡ o
  destruct_shown none e = refl
  destruct_shown (some v) ((f, a, b), r) = rw (f, a, b, r) refl

  mime_shown :
      (o : Option Text)
      → Each n (λ s. (trim_codes s ≡ s) × (is_safe_audio_mime s ≡ true)) o
      → shown_mime n quiet read_number (mime_json n o)
        ≡ or_default n quiet read_number o default_mime_type
  mime_shown none e = refl
  mime_shown (some s) (t, a) = rw (t, safe_mime-length s a, safe_mime s a) refl

  encrypted_shown : (b : Bool) → shown_encrypted n quiet read_number (encrypted_json n b) ≡ b
  encrypted_shown false = refl
  encrypted_shown true = refl

  get_other :
      (k key : String) (o : Option (Json N)) (fs : Fields N)
      → (key == k) ≡ false
      → get n k (with_field n key o fs) ≡ get n k fs
  get_other k key none fs h = refl
  get_other k key (some v) fs h = rw h refl

  none_forbidden :
      (m : ValidatedMetadata N)
      → any (λ key. has_own n quiet read_number key (to_fields n m)) client_forbidden_keys ≡ false
  unfolding to_fields
  none_forbidden m = simp get_other

  parse_fields-to_fields :
      (m : ValidatedMetadata N)
      → IsNormal n m
      → parse_fields n quiet read_number (to_fields n m) ≡ with_defaults n quiet read_number m
  unfolding parse_fields with_defaults
  parse_fields-to_fields m v =
      let f = to_fields-Found n m in
      rw (
        none_forbidden m,
        f.waveform,
        f.duration,
        f.mime_type,
        f.encrypted,
        f.destruct,
        waveform_shown m.waveform v.waveform,
        duration_shown m.duration v.duration,
        mime_shown m.mime_type v.mime_type,
        encrypted_shown m.encrypted,
        destruct_shown m.destruct_after_seconds v.destruct,
      )

  -- The client shows what the server has accepted: of a text that holds the normal form of accepted
  -- metadata it reads every field as it was accepted, and its defaults for the fields that are absent.
  pub parse_metadata-stored :
      (parse : String → Option (Json N)) (raw : String) (fs : Fields N) (m : ValidatedMetadata N)
      → validate_fields n fs ≡ valid m
      → (raw == "") ≡ false
      → parse raw ≡ some (obj (to_fields n m))
      → parse_metadata n quiet read_number parse (some raw) ≡ with_defaults n quiet read_number m
  unfolding parse_metadata
  parse_metadata-stored parse raw fs m h filled holds =
      rw (filled, holds) (parse_fields-to_fields m (validate_fields-IsNormal n fs m h))
