-- ===== src/Client/ParsedMetadata.antt =====
-- client/src/lib/parseMetadata.ts: the metadata of a message as the client shows it. `JSON.parse`, the
-- arithmetic of numbers, and the number that `parseFloat(String(v))` reads are arguments.
use messenger_web_app.Prelude.{
  ℕ, zero, suc, Bool, false, not, ◌&&◌, ◌||◌, Option, none, some, String, List, [], ◌∷◌, ◌==◌,
  string_eq, leb, any, length, if◌then◌else◌, is_some,
}
use messenger_web_app.Prelude.Texts.{Text, codes, includes, starts_with, trim_codes}
use messenger_web_app.Metadata.{
  Numbers, Json, Items, Fields, ValidatedMetadata, bool, num, str, arr, obj, nil, cons, get, clamp,
  to_lower, max_waveform_points,
}

pub record MessageMetadata (N : Type 0) : Type 0 where
  pub waveform : List N
  pub duration : N
  pub mime_type : Text
  pub encrypted : Bool
  pub destruct_after_seconds : Option N

abbrev pub client_forbidden_keys : List String
client_forbidden_keys = "__proto__" ∷ "constructor" ∷ "prototype" ∷ "toString" ∷ "valueOf" ∷ []

abbrev pub default_mime_type : Text
default_mime_type = codes "audio/webm"

-- `isSafeAudioMime` of the client: it does not look at the alphabet.
abbrev pub is_client_forbidden_text : Text → Bool
is_client_forbidden_text s =
    includes (codes "html") s
    || includes (codes "javascript") s
    || includes (codes "script") s
    || includes (codes "<") s
    || includes (codes ">") s

unfoldable pub is_client_safe_mime : Text → Bool
unfolding includes trim_codes
is_client_safe_mime mime =
    let normalized = trim_codes (to_lower mime) in
    starts_with (codes "audio/") normalized
    && leb (length normalized) 100
    && not (is_client_forbidden_text normalized)

-- `quiet` is 0.05, and `read_number` is `parseFloat(String(v))` of what is no number.
module _ {N : Type 0} (n : Numbers N) (quiet : N) (read_number : Json N → N) where
  abbrev pub number_of : Json N → N
  number_of (num v) = v
  number_of j = read_number j

  abbrev pub has_own : String → Fields N → Bool
  has_own key fs = is_some (get n key fs)

  abbrev pub shown_point : Json N → N
  shown_point j = if n.is_finite (number_of j) then clamp n (number_of j) else quiet

  -- `slice(0, k)` and `map`
  abbrev pub shown_points : ℕ → Items N → List N
  shown_points zero xs = []
  shown_points (suc k) nil = []
  shown_points (suc k) (cons x xs) = shown_point x ∷ shown_points k xs

  abbrev pub shown_waveform : Option (Json N) → List N
  shown_waveform (some (arr xs)) = shown_points max_waveform_points xs
  shown_waveform _ = []

  abbrev pub is_between : ℕ → ℕ → N → Bool
  is_between a b v = n.is_finite v && not (n.lt v (n.of_nat a)) && not (n.lt (n.of_nat b) v)

  abbrev pub shown_duration : Option (Json N) → N
  shown_duration none = n.of_nat 0
  shown_duration (some j) = if is_between 0 10800 (number_of j) then number_of j else n.of_nat 0

  abbrev pub shown_mime : Option (Json N) → Text
  shown_mime (some (str s)) =
      if leb 1 (length (trim_codes s)) && is_client_safe_mime (trim_codes s)
      then trim_codes s
      else default_mime_type
  shown_mime _ = default_mime_type

  abbrev pub shown_encrypted : Option (Json N) → Bool
  shown_encrypted (some (bool b)) = b
  shown_encrypted _ = false

  abbrev pub shown_destruct : Option (Json N) → Option N
  shown_destruct none = none
  shown_destruct (some j) =
      if is_between 1 604800 (number_of j) then some (n.round (number_of j)) else none

  abbrev pub defaults : MessageMetadata N
  defaults = record {
    waveform = [];
    duration = n.of_nat 0;
    mime_type = default_mime_type;
    encrypted = false;
    destruct_after_seconds = none;
  }

  unfoldable pub parse_fields : Fields N → MessageMetadata N
  parse_fields fs = if any (λ key. has_own key fs) client_forbidden_keys then defaults else record {
    waveform = shown_waveform (get n "waveform" fs);
    duration = shown_duration (get n "duration" fs);
    mime_type = shown_mime (get n "mimeType" fs);
    encrypted = shown_encrypted (get n "encrypted" fs);
    destruct_after_seconds = shown_destruct (get n "destructAfterSeconds" fs);
  }

  abbrev pub parse_value : Option (Json N) → MessageMetadata N
  parse_value (some (obj fs)) = parse_fields fs
  parse_value _ = defaults

  unfoldable pub parse_metadata : (String → Option (Json N)) → Option String → MessageMetadata N
  unfolding parse_fields
  parse_metadata parse none = defaults
  parse_metadata parse (some raw) = if raw == "" then defaults else parse_value (parse raw)

  -- The metadata that the server stores, with the defaults of the client for what is absent.
  abbrev pub or_default : {A : Type 0} → Option A → A → A
  or_default none a = a
  or_default (some b) a = b

  unfoldable pub with_defaults : ValidatedMetadata N → MessageMetadata N
  with_defaults m = record {
    waveform = or_default m.waveform [];
    duration = or_default m.duration (n.of_nat 0);
    mime_type = or_default m.mime_type default_mime_type;
    encrypted = m.encrypted;
    destruct_after_seconds = m.destruct_after_seconds;
  }
