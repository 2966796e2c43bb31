-- ===== src/Metadata.antt =====
-- server/src/conversations/metadata.validator.ts: the check and the normal form of a message's metadata. The
-- parser of JSON and the arithmetic of floating-point numbers are arguments.
mod Trimming
pub mod Normal
pub mod Again
pub mod Thousandths
mod Tests
use Prim.Native.Char.{code}
use messenger_web_app.Prelude.{
  ℕ, zero, suc, ◌+◌, ◌*◌, ◌≤◌, ◌≡◌, Bool, true, false, not, ◌&&◌, ◌||◌, Option, none, some, String,
  List, [], ◌∷◌, ◌++◌, ◌==◌, string_eq, nat_eq, leb, ltb, any, map, length, if◌then◌else◌, lookup,
  Map, is_some,
}
use messenger_web_app.Prelude.Texts.{
  Text, codes, text_eq, starts_with, includes, is_white, trim_codes, is_digit,
}

abbrev pub max_metadata_bytes : ℕ
max_metadata_bytes = 64 * 1024

abbrev pub max_waveform_points : ℕ
max_waveform_points = 2000

abbrev pub max_duration_sec : ℕ
max_duration_sec = 3 * 3600

abbrev pub max_destruct_sec : ℕ
max_destruct_sec = 7 * 24 * 3600

-- The arithmetic of numbers that the validator uses, with what it promises: an order, and rounding
-- that keeps to whole bounds and changes nothing the second time. What is said of thousandths holds
-- of the numbers up to the longest duration only: larger ones lose digits when multiplied.
pub record Numbers (N : Type 0) : Type 0 where
  pub is_finite : N → Bool
  pub lt : N → N → Bool
  pub of_nat : ℕ → N
  -- `Math.round(x)` and `Math.round(x * 1000) / 1000`
  pub round : N → N
  pub round_thousandths : N → N
  pub lt_asym : (x y : N) → lt x y ≡ true → lt y x ≡ false
  pub of_nat_lt :
      (m n : ℕ) → m ≤ max_destruct_sec → n ≤ max_destruct_sec → lt (of_nat m) (of_nat n) ≡ ltb m n
  pub of_nat_finite : (n : ℕ) → n ≤ max_destruct_sec → is_finite (of_nat n) ≡ true
  pub round_finite : (x : N) → is_finite x ≡ true → is_finite (round x) ≡ true
  pub round_below : (x : N) (n : ℕ) → lt (of_nat n) x ≡ false → lt (of_nat n) (round x) ≡ false
  pub round_above : (x : N) (n : ℕ) → lt x (of_nat n) ≡ false → lt (round x) (of_nat n) ≡ false
  pub round_round : (x : N) → round (round x) ≡ round x
  pub thousandths_finite :
      (x : N)
      → is_finite x ≡ true
      → lt x (of_nat 0) ≡ false
      → lt (of_nat max_duration_sec) x ≡ false
      → is_finite (round_thousandths x) ≡ true
  pub thousandths_below :
      (x : N) (n : ℕ)
      → n ≤ max_duration_sec
      → lt (of_nat n) x ≡ false
      → lt (of_nat n) (round_thousandths x) ≡ false
  pub thousandths_above :
      (x : N) (n : ℕ)
      → n ≤ max_duration_sec
      → lt x (of_nat n) ≡ false
      → lt (round_thousandths x) (of_nat n) ≡ false
  pub thousandths_thousandths :
      (x : N)
      → lt x (of_nat 0) ≡ false
      → lt (of_nat max_duration_sec) x ≡ false
      → round_thousandths (round_thousandths x) ≡ round_thousandths x

-- What `JSON.parse` gives. An object's fields have distinct keys.
mutual
  pub data Json (N : Type 0) : Type 0 where
    null : Json N
    bool : Bool → Json N
    num : N → Json N
    str : Text → Json N
    arr : Items N → Json N
    obj : Fields N → Json N

  pub data Items (N : Type 0) : Type 0 where
    nil : Items N
    cons : Json N → Items N → Items N

  pub data Fields (N : Type 0) : Type 0 where
    end : Fields N
    field : String → Json N → Fields N → Fields N

pub record ValidatedMetadata (N : Type 0) : Type 0 where
  pub waveform : Option (List N)
  pub duration : Option N
  pub mime_type : Option Text
  -- `true` or absent.
  pub encrypted : Bool
  pub destruct_after_seconds : Option N

pub data MetadataError : Type 0 where
  too_large invalid_json not_an_object : MetadataError
  forbidden_key unknown_field : String → MetadataError
  waveform_no_array waveform_too_long : MetadataError
  waveform_point : ℕ → MetadataError
  duration_no_number duration_too_long : MetadataError
  mime_no_string : MetadataError
  mime_unsafe : Text → MetadataError
  encrypted_no_bool destruct_no_number destruct_too_long : MetadataError

pub data Checked (A : Type 0) : Type 0 where
  valid : A → Checked A
  invalid : MetadataError → Checked A

infixl 5 ◌>>=◌ ◌>>◌
abbrev pub ◌>>=◌ : {A B : Type 0} → Checked A → (A → Checked B) → Checked B
valid a >>= f = f a
invalid e >>= f = invalid e

abbrev pub ◌>>◌ : {B : Type 0} → Checked (Unit {0}) → Checked B → Checked B
m >> k = m >>= λ _. k

abbrev pub forbidden_keys : List String
forbidden_keys =
    "__proto__" ∷ "constructor" ∷ "prototype" ∷ "toString" ∷ "valueOf" ∷ "hasOwnProperty"
    ∷ "isPrototypeOf" ∷ []

abbrev pub allowed_keys : List String
allowed_keys = "waveform" ∷ "duration" ∷ "mimeType" ∷ "encrypted" ∷ "destructAfterSeconds" ∷ []

-- `toLowerCase`, as far as the checks here can tell: besides the capitals of ASCII only the Kelvin sign
-- and the dotted capital I give letters of ASCII, and the second is the only one that gives two codes.
abbrev pub to_lower : Text → Text
to_lower [] = []
to_lower (c ∷ s) =
    let rest = to_lower s in
    if leb 65 c && leb c 90
    then (c + 32) ∷ rest
    else (if c == 8490 then 107 ∷ rest else (if c == 304 then 105 ∷ 775 ∷ rest else c ∷ rest))

-- `[a-z0-9+\-;=\s\."]`, and the slash of the prefix.
abbrev pub is_mime_char : ℕ → Bool
is_mime_char c =
    (leb 97 c && leb c 122)
    || is_digit c
    || c == b'+'
    || c == b'-'
    || c == b';'
    || c == b'='
    || is_white c
    || c == b'.'
    || c == b'"'

abbrev pub all_mime_chars : Text → Bool
all_mime_chars [] = true
all_mime_chars (c ∷ s) = is_mime_char c && all_mime_chars s

-- `^audio\/[a-z0-9+\-;=\s\."]+$`
abbrev pub after_audio : Text → Text
after_audio (_ ∷ _ ∷ _ ∷ _ ∷ _ ∷ _ ∷ s) = s
after_audio _ = []

abbrev pub is_forbidden_text : Text → Bool
is_forbidden_text s =
    includes (codes "html") s
    || includes (codes "javascript") s
    || includes (codes "script") s
    || includes (codes "<") s
    || includes (codes ">") s
    || includes (codes "data:") s

unfoldable pub is_safe_audio_mime : Text → Bool
unfolding includes trim_codes
is_safe_audio_mime mime =
    let normalized = trim_codes (to_lower mime) in
    starts_with (codes "audio/") normalized
    && leb (length normalized) 100
    && not (is_forbidden_text normalized)
    && leb 1 (length (after_audio normalized))
    && all_mime_chars (after_audio normalized)

module _ {N : Type 0} (n : Numbers N) where
  abbrev pub get : String → Fields N → Option (Json N)
  get key end = none
  get key (field k v fs) = if k == key then some v else get key fs

  -- The first key in the list of those that are not allowed, and the first that is not known.
  unfoldable pub check_forbidden : Fields N → Checked (Unit {0})
  check_forbidden end = valid tt
  check_forbidden (field k v fs) =
      if any (λ f. f == k) forbidden_keys then invalid (forbidden_key k) else check_forbidden fs

  unfoldable pub check_known : Fields N → Checked (Unit {0})
  check_known end = valid tt
  check_known (field k v fs) =
      if any (λ f. f == k) allowed_keys then check_known fs else invalid (unknown_field k)

  abbrev pub length_items : Items N → ℕ
  length_items nil = 0
  length_items (cons x xs) = suc (length_items xs)

  -- `Math.min(1, Math.max(0, v))`
  abbrev pub clamp : N → N
  clamp v =
      let w = if n.lt (n.of_nat 0) v then v else n.of_nat 0 in
      if n.lt w (n.of_nat 1) then w else n.of_nat 1

  abbrev pub point : ℕ → Json N → Checked N
  point i (num v) = if n.is_finite v then valid (clamp v) else invalid (waveform_point i)
  point i _ = invalid (waveform_point i)

  unfoldable pub points : ℕ → Items N → Checked (List N)
  points i nil = valid []
  points i (cons x xs) = do v ← point i x; vs ← points (suc i) xs; valid (v ∷ vs)

  unfoldable pub check_waveform : Option (Json N) → Checked (Option (List N))
  unfolding points
  check_waveform none = valid none
  check_waveform (some (arr xs)) =
      if ltb max_waveform_points (length_items xs)
      then invalid waveform_too_long
      else (points 0 xs >>= λ vs. valid (some vs))
  check_waveform (some _) = invalid waveform_no_array

  unfoldable pub check_duration : Option (Json N) → Checked (Option N)
  check_duration none = valid none
  check_duration (some (num v)) =
      if not (n.is_finite v) || n.lt v (n.of_nat 0)
      then invalid duration_no_number
      else (if n.lt (n.of_nat max_duration_sec) v
          then invalid duration_too_long
          else valid (some (n.round_thousandths v)))
  check_duration (some _) = invalid duration_no_number

  unfoldable pub check_mime : Option (Json N) → Checked (Option Text)
  unfolding trim_codes
  check_mime none = valid none
  check_mime (some (str s)) =
      if is_safe_audio_mime (trim_codes s)
      then valid (some (trim_codes s))
      else invalid (mime_unsafe s)
  check_mime (some _) = invalid mime_no_string

  unfoldable pub check_encrypted : Option (Json N) → Checked Bool
  check_encrypted none = valid false
  check_encrypted (some (bool b)) = valid b
  check_encrypted (some _) = invalid encrypted_no_bool

  unfoldable pub check_destruct : Option (Json N) → Checked (Option N)
  check_destruct none = valid none
  check_destruct (some (num v)) =
      if not (n.is_finite v) || n.lt v (n.of_nat 1)
      then invalid destruct_no_number
      else (if n.lt (n.of_nat max_destruct_sec) v
          then invalid destruct_too_long
          else valid (some (n.round v)))
  check_destruct (some _) = invalid destruct_no_number

  -- `Object.keys(result).length === 0`
  abbrev pub holds_nothing : ValidatedMetadata N → Bool
  holds_nothing m =
      not (is_some m.waveform)
      && not (is_some m.duration)
      && not (is_some m.mime_type)
      && not m.encrypted
      && not (is_some m.destruct_after_seconds)

  abbrev pub unless_empty : ValidatedMetadata N → Option (ValidatedMetadata N)
  unless_empty m = if holds_nothing m then none else some m

  unfoldable pub validate_fields : Fields N → Checked (ValidatedMetadata N)
  unfolding check_forbidden check_known
  validate_fields fs = do
    check_forbidden fs
    check_known fs
    waveform ← check_waveform (get "waveform" fs)
    duration ← check_duration (get "duration" fs)
    mime_type ← check_mime (get "mimeType" fs)
    encrypted ← check_encrypted (get "encrypted" fs)
    destruct ← check_destruct (get "destructAfterSeconds" fs)
    valid (record {
      waveform = waveform;
      duration = duration;
      mime_type = mime_type;
      encrypted = encrypted;
      destruct_after_seconds = destruct;
    })

  unfoldable pub validate_json : Option (Json N) → Checked (Option (ValidatedMetadata N))
  unfolding validate_fields
  validate_json none = invalid invalid_json
  validate_json (some (obj fs)) = validate_fields fs >>= λ m. valid (unless_empty m)
  validate_json (some _) = invalid not_an_object

  -- The bytes of a character in UTF-8.
  abbrev pub width : ℕ → ℕ
  width c = if ltb c 128 then 1 else (if ltb c 2048 then 2 else (if ltb c 65536 then 3 else 4))

  abbrev pub byte_length : String → ℕ
  byte_length String.[] = 0
  byte_length (String.◌∷◌ c s) = width (code c) + byte_length s

  -- The object that `JSON.stringify` is given.
  abbrev pub items_of : List N → Items N
  items_of [] = nil
  items_of (v ∷ vs) = cons (num v) (items_of vs)

  abbrev pub with_field : String → Option (Json N) → Fields N → Fields N
  with_field key none fs = fs
  with_field key (some v) fs = field key v fs

  abbrev pub waveform_json : Option (List N) → Option (Json N)
  waveform_json none = none
  waveform_json (some vs) = some (arr (items_of vs))

  abbrev pub number_json : Option N → Option (Json N)
  number_json none = none
  number_json (some v) = some (num v)

  abbrev pub mime_json : Option Text → Option (Json N)
  mime_json none = none
  mime_json (some s) = some (str s)

  abbrev pub encrypted_json : Bool → Option (Json N)
  encrypted_json false = none
  encrypted_json true = some (bool true)

  unfoldable pub to_fields : ValidatedMetadata N → Fields N
  to_fields m = with_field "waveform" (waveform_json m.waveform) (
      with_field "duration" (number_json m.duration) (
        with_field "mimeType" (mime_json m.mime_type) (
          with_field "encrypted" (encrypted_json m.encrypted)
            (with_field "destructAfterSeconds" (number_json m.destruct_after_seconds) end))))

  -- The metadata of a message as it is stored: `parse` is `JSON.parse`, `print` is `JSON.stringify`.
  abbrev pub print_some : (Json N → String) → Option (ValidatedMetadata N) → Option String
  print_some print none = none
  print_some print (some m) = some (print (obj (to_fields m)))

  unfoldable pub validate_and_normalize_metadata :
      (String → Option (Json N)) → (Json N → String) → Option String → Checked (Option String)
  unfolding validate_json to_fields
  validate_and_normalize_metadata parse print none = valid none
  validate_and_normalize_metadata parse print (some raw) =
      if raw == ""
      then valid none
      else (if ltb max_metadata_bytes (byte_length raw)
          then invalid too_large
          else (validate_json (parse raw) >>= λ m. valid (print_some print m)))
