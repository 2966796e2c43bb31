-- ===== src/Metadata/Trimming.antt =====
-- metadata.validator.ts: `trim`, done twice.
use messenger_web_app.Prelude.{◌≡◌, refl, false, [], ◌∷◌, Bool-cases, inl, inr, ℕ}
use messenger_web_app.Prelude.Texts.{Text, is_white, trim_front, trim_back, trim_codes, put_code}

trim_back_twice : (s : Text) → trim_back (trim_back s) ≡ trim_back s
unfolding trim_back
trim_back_twice [] = refl
trim_back_twice (c ∷ s) = put (trim_back s) (trim_back_twice s)
  where
    put :
        (t : Text)
        → trim_back t ≡ t
        → trim_back (put_code (is_white c) c t) ≡ put_code (is_white c) c t
    put [] e = elim (Bool-cases (is_white c)) [ inl w ↦ rw w refl | inr w ↦ rw w (rw w refl) ]
    put (d ∷ t) e = rw e refl

-- A text that does not begin with white space still does not when its end is trimmed.
trim_front-trim_back :
    (c : ℕ) (s : Text) → is_white c ≡ false → trim_front (trim_back (c ∷ s)) ≡ trim_back (c ∷ s)
unfolding trim_front trim_back
trim_front-trim_back c s w = put (trim_back s)
  where
    put : (t : Text) → trim_front (put_code (is_white c) c t) ≡ put_code (is_white c) c t
    put [] = rw w (rw w refl)
    put (d ∷ t) = rw w refl

trim_front_cases : (s : Text) → trim_front (trim_back (trim_front s)) ≡ trim_back (trim_front s)
unfolding trim_front trim_back
trim_front_cases [] = refl
trim_front_cases (c ∷ s) = elim (Bool-cases (is_white c)) [
  | inl w ↦ rw w (trim_front_cases s)
  | inr w ↦ rw w (trim_front-trim_back c s w)
]

pub trim_codes_twice : (s : Text) → trim_codes (trim_codes s) ≡ trim_codes s
unfolding trim_codes
trim_codes_twice s = rw (trim_front_cases s) (trim_back_twice (trim_front s))
