-- ===== src/Metadata/Normal.antt =====
-- metadata.validator.ts: what the validator accepts is in range, and is accepted again unchanged.
use messenger_web_app.Prelude.{
  ℕ, suc, ◌≤◌, ◌≡◌, refl, true, false, Option, none, some, List, [], ◌∷◌, arith, Bool-cases, inl,
  inr, length, All, ltb, string_eq,
}
use messenger_web_app.Prelude.Texts.{Text, trim_codes}
use messenger_web_app.Metadata.{
  Numbers, Json, Items, ValidatedMetadata, Checked, null, bool, num, str, arr, obj, nil, cons,
  valid, invalid, ◌>>=◌, length_items, clamp, points, point, check_waveform, check_duration,
  check_mime, check_destruct, max_waveform_points, max_duration_sec, max_destruct_sec,
  is_safe_audio_mime,
}
use messenger_web_app.Metadata.Trimming.{trim_codes_twice}

pub >>=-eq-valid :
    {A B : Type 0} (m : Checked A) (f : A → Checked B) {b : B}
    → (m >>= f) ≡ valid b
    → (a : A) × (m ≡ valid a) × (f a ≡ valid b)
>>=-eq-valid (valid a) f h = (a, refl, h)
>>=-eq-valid (invalid e) f h = cc

module _ {N : Type 0} (n : Numbers N) where
  -- A finite number from `a` to `b`.
  abbrev pub InRange : ℕ → ℕ → N → Type 0
  InRange a b v =
      (n.is_finite v ≡ true) × (n.lt v (n.of_nat a) ≡ false) × (n.lt (n.of_nat b) v ≡ false)

  abbrev pub Each : {A : Type 0} → (A → Type 0) → Option A → Type 0
  Each P none = Unit
  Each P (some a) = P a

  clamp-InRange : (v : N) → n.is_finite v ≡ true → InRange 0 1 (clamp n v)
  clamp-InRange v h = ground (
    arith,
    n.of_nat_lt 0 1 (omega arith) (omega arith),
    n.of_nat_lt 1 1 (omega arith) (omega arith),
    n.of_nat_lt 1 0 (omega arith) (omega arith),
    n.of_nat_lt 0 0 (omega arith) (omega arith),
    n.of_nat_finite 0 (omega arith),
    n.of_nat_finite 1 (omega arith),
    n.lt_asym (n.of_nat 0) v,
    n.lt_asym v (n.of_nat 1),
  )

  clamp_twice : (v : N) → clamp n (clamp n v) ≡ clamp n v
  clamp_twice v = ground (
    arith,
    n.of_nat_lt 0 1 (omega arith) (omega arith),
    n.of_nat_lt 1 1 (omega arith) (omega arith),
    n.of_nat_lt 0 0 (omega arith) (omega arith),
  )

  abbrev pub IsPoint : N → Type 0
  IsPoint v = InRange 0 1 v × (clamp n v ≡ v)

  -- What the validator gives: everything in range, and nothing left to normalise.
  pub record IsNormal (m : ValidatedMetadata N) : Type 0 where
    pub waveform : Each (λ vs. (length vs ≤ max_waveform_points) × All IsPoint vs) m.waveform
    pub duration : Each (λ v. InRange 0 max_duration_sec v × (n.round_thousandths v ≡ v)) m.duration
    pub mime_type : Each (λ s. (trim_codes s ≡ s) × (is_safe_audio_mime s ≡ true)) m.mime_type
    pub destruct :
        Each (λ v. InRange 1 max_destruct_sec v × (n.round v ≡ v)) m.destruct_after_seconds

  -- One check after the other: what comes out is normal.
  point-valid : (i : ℕ) (x : Json N) (v : N) → point n i x ≡ valid v → IsPoint v
  point-valid i null v h = cc
  point-valid i (bool b) v h = cc
  point-valid i (str s) v h = cc
  point-valid i (arr xs) v h = cc
  point-valid i (obj fs) v h = cc
  point-valid i (num w) v h = elim (Bool-cases (n.is_finite w)) [
    | inr e ↦ absurd (ground arith)
    | inl e ↦
        let same : clamp n w ≡ v = ground arith in rw (← same) (clamp-InRange w e, clamp_twice w)
  ]

  points-valid :
      (i : ℕ) (xs : Items N) (vs : List N)
      → points n i xs ≡ valid vs
      → (length vs ≡ length_items n xs) × All IsPoint vs
  unfolding points
  points-valid i nil vs h = let e : [] ≡ vs = cc in rw (← e) (refl, tt)
  points-valid i (cons x xs) vs h =
      let (v, p, h') = >>=-eq-valid (point n i x) _ h in
      let (ws, q, h'') = >>=-eq-valid (points n (suc i) xs) _ h' in
      let (l, a) = points-valid (suc i) xs ws q in
      let e : v ∷ ws ≡ vs = cc in rw (← e) (omega arith, (point-valid i x v p, a))

  pub check_waveform-valid :
      (o : Option (Json N)) (r : Option (List N))
      → check_waveform n o ≡ valid r
      → Each (λ vs. (length vs ≤ max_waveform_points) × All IsPoint vs) r
  unfolding check_waveform
  check_waveform-valid none r h = let e : none ≡ r = cc in rw (← e) tt
  check_waveform-valid (some null) r h = cc
  check_waveform-valid (some (bool b)) r h = cc
  check_waveform-valid (some (num v)) r h = cc
  check_waveform-valid (some (str s)) r h = cc
  check_waveform-valid (some (obj fs)) r h = cc
  check_waveform-valid (some (arr xs)) r h =
      elim (Bool-cases (ltb max_waveform_points (length_items n xs))) [
        | inl t ↦ absurd (ground arith)
        | inr t ↦
            let h1 : (points n 0 xs >>= λ vs. valid (some vs)) ≡ valid r = rw t at h in
            let (vs, p, h2) = >>=-eq-valid (points n 0 xs) (λ vs. valid (some vs)) h1 in
            let (l, a) = points-valid 0 xs vs p in
            let e : some vs ≡ r = cc in rw (← e) (ground arith, a)
      ]

  pub check_duration-valid :
      (o : Option (Json N)) (r : Option N)
      → check_duration n o ≡ valid r
      → Each (λ v. InRange 0 max_duration_sec v × (n.round_thousandths v ≡ v)) r
  unfolding check_duration
  check_duration-valid none r h = let e : none ≡ r = cc in rw (← e) tt
  check_duration-valid (some null) r h = cc
  check_duration-valid (some (bool b)) r h = cc
  check_duration-valid (some (arr xs)) r h = cc
  check_duration-valid (some (str s)) r h = cc
  check_duration-valid (some (obj fs)) r h = cc
  check_duration-valid (some (num v)) r h =
      let f : n.is_finite v ≡ true = ground arith in
      let a : n.lt v (n.of_nat 0) ≡ false = ground arith in
      let b : n.lt (n.of_nat max_duration_sec) v ≡ false = ground arith in
      let e : some (n.round_thousandths v) ≡ r = ground arith in
      rw (← e) (
        (
          n.thousandths_finite v f a b,
          n.thousandths_above v 0 (omega arith) a,
          n.thousandths_below v max_duration_sec (omega arith) b,
        ),
        n.thousandths_thousandths v a b,
      )

  pub check_destruct-valid :
      (o : Option (Json N)) (r : Option N)
      → check_destruct n o ≡ valid r
      → Each (λ v. InRange 1 max_destruct_sec v × (n.round v ≡ v)) r
  unfolding check_destruct
  check_destruct-valid none r h = let e : none ≡ r = cc in rw (← e) tt
  check_destruct-valid (some null) r h = cc
  check_destruct-valid (some (bool b)) r h = cc
  check_destruct-valid (some (arr xs)) r h = cc
  check_destruct-valid (some (str s)) r h = cc
  check_destruct-valid (some (obj fs)) r h = cc
  check_destruct-valid (some (num v)) r h =
      let f : n.is_finite v ≡ true = ground arith in
      let a : n.lt v (n.of_nat 1) ≡ false = ground arith in
      let b : n.lt (n.of_nat max_destruct_sec) v ≡ false = ground arith in
      let e : some (n.round v) ≡ r = ground arith in
      rw (← e) (
        (n.round_finite v f, n.round_above v 1 a, n.round_below v max_destruct_sec b),
        n.round_round v,
      )

  pub check_mime-valid :
      (o : Option (Json N)) (r : Option Text)
      → check_mime n o ≡ valid r
      → Each (λ s. (trim_codes s ≡ s) × (is_safe_audio_mime s ≡ true)) r
  unfolding check_mime
  check_mime-valid none r h = let e : none ≡ r = cc in rw (← e) tt
  check_mime-valid (some null) r h = cc
  check_mime-valid (some (bool b)) r h = cc
  check_mime-valid (some (arr xs)) r h = cc
  check_mime-valid (some (num v)) r h = cc
  check_mime-valid (some (obj fs)) r h = cc
  check_mime-valid (some (str s)) r h =
      let safe : is_safe_audio_mime (trim_codes s) ≡ true = ground arith in
      let e : some (trim_codes s) ≡ r = ground arith in rw (← e) (trim_codes_twice s, safe)
