-- ===== src/Conversations/Envelopes.antt =====
-- conversations.service.ts: the envelopes that saving a message creates.
use messenger_web_app.Prelude.{
  ℕ, ◌≤◌, ◌≡◌, refl, ap, ◌∙◌, ◌⊎◌, inl, inr, true, false, String, List, [], ◌∷◌, ◌++◌, arith, any,
  count, count-append, In, All, Bool-cases, ◌==◌, nat_eq, nat_beq_iff,
}
use messenger_web_app.Prelude.Rows.{
  All-of_In, any-In, In-any, In-append_right, All-none, count_none,
}
use messenger_web_app.Conversations.{Envelope}
use messenger_web_app.Conversations.Saving.{envelope_of, is_for, add_envelope, create_envelopes}

In-append_left : {A : Type 0} (x : A) (xs ys : List A) → In x xs → In x (xs ++ ys)
In-append_left x [] ys i = absurd i
In-append_left x (z ∷ xs) ys (inl e) = inl e
In-append_left x (z ∷ xs) ys (inr i) = inr (In-append_left x xs ys i)

In-append_one : {A : Type 0} (x y : A) (xs : List A) → In x (xs ++ y ∷ []) → In x xs ⊎ (x ≡ y)
In-append_one x y [] (inl e) = inr e
In-append_one x y [] (inr i) = absurd i
In-append_one x y (z ∷ xs) (inl e) = inl (inl e)
In-append_one x y (z ∷ xs) (inr i) = elim (In-append_one x y xs i) [
  | inl j ↦ inl (inr j)
  | inr e ↦ inr e
]

-- What `xs` adds for a message: nothing that was there goes, nothing but what was asked for comes, every
-- device of `xs` has an envelope, and no device gets a second one.
pub record IsStored (message : ℕ) (xs : List (ℕ × String)) (es es' : List Envelope) : Type 0 where
  pub old : All (λ e. In e es') es
  pub no_others :
      All
        (λ (e : Envelope). In e es ⊎ ((e.message_id ≡ message) × In (e.device_id, e.ciphertext) xs))
        es'
  pub for_each : All (λ (x : ℕ × String). any (is_for message x.0) es' ≡ true) xs
  pub single :
      (device : ℕ)
      → (count (is_for message device) es' ≤ 1)
        ⊎ (count (is_for message device) es' ≡ count (is_for message device) es)

module _ (message : ℕ) where
  added_old :
      (x : ℕ × String) (es : List Envelope) (e : Envelope)
      → In e es
      → In e (add_envelope message x es)
  added_old x es e i = elim (Bool-cases (any (is_for message x.0) es)) [
    | inl t ↦ rw t i
    | inr f ↦ rw f (In-append_left e es (envelope_of message x ∷ []) i)
  ]

  added_new :
      (x : ℕ × String) (es : List Envelope) (e : Envelope)
      → In e (add_envelope message x es)
      → In e es ⊎ (e ≡ envelope_of message x)
  added_new x es e i = elim (Bool-cases (any (is_for message x.0) es)) [
    | inl t ↦ let j : In e es = rw t at i in inl j
    | inr f ↦
        let j : In e (es ++ envelope_of message x ∷ []) = rw f at i in
        In-append_one e (envelope_of message x) es j
  ]

  added_there :
      (x : ℕ × String) (es : List Envelope)
      → any (is_for message x.0) (add_envelope message x es) ≡ true
  added_there x es = elim (Bool-cases (any (is_for message x.0) es)) [
    | inl t ↦ rw t t
    | inr f ↦ rw f (
        In-any (is_for message x.0) (envelope_of message x) (es ++ envelope_of message x ∷ [])
          (In-append_right (envelope_of message x) es) (is_for_self x))
  ]
    where
      is_for_self : (x : ℕ × String) → is_for message x.0 (envelope_of message x) ≡ true
      is_for_self x = ground arith

  added_single :
      (x : ℕ × String) (es : List Envelope) (device : ℕ)
      → (count (is_for message device) (add_envelope message x es) ≤ 1)
        ⊎ (count (is_for message device) (add_envelope message x es)
            ≡ count (is_for message device) es)
  added_single x es device = elim (Bool-cases (any (is_for message x.0) es)) [
    | inl t ↦ inr (rw t refl)
    | inr f ↦
        let a = count-append (is_for message device) es (envelope_of message x ∷ []) in
        elim (Bool-cases (x.0 == device)) [
          | inr other ↦ inr (rw f (ground (arith, a, other)))
          | inl same ↦
              let q : x.0 ≡ device = (nat_beq_iff x.0 device).0 same in
              let f' : any (is_for message device) es ≡ false = rw q at f in
              let z : count (is_for message device) es ≡ 0 =
                count_none (is_for message device) es (All-none (is_for message device) es f') in
              inl (rw f (ground (arith, a, z)))
        ]
  ]

  create-old :
      (xs : List (ℕ × String)) (es : List Envelope) (e : Envelope)
      → In e es
      → In e (create_envelopes message xs es)
  unfolding create_envelopes
  create-old [] es e i = i
  create-old (x ∷ xs) es e i = create-old xs (add_envelope message x es) e (added_old x es e i)

  create-new :
      (xs : List (ℕ × String)) (es : List Envelope) (e : Envelope)
      → In e (create_envelopes message xs es)
      → In e es ⊎ ((e.message_id ≡ message) × In (e.device_id, e.ciphertext) xs)
  unfolding create_envelopes
  create-new [] es e i = inl i
  create-new (x ∷ xs) es e i = elim (create-new xs (add_envelope message x es) e i) [
    | inr (q, j) ↦ inr (q, inr j)
    | inl j ↦ elim (added_new x es e j) [
      | inl k ↦ inl k
      | inr q ↦ inr (
        ap (λ (f : Envelope). f.message_id) q,
        inl (ap {B = ℕ × String} (λ (f : Envelope). (f.device_id, f.ciphertext)) q),
      )
    ]
  ]

  create-for_each :
      (xs : List (ℕ × String)) (es : List Envelope)
      → All
          (λ (x : ℕ × String). any (is_for message x.0) (create_envelopes message xs es) ≡ true)
          xs
  unfolding create_envelopes
  create-for_each [] es = tt
  create-for_each (x ∷ xs) es =
      let (e, i, h) = any-In (is_for message x.0) (add_envelope message x es) (added_there x es) in
      (
        In-any (is_for message x.0) e (create_envelopes message xs (add_envelope message x es))
            (create-old xs (add_envelope message x es) e i) h,
        create-for_each xs (add_envelope message x es),
      )

  create-single :
      (xs : List (ℕ × String)) (es : List Envelope) (device : ℕ)
      → (count (is_for message device) (create_envelopes message xs es) ≤ 1)
        ⊎ (count (is_for message device) (create_envelopes message xs es)
            ≡ count (is_for message device) es)
  unfolding create_envelopes
  create-single [] es device = inr refl
  create-single (x ∷ xs) es device = elim (create-single xs (add_envelope message x es) device) [
    | inl l ↦ inl l
    | inr q ↦ elim (added_single x es device) [ inl l ↦ inl (rw q l) | inr q' ↦ inr (q ∙ q') ]
  ]

  pub create_envelopes-IsStored :
      (xs : List (ℕ × String)) (es : List Envelope)
      → IsStored message xs es (create_envelopes message xs es)
  create_envelopes-IsStored xs es = record {
    old = All-of_In (λ e. In e (create_envelopes message xs es)) es (λ e i. create-old xs es e i);
    no_others =
        All-of_In
          (λ (e : Envelope).
            In e es ⊎ ((e.message_id ≡ message) × In (e.device_id, e.ciphertext) xs))
          (create_envelopes message xs es) (λ e i. create-new xs es e i);
    for_each = create-for_each xs es;
    single = create-single xs es;
  }
