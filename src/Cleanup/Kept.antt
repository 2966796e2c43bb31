-- ===== src/Cleanup/Kept.antt =====
-- server/src/conversations/cleanup.service.ts: which messages stay, which go, and whose files go.
use messenger_web_app.Prelude.{
  ℕ, zero, suc, ◌≤◌, ◌≡◌, refl, Bool, true, false, not, String, List, [], ◌∷◌, ◌++◌, ◌==◌, nat_eq,
  string_eq, map, arith, In, All-In, Bool-cases, inl, inr, ◌⊎◌, filter, count, length, ap, sym, ◌∙◌,
}
use messenger_web_app.Prelude.Texts.{take}
use messenger_web_app.Prelude.Rows.{In-filter, In_map, In-map}
use messenger_web_app.Prelude.Store.{rewrite}
use messenger_web_app.Conversations.{Message, Db, Client}
use messenger_web_app.Cleanup.{
  batch_size, is_expired, is_among, unlink, has_file, find_expired, delete_messages, delete_if,
  delete_orphans,
}

module _ {A : Type 0} where
  In_filter : (p : A → Bool) (x : A) (xs : List A) → In x xs → p x ≡ true → In x (filter p xs)
  In_filter p x [] i h = absurd i
  In_filter p x (y ∷ xs) (inl e) h = let h' : p y ≡ true = rw (← e) h in rw h' (inl e)
  In_filter p x (y ∷ xs) (inr i) h = elim (Bool-cases (p y)) [
    | inl t ↦ rw t (inr (In_filter p x xs i h))
    | inr f ↦ rw f (In_filter p x xs i h)
  ]

  In-take : (n : ℕ) (x : A) (xs : List A) → In x (take n xs) → In x xs
  In-take zero x xs i = absurd i
  In-take (suc n) x [] i = absurd i
  In-take (suc n) x (y ∷ xs) (inl e) = inl e
  In-take (suc n) x (y ∷ xs) (inr i) = inr (In-take n x xs i)

  take_all : (n : ℕ) (xs : List A) → length xs ≤ n → take n xs ≡ xs
  take_all zero [] l = refl
  take_all zero (x ∷ xs) l = absurd (omega arith)
  take_all (suc n) [] l = refl
  take_all (suc n) (x ∷ xs) l = rw (take_all n xs (omega arith)) refl

In-append_one : {A : Type 0} (x y : A) (xs : List A) → In x (xs ++ y ∷ []) → In x xs ⊎ (x ≡ y)
In-append_one x y [] (inl e) = inr e
In-append_one x y [] (inr i) = absurd i
In-append_one x y (z ∷ xs) (inl e) = inl (inl e)
In-append_one x y (z ∷ xs) (inr i) = elim (In-append_one x y xs i) [
  | inl j ↦ inl (inr j)
  | inr e ↦ inr e
]

not-true : (b : Bool) → not b ≡ true → b ≡ false
not-true true h = cc
not-true false h = refl

is_zero : (n : ℕ) → (n == 0) ≡ true → n ≡ 0
is_zero n h = ground arith

pub among-map :
    (k : ℕ) (ms : List Message)
    → is_among (map (λ x. x.id) ms) k ≡ true
    → (y : Message) × In y ms × (y.id ≡ k)
among-map k [] h = cc
among-map k (m ∷ ms) h = elim (Bool-cases (m.id == k)) [
  | inl t ↦ (m, inl refl, ground arith)
  | inr f ↦
      let h' : is_among (map (λ x. x.id) ms) k ≡ true = rw f at h in
      let (y, i, e) = among-map k ms h' in (y, inr i, e)
]

pub among_self :
    (y : Message) (ms : List Message) → In y ms → is_among (map (λ x. x.id) ms) y.id ≡ true
among_self y [] i = absurd i
among_self y (m ∷ ms) (inl e) =
    let e' : m.id ≡ y.id = ap (λ (x : Message). x.id) (sym e) in ground arith
among_self y (m ∷ ms) (inr i) = ground (arith, among_self y ms i)

module _ {C M P N R K : Type 0} (client : Client C M P N R K) where
  abbrev pub rows_of : Db C M P N R K → List Message
  rows_of d = client.messages.rows d.messages

  delete_if-messages :
      (b : Bool) (url : String) (d : Db C M P N R K)
      → (delete_if client b url d).messages ≡ d.messages
  delete_if-messages true url d = refl
  delete_if-messages false url d = refl

  pub delete_orphans-messages :
      (urls : List String) (d : Db C M P N R K)
      → (delete_orphans client urls d).messages ≡ d.messages
  unfolding delete_orphans
  delete_orphans-messages [] d = refl
  delete_orphans-messages (url ∷ urls) d =
      let b = client.messages.count_where (has_file url) d.messages == 0 in
      delete_orphans-messages urls (delete_if client b url d) ∙ delete_if-messages b url d

  -- A file that is deleted had no message when it was counted.
  delete_if-files :
      (b : Bool) (url u : String) (d : Db C M P N R K)
      → (b ≡ true → client.messages.count_where (has_file url) d.messages ≡ 0)
      → In u (delete_if client b url d).deleted_files
      → In u d.deleted_files ⊎ (client.messages.count_where (has_file u) d.messages ≡ 0)
  delete_if-files false url u d h i = inl i
  delete_if-files true url u d h i = elim (In-append_one u url d.deleted_files i) [
    | inl old ↦ inl old
    | inr same ↦ inr (rw same (h refl))
  ]

  pub delete_orphans-files :
      (urls : List String) (u : String) (d : Db C M P N R K)
      → In u (delete_orphans client urls d).deleted_files
      → In u d.deleted_files ⊎ (client.messages.count_where (has_file u) d.messages ≡ 0)
  unfolding delete_orphans
  delete_orphans-files [] u d i = inl i
  delete_orphans-files (url ∷ urls) u d i =
      let b = client.messages.count_where (has_file url) d.messages == 0 in
      let none_left : b ≡ true → client.messages.count_where (has_file url) d.messages ≡ 0 =
        λ h. is_zero (client.messages.count_where (has_file url) d.messages) h in
      elim (delete_orphans-files urls u (delete_if client b url d) i) [
        | inl j ↦ delete_if-files b url u d none_left j
        | inr e ↦ inr (rw (← delete_if-messages b url d) e)
      ]

  rows-delete_messages :
      (ids : List ℕ) (s : N)
      → client.messages.rows (delete_messages client ids s)
        ≡ map
            (rewrite (λ _. true) (unlink ids))
            (filter (λ m. not (is_among ids m.id)) (client.messages.rows s))
  rows-delete_messages ids s = rw (
    client.messages.rows-update_where (λ _. true) (unlink ids)
        (client.messages.delete_where (λ m. is_among ids m.id) s),
    client.messages.rows-delete_where (λ m. is_among ids m.id) s,
  )

  -- What the search finds has expired.
  pub find_expired-In :
      (order : Message → ℕ) (now : ℕ) (s : N) (y : Message)
      → In y (find_expired client order now s)
      → In y (client.messages.rows s) × (is_expired now y ≡ true)
  find_expired-In order now s y i =
      let sorts = client.messages.find_sorted_lem order (is_expired now) s in
      let j = In-take batch_size y (client.messages.find_sorted order (is_expired now) s) i in
      In-filter (is_expired now) y (client.messages.rows s) (
        All-In (λ z. In z (filter (is_expired now) (client.messages.rows s))) y
          (client.messages.find_sorted order (is_expired now) s) sorts.no_others j)

  -- Where a batch is enough, it finds all that have.
  pub In-find_expired :
      (order : Message → ℕ) (now : ℕ) (s : N) (y : Message)
      → count (is_expired now) (client.messages.rows s) ≤ batch_size
      → In y (client.messages.rows s)
      → is_expired now y ≡ true
      → In y (find_expired client order now s)
  In-find_expired order now s y l i h =
      let sorts = client.messages.find_sorted_lem order (is_expired now) s in
      let found = client.messages.find_sorted order (is_expired now) s in
      let short : length found ≤ batch_size = rw sorts.same_length l in
      rw (take_all batch_size found short) (
        All-In (λ z. In z found) y (filter (is_expired now) (client.messages.rows s))
          sorts.all_there (In_filter (is_expired now) y (client.messages.rows s) i h))

  pub kept_row :
      (ids : List ℕ) (s : N) (x : Message)
      → In x (client.messages.rows s)
      → is_among ids x.id ≡ false
      → In (unlink ids x) (client.messages.rows (delete_messages client ids s))
  kept_row ids s x i h =
      let stays : not (is_among ids x.id) ≡ true = rw h refl in
      rw (rows-delete_messages ids s) (
        In_map (rewrite (λ _. true) (unlink ids)) x _
          (In_filter (λ m. not (is_among ids m.id)) x (client.messages.rows s) i stays))

  pub left_row :
      (ids : List ℕ) (s : N) (x : Message)
      → In x (client.messages.rows (delete_messages client ids s))
      → (y : Message) × In y (client.messages.rows s)
        × (is_among ids y.id ≡ false)
        × (x ≡ unlink ids y)
  left_row ids s x i =
      let j : In x (
          map (rewrite (λ _. true) (unlink ids))
            (filter (λ m. not (is_among ids m.id)) (client.messages.rows s))) =
        rw (← rows-delete_messages ids s) i in
      let (y, k, e) = In-map (rewrite (λ _. true) (unlink ids)) x _ j in
      let (l, h) = In-filter (λ m. not (is_among ids m.id)) y (client.messages.rows s) k in
      (y, l, not-true (is_among ids y.id) h, e)
