-- ===== src/Cleanup/Outcome.antt =====
-- server/src/conversations/cleanup.service.ts: what a run of the clean-up leaves.
use messenger_web_app.Prelude.{
  nat_beq_iff, nat_eq, Option, none, some, ◌==◌, ap, nat_beq_iff, nat_eq, Option, none, some, ◌==◌,
  ℕ, ◌≤◌, ◌≡◌, refl, Bool, true, false, String, List, [], ◌∷◌, any, map, arith, In, All, Bool-cases,
  inl, inr, ◌⊎◌, count, ◌∙◌, sym,
}
use messenger_web_app.Prelude.Rows.{All-of_In, In-any, none_of_All}
use messenger_web_app.Conversations.{Message, Db, Client}
use messenger_web_app.Cleanup.{
  batch_size, is_expired, is_among, unlink, unlinked, file_urls, has_file, find_expired,
  delete_messages, delete_all, clean_up, run_cleanup,
}
use messenger_web_app.Cleanup.Kept.{
  rows_of, find_expired-In, In-find_expired, kept_row, left_row, delete_orphans-messages,
  delete_orphans-files, among-map, among_self,
}

none_counted : {A : Type 0} (p : A → Bool) (xs : List A) → count p xs ≡ 0 → any p xs ≡ false
none_counted p [] h = refl
none_counted p (x ∷ xs) h = elim (Bool-cases (p x)) [
  | inl t ↦ absurd (ground arith)
  | inr f ↦ let h' : count p xs ≡ 0 = ground arith in ground (arith, none_counted p xs h')
]

unlinked-kept : (ids : List ℕ) (id : ℕ) → is_among ids id ≡ false → unlinked ids (some id) ≡ some id
unlinked-kept ids id h = rw h refl

unlinked-lost : (ids : List ℕ) (id : ℕ) → is_among ids id ≡ true → unlinked ids (some id) ≡ none
unlinked-lost ids id h = rw h refl

other_id :
    (ids : List ℕ) (out gone here : ℕ)
    → is_among ids out ≡ false
    → is_among ids gone ≡ true
    → here ≡ out
    → (here == gone) ≡ false
other_id ids out gone here f t e = elim (Bool-cases (here == gone)) [
  | inr n ↦ n
  | inl y ↦
      let q : out ≡ gone = sym e ∙ (nat_beq_iff here gone).0 y in
      let t' : is_among ids out ≡ true = rw q t in cc
]

module _ {C M P N R K : Type 0} (client : Client C M P N R K) where
  -- `new` is the reference `old`, or it is none and the message of `old`, which was there before, went.
  abbrev pub IsSameOrLost : Db C M P N R K → Db C M P N R K → Option ℕ → Option ℕ → Type 0
  IsSameOrLost d d' old new =
      (new ≡ old)
      ⊎ ((new ≡ none)
          × ((id : ℕ) × (old ≡ some id)
              × (any (λ (m : Message). m.id == id) (rows_of client d) ≡ true)
              × (any (λ (m : Message). m.id == id) (rows_of client d') ≡ false)))

  -- The row of `x` after a run: nothing but its references may differ.
  abbrev pub Keeps : Db C M P N R K → Db C M P N R K → Message → Type 0
  Keeps d d' x =
      (x' : Message) × In x' (rows_of client d')
      × (x' ≡ record x { reply_to_id = x'.reply_to_id; forwarded_from_id = x'.forwarded_from_id })
      × IsSameOrLost d d' x.reply_to_id x'.reply_to_id
      × IsSameOrLost d d' x.forwarded_from_id x'.forwarded_from_id

  -- A message that is in the batch was there, and is not any more.
  lost_reference :
      (m : Message) (ms : List Message) (d : Db C M P N R K) (o : Option ℕ)
      → ((y : Message) → In y (m ∷ ms) → In y (rows_of client d))
      → IsSameOrLost d
          (clean_up client (m ∷ ms) d)
          o
          (unlinked (map (λ (y : Message). y.id) (m ∷ ms)) o)
  lost_reference m ms d none old = inl refl
  lost_reference m ms d (some id) old =
      let ids = map (λ (y : Message). y.id) (m ∷ ms) in
      elim (Bool-cases (is_among ids id)) [
        | inr f ↦ inl (unlinked-kept ids id f)
        | inl t ↦
            let (y, i, e) = among-map id (m ∷ ms) t in
            inr (
              unlinked-lost ids id t,
              (
                id,
                refl,
                In-any (λ (z : Message). z.id == id) y (rows_of client d) (old y i)
                    ((nat_beq_iff y.id id).1 e),
                rw (delete_orphans-messages client (file_urls (m ∷ ms)) (delete_all client ids d)) (
                    none_of_All (λ (z : Message). z.id == id) _
                      (All-of_In (λ (z : Message). (z.id == id) ≡ false)
                        (client.messages.rows (delete_messages client ids d.messages))
                        λ z j.
                          let (w, k, out, q) = left_row client ids d.messages z j in
                          let same : z.id ≡ w.id = ap (λ (x : Message). x.id) q in
                          other_id ids w.id id z.id out t same)),
              ),
            )
      ]

  kept_by :
      (ms : List Message) (d : Db C M P N R K) (x : Message)
      → In x (rows_of client d)
      → ((y : Message) → In y ms → In y (rows_of client d))
      → ((y : Message) → In y ms → ¬ (y.id ≡ x.id))
      → Keeps d (clean_up client ms d) x
  kept_by [] d x i old h = (x, i, refl, inl refl, inl refl)
  kept_by (m ∷ ms) d x i old h =
      let ids = map (λ (y : Message). y.id) (m ∷ ms) in
      let out : is_among ids x.id ≡ false = elim (Bool-cases (is_among ids x.id)) [
        | inl t ↦ let (y, j, e) = among-map x.id (m ∷ ms) t in absurd (h y j e)
        | inr f ↦ f
      ] in
      (
        unlink ids x,
        rw (delete_orphans-messages client (file_urls (m ∷ ms)) (delete_all client ids d))
            (kept_row client ids d.messages x i out),
        refl,
        lost_reference m ms d x.reply_to_id old,
        lost_reference m ms d x.forwarded_from_id old,
      )

  -- A message stays where no message of its id was deleted an hour ago or earlier, and nothing of it
  -- changes, but that it may lose a reference to a message that was there and went in this run.
  pub run_cleanup-kept :
      (order : Message → ℕ) (now : ℕ) (d : Db C M P N R K) (x : Message)
      → In x (rows_of client d)
      → ((y : Message) → In y (rows_of client d) → y.id ≡ x.id → is_expired now y ≡ false)
      → Keeps d (run_cleanup client order now d) x
  unfolding run_cleanup
  run_cleanup-kept order now d x i h =
      kept_by (find_expired client order now d.messages) d x i
        (λ y j. (find_expired-In client order now d.messages y j).0)
        (λ y j e.
          let (k, t) = find_expired-In client order now d.messages y j in let f = h y k e in cc)

  files_by :
      (ms : List Message) (d : Db C M P N R K) (url : String)
      → In url (clean_up client ms d).deleted_files
      → In url d.deleted_files
        ⊎ (any (has_file url) (rows_of client (clean_up client ms d)) ≡ false)
  files_by [] d url i = inl i
  files_by (m ∷ ms) d url i =
      let d' = delete_all client (map (λ (y : Message). y.id) (m ∷ ms)) d in
      elim (delete_orphans-files client (file_urls (m ∷ ms)) url d' i) [
        | inl old ↦ inl old
        | inr none_left ↦ inr (
            rw (delete_orphans-messages client (file_urls (m ∷ ms)) d') (
              none_counted (has_file url) (client.messages.rows d'.messages)
                (sym (client.messages.count_where_lem (has_file url) d'.messages) ∙ none_left)))
      ]

  -- A file that a clean-up deletes is the file of no message that is left.
  pub run_cleanup-files :
      (order : Message → ℕ) (now : ℕ) (d : Db C M P N R K) (url : String)
      → In url (run_cleanup client order now d).deleted_files
      → In url d.deleted_files
        ⊎ (any (has_file url) (rows_of client (run_cleanup client order now d)) ≡ false)
  unfolding run_cleanup
  run_cleanup-files order now d url i = files_by (find_expired client order now d.messages) d url i

  gone_by :
      (ms : List Message) (now : ℕ) (d : Db C M P N R K)
      → ((y : Message) → In y (rows_of client d) → is_expired now y ≡ true → In y ms)
      → (x : Message) → In x (rows_of client (clean_up client ms d))
      → is_expired now x ≡ false
  gone_by [] now d h x i = elim (Bool-cases (is_expired now x)) [
    | inl t ↦ absurd (h x i t)
    | inr f ↦ f
  ]
  gone_by (m ∷ ms) now d h x i =
      let ids = map (λ (y : Message). y.id) (m ∷ ms) in
      let j : In x (client.messages.rows (delete_messages client ids d.messages)) =
        rw (← delete_orphans-messages client (file_urls (m ∷ ms)) (delete_all client ids d)) i in
      let (y, k, out, e) = left_row client ids d.messages x j in
      elim (Bool-cases (is_expired now y)) [
        | inl t ↦ let b = among_self y (m ∷ ms) (h y k t) in absurd (cc)
        | inr f ↦ rw e f
      ]

  -- Where at most a thousand messages were deleted an hour ago or earlier, none of them is left.
  pub run_cleanup-expired :
      (order : Message → ℕ) (now : ℕ) (d : Db C M P N R K)
      → count (is_expired now) (rows_of client d) ≤ batch_size
      → All (λ x. is_expired now x ≡ false) (rows_of client (run_cleanup client order now d))
  unfolding run_cleanup
  run_cleanup-expired order now d l =
      All-of_In (λ x. is_expired now x ≡ false) _
        (gone_by (find_expired client order now d.messages) now d
          (λ y i t. In-find_expired client order now d.messages y l i t))
