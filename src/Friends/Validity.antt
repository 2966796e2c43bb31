-- ===== src/Friends/Validity.antt =====
-- What every call of the friends service keeps, and what a request and a removal achieve.
use messenger_web_app.Prelude.{
  ℕ, ◌≡◌, ◌≢◌, refl, ◌∙◌, inl, inr, Bool, true, false, not, none, some, List, [], ◌∷◌, arith, any,
  All, ◌==◌, nat_eq, Bool-cases, Option-cases, ◌>>◌, ok, err, Error, Result,
}
use messenger_web_app.Prelude.Store.{Table, rewrite}
use messenger_web_app.Prelude.Rows.{
  Keyed, Keyed-create, Keyed-filter, Keyed-map, is_some-find_first, none_of_All,
}
use messenger_web_app.Friends.{
  Friendship, Status, pending, accepted, declined, blocked, between, has_id, new_request,
  is_friendship, with_status, Answer, answered, clear_way, create_request, send_request, is_pending,
  respond, cancel_request, remove_friend, are_friends, Call, sends, responds, cancels, removes,
  step,
}
use messenger_web_app.Friends.Pairs.{
  Alone, Alone-create, Alone-filter, Alone-map, none_after_delete, between_comm,
}

abbrev pub friendship_id : Friendship → ℕ
friendship_id f = f.id

module _ {S : Type 0} (db : Table Friendship S) where
  -- The ids are distinct, nobody is joined to themselves, and two users have at most one row.
  pub record IsValid (s : S) : Type 0 where
    pub keyed : Keyed friendship_id (db.next_id s) (db.rows s)
    pub alone : Alone (db.rows s)

  create-IsValid :
      (a b : ℕ) (s : S)
      → a ≢ b
      → All (λ g. between a b g ≡ false) (db.rows s)
      → IsValid s
      → IsValid (db.create (new_request a b) s)
  create-IsValid a b s ne h v = record {
    keyed =
        rw (db.rows-create (new_request a b) s, db.next_id-create (new_request a b) s)
          (Keyed-create friendship_id _ _ (new_request a b (db.next_id s)) v.keyed refl);
    alone =
        rw (db.rows-create (new_request a b) s)
          (Alone-create a b (db.next_id s) (db.rows s) ne h v.alone);
  }

  delete-IsValid : (p : Friendship → Bool) (s : S) → IsValid s → IsValid (db.delete_where p s)
  delete-IsValid p s v = record {
    keyed =
        rw (db.rows-delete_where p s, db.next_id-delete_where p s)
          (Keyed-filter friendship_id _ (λ r. not (p r)) (db.rows s) v.keyed);
    alone = rw (db.rows-delete_where p s) (Alone-filter (λ r. not (p r)) (db.rows s) v.alone);
  }

  update-IsValid :
      (p : Friendship → Bool) (status : Status) (s : S)
      → IsValid s
      → IsValid (db.update_where p (with_status status) s)
  update-IsValid p status s v =
      let u = rewrite p (with_status status) in
      record {
        keyed =
            rw
              (
                db.rows-update_where p (with_status status) s,
                db.next_id-update_where p (with_status status) s,
              )
              (Keyed-map friendship_id _ u (db.rows s) (λ f. ground arith) v.keyed);
        alone =
            rw (db.rows-update_where p (with_status status) s)
              (Alone-map u (db.rows s) (λ f. ground arith) v.alone);
      }

module _ {S : Type 0} (db : Table Friendship S) (registered : ℕ → Bool) where
  way_cases :
      (P : Result Friendship × S → Type 0) (a b id : ℕ) (s : S) (status : Status)
      → ((x : Error) → P (err x, s))
      → (status ≡ declined
          → let s' = db.delete_where (has_id id) s in
            P (ok (new_request a b (db.next_id s')), db.create (new_request a b) s'))
      → P ((clear_way db registered status id >> create_request db registered a b) s)
  unfolding clear_way create_request
  way_cases P a b id s accepted refused again = refused _
  way_cases P a b id s pending refused again = refused _
  way_cases P a b id s blocked refused again = refused _
  way_cases P a b id s declined refused again = again refl

  -- The three ways in which `send_request` ends.
  pub send_cases :
      (P : Result Friendship × S → Type 0) (a b : ℕ) (s : S)
      → ((x : Error) → P (err x, s))
      → (a ≢ b
          → db.find_first (between a b) s ≡ none
          → P (ok (new_request a b (db.next_id s)), db.create (new_request a b) s))
      → ((f : Friendship)
          → a ≢ b
          → db.find_first (between a b) s ≡ some f
          → f.status ≡ declined
          → let s' = db.delete_where (has_id f.id) s in
            P (ok (new_request a b (db.next_id s')), db.create (new_request a b) s'))
      → P (send_request db registered a b s)
  unfolding send_request
  send_cases P a b s refused fresh again = elim (Bool-cases (a == b)) [
    | inl same ↦ rw (same, send_request) (refused _)
    | inr apart ↦ elim (Bool-cases (registered b)) [
      | inr unknown ↦ rw (apart, send_request) (rw (unknown, send_request) (refused _))
      | inl known ↦ elim (Option-cases (db.find_first (between a b) s)) [
        | inl e ↦
            rw (apart, send_request)
              (rw (known, send_request)
                (rw (e, send_request) (unfold create_request in fresh (ground arith) e)))
        | inr (f, e) ↦
            rw (apart, send_request)
              (rw (known, send_request)
                (rw (e, send_request)
                  (way_cases P a b f.id s f.status refused (again f (ground arith) e))))
      ]
    ]
  ]

  send_request-IsValid :
      (a b : ℕ) (s : S) → IsValid db s → IsValid db (send_request db registered a b s).1
  send_request-IsValid a b s v =
      send_cases (λ r. IsValid db r.1) a b s (λ x. v)
        (λ ne e. create-IsValid db a b s ne (rw e at (db.find_first_lem (between a b) s)) v)
        (λ f ne e d.
          let (joined, stands) = rw e at (db.find_first_lem (between a b) s) in
          create-IsValid db a b (db.delete_where (has_id f.id) s) ne
            (rw (db.rows-delete_where (has_id f.id) s)
              (none_after_delete a b f (db.rows s) v.alone stands joined))
            (delete-IsValid db (has_id f.id) s v))

  is_pending_iff : (status : Status) → is_pending status ≡ true → status ≡ pending
  is_pending_iff status h = ground arith

  -- The two ways in which `respond` ends.
  pub respond_cases :
      (P : Result Friendship × S → Type 0) (u id : ℕ) (answer : Answer) (s : S)
      → ((x : Error) → P (err x, s))
      → ((f : Friendship)
          → db.find_first (has_id id) s ≡ some f
          → f.receiver_id ≡ u
          → f.status ≡ pending
          → P (
            ok (with_status (answered answer) f),
            db.update_where (has_id id) (with_status (answered answer)) s,
          ))
      → P (respond db registered u id answer s)
  unfolding respond
  respond_cases P u id answer s refused answers =
      elim (Option-cases (db.find_first (has_id id) s)) [
        | inl e ↦ rw (e, respond) (refused _)
        | inr (f, e) ↦ elim (Bool-cases (f.receiver_id == u)) [
          | inr other ↦ rw (e, respond) (rw (other, respond) (refused _))
          | inl mine ↦ elim (Bool-cases (is_pending f.status)) [
            | inr late ↦ rw (e, respond) (rw (mine, respond) (rw (late, respond) (refused _)))
            | inl waits ↦
                rw (e, respond)
                  (rw (mine, respond)
                    (rw (waits, respond)
                      (answers f e (ground arith) (is_pending_iff f.status waits))))
          ]
        ]
      ]

  respond-IsValid :
      (u id : ℕ) (answer : Answer) (s : S)
      → IsValid db s
      → IsValid db (respond db registered u id answer s).1
  unfolding respond
  respond-IsValid u id answer s v =
      ground (arith, update-IsValid db (has_id id) (answered answer) s v)

  cancel_request-IsValid :
      (u id : ℕ) (s : S) → IsValid db s → IsValid db (cancel_request db registered u id s).1
  unfolding cancel_request
  cancel_request-IsValid u id s v = ground (arith, delete-IsValid db (has_id id) s v)

  remove_friend-IsValid :
      (u friend : ℕ) (s : S) → IsValid db s → IsValid db (remove_friend db registered u friend s).1
  unfolding remove_friend
  remove_friend-IsValid u friend s v =
      elim (Option-cases (db.find_first (is_friendship u friend) s)) [
        | inl e ↦ ground arith
        | inr (f, e) ↦ ground (arith, delete-IsValid db (has_id f.id) s v)
      ]

  -- Every call of the service keeps the table valid: ids are distinct, nobody is joined to
  -- themselves, and two users have at most one row between them, whoever asked.
  pub step-IsValid : (c : Call) (s : S) → IsValid db s → IsValid db (step db registered c s)
  unfolding step
  step-IsValid (sends a b) s v = send_request-IsValid a b s v
  step-IsValid (responds u id answer) s v = respond-IsValid u id answer s v
  step-IsValid (cancels u id) s v = cancel_request-IsValid u id s v
  step-IsValid (removes u friend) s v = remove_friend-IsValid u friend s v

  pub are_friends-any :
      (a b : ℕ) (s : S) → are_friends db registered a b s ≡ any (is_friendship a b) (db.rows s)
  unfolding are_friends
  are_friends-any a b s = is_some-find_first db (is_friendship a b) s

  is_friendship_of_between :
      (a b : ℕ) (fs : List Friendship)
      → All (λ g. between a b g ≡ false) fs
      → any (is_friendship a b) fs ≡ false
  is_friendship_of_between a b [] h = refl
  is_friendship_of_between a b (f ∷ fs) h = ground (arith, is_friendship_of_between a b fs h.1)

  none_between_comm :
      (a b : ℕ) (fs : List Friendship)
      → All (λ g. between a b g ≡ false) fs
      → All (λ g. between b a g ≡ false) fs
  none_between_comm a b [] h = tt
  none_between_comm a b (f ∷ fs) h = (between_comm b a f ∙ h.0, none_between_comm a b fs h.1)

  -- A removal ends the friendship for good: where it succeeds on a valid table, the two users are no
  -- longer friends, in either order, and there is no row between them left.
  pub remove_friend-are_friends :
      (a b : ℕ) (s : S)
      → IsValid db s
      → (remove_friend db registered a b s).0 ≡ ok tt
      → (are_friends db registered a b (remove_friend db registered a b s).1 ≡ false)
        × (are_friends db registered b a (remove_friend db registered a b s).1 ≡ false)
        × (any (between a b) (db.rows (remove_friend db registered a b s).1) ≡ false)
  unfolding remove_friend
  remove_friend-are_friends a b s v h = elim (Option-cases (db.find_first (is_friendship a b) s)) [
    | inl e ↦ let failed = rw (e, remove_friend) at h in cc
    | inr (f, e) ↦
        let (hit, stands) = rw e at (db.find_first_lem (is_friendship a b) s) in
        let left = none_after_delete a b f (db.rows s) v.alone stands (ground arith) in
        rw (e, remove_friend)
          (rw (are_friends-any a b _, are_friends-any b a _, db.rows-delete_where (has_id f.id) s)
            (
              is_friendship_of_between a b _ left,
              is_friendship_of_between b a _ (none_between_comm a b _ left),
              none_of_All (between a b) _ left,
            ))
  ]
