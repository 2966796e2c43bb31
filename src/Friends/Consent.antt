-- ===== src/Friends/Consent.antt =====
-- Nobody becomes a friend without having agreed.
use messenger_web_app.Prelude.{
  ℕ, ◌≡◌, refl, sym, ◌∙◌, inl, inr, Bool, true, false, List, [], ◌∷◌, ◌++◌, map, arith, any, In,
  nat_eq, Bool-cases, Option-cases, ok,
}
use messenger_web_app.Prelude.Store.{Table, rewrite}
use messenger_web_app.Prelude.Rows.{Keyed-unique, any_of_filter, any-map_of_In}
use messenger_web_app.Friends.{
  Friendship, Status, pending, accepted, between, has_id, new_request, is_friendship, with_status,
  Answer, accept, answered, send_request, respond, cancel_request, remove_friend, are_friends, Call,
  sends, responds, cancels, removes, step,
}
use messenger_web_app.Friends.Validity.{
  IsValid, send_cases, respond_cases, are_friends-any, friendship_id,
}

-- Adding a request joins nobody.
any-create :
    (a b x y id : ℕ) (fs : List Friendship)
    → any (is_friendship a b) (fs ++ new_request x y id ∷ []) ≡ any (is_friendship a b) fs
any-create a b x y id [] = ground arith
any-create a b x y id (f ∷ fs) = ground (arith, any-create a b x y id fs)

module _ {S : Type 0} (db : Table Friendship S) (registered : ℕ → Bool) where
  -- The row by which `a` and `b` came to be friends: a pending request between them, whose receiver
  -- has just accepted it.
  pub record IsConsent (a b : ℕ) (s : S) (c : Call) : Type 0 where
    pub request : Friendship
    pub listed : In request (db.rows s)
    pub joins : between a b request ≡ true
    pub waiting : request.status ≡ pending
    pub agreed : c ≡ responds request.receiver_id request.id accept

  rows_mono :
      (a b : ℕ) (p : Friendship → Bool) (s : S)
      → any (is_friendship a b) (db.rows (db.delete_where p s)) ≡ true
      → any (is_friendship a b) (db.rows s) ≡ true
  rows_mono a b p s h =
      any_of_filter (is_friendship a b) _ (db.rows s) (rw (db.rows-delete_where p s) at h)

  create_joins_nobody :
      (a b x y : ℕ) (s : S)
      → any (is_friendship a b) (db.rows (db.create (new_request x y) s)) ≡ true
      → any (is_friendship a b) (db.rows s) ≡ true
  create_joins_nobody a b x y s h =
      sym (any-create a b x y (db.next_id s) (db.rows s))
      ∙ (rw (db.rows-create (new_request x y) s) at h)

  send_joins_nobody :
      (a b x y : ℕ) (s : S)
      → any (is_friendship a b) (db.rows (send_request db registered x y s).1) ≡ true
      → any (is_friendship a b) (db.rows s) ≡ true
  send_joins_nobody a b x y s =
      send_cases db registered
        (λ r.
          any (is_friendship a b) (db.rows r.1) ≡ true → any (is_friendship a b) (db.rows s) ≡ true)
        x y s (λ e h. h) (λ ne e h. create_joins_nobody a b x y s h)
        (λ f ne e d h.
          rows_mono a b (has_id f.id) s
            (create_joins_nobody a b x y (db.delete_where (has_id f.id) s) h))

  -- The row that an update has turned into a friendship.
  turned_by_update :
      (a b id : ℕ) (status : Status) (fs : List Friendship)
      → any (is_friendship a b) fs ≡ false
      → any (is_friendship a b) (map (rewrite (has_id id) (with_status status)) fs) ≡ true
      → (g : Friendship) × In g fs × (g.id ≡ id) × (between a b g ≡ true) × (status ≡ accepted)
  turned_by_update a b id status [] n h = cc
  turned_by_update a b id status (f ∷ fs) n h =
      elim (Bool-cases (is_friendship a b (rewrite (has_id id) (with_status status) f))) [
        | inl e ↦ (f, inl refl, ground arith, ground arith, ground arith)
        | inr e ↦
            let (g, i, same, joins, acc) =
              turned_by_update a b id status fs (ground arith) (ground arith) in
            (g, inr i, same, joins, acc)
      ]

  respond-IsConsent :
      (a b u id : ℕ) (answer : Answer) (s : S)
      → IsValid db s
      → any (is_friendship a b) (db.rows s) ≡ false
      → any (is_friendship a b) (db.rows (respond db registered u id answer s).1) ≡ true
      → IsConsent a b s (responds u id answer)
  respond-IsConsent a b u id answer s v n =
      respond_cases db registered
        (λ r. any (is_friendship a b) (db.rows r.1) ≡ true → IsConsent a b s (responds u id answer))
        u id answer s (λ x h. absurd (cc))
        λ f e mine waits h.
          let (hit, stands) = rw e at (db.find_first_lem (has_id id) s) in
          let moved =
            rw (db.rows-update_where (has_id id) (with_status (answered answer)) s) at h in
          let (g, i, same, joins, acc) =
            turned_by_update a b id (answered answer) (db.rows s) n moved in
          let one = Keyed-unique friendship_id _ f g (db.rows s) v.keyed stands i (ground arith) in
          record {
            request = f;
            listed = stands;
            joins = rw one joins;
            waiting = waits;
            agreed = ground arith;
          }

  cancel_joins_nobody :
      (a b u id : ℕ) (s : S)
      → any (is_friendship a b) (db.rows (cancel_request db registered u id s).1) ≡ true
      → any (is_friendship a b) (db.rows s) ≡ true
  unfolding cancel_request
  cancel_joins_nobody a b u id s h = ground (arith, rows_mono a b (has_id id) s)

  remove_joins_nobody :
      (a b u friend : ℕ) (s : S)
      → any (is_friendship a b) (db.rows (remove_friend db registered u friend s).1) ≡ true
      → any (is_friendship a b) (db.rows s) ≡ true
  unfolding remove_friend
  remove_joins_nobody a b u friend s h =
      elim (Option-cases (db.find_first (is_friendship u friend) s)) [
        | inl e ↦ ground arith
        | inr (f, e) ↦ ground (arith, rows_mono a b (has_id f.id) s)
      ]

  -- From a valid table, two users who are not friends become friends by one call only: the receiver
  -- of a pending request between them accepts it.
  pub step-IsConsent :
      (a b : ℕ) (c : Call) (s : S)
      → IsValid db s
      → are_friends db registered a b s ≡ false
      → are_friends db registered a b (step db registered c s) ≡ true
      → IsConsent a b s c
  unfolding step
  step-IsConsent a b (sends x y) s v n h =
      let m = send_joins_nobody a b x y s (rw (are_friends-any db registered a b _) at h) in
      absurd (cc (are_friends-any db registered a b s))
  step-IsConsent a b (responds u id answer) s v n h =
      respond-IsConsent a b u id answer s v (rw (are_friends-any db registered a b s) at n)
        (rw (are_friends-any db registered a b _) at h)
  step-IsConsent a b (cancels u id) s v n h =
      let m = cancel_joins_nobody a b u id s (rw (are_friends-any db registered a b _) at h) in
      absurd (cc (are_friends-any db registered a b s))
  step-IsConsent a b (removes u friend) s v n h =
      let m = remove_joins_nobody a b u friend s (rw (are_friends-any db registered a b _) at h) in
      absurd (cc (are_friends-any db registered a b s))

  -- An accepted request makes its two users friends, in both orders.
  pub respond-are_friends :
      (u id : ℕ) (f : Friendship) (s : S)
      → (respond db registered u id accept s).0 ≡ ok f
      → (f.receiver_id ≡ u)
        × (are_friends db registered f.sender_id u (respond db registered u id accept s).1 ≡ true)
        × (are_friends db registered u f.sender_id (respond db registered u id accept s).1 ≡ true)
  respond-are_friends u id f s =
      respond_cases db registered
        (λ r.
          r.0 ≡ ok f
          → (f.receiver_id ≡ u)
            × (are_friends db registered f.sender_id u r.1 ≡ true)
            × (are_friends db registered u f.sender_id r.1 ≡ true))
        u id accept s (λ x h. absurd (cc))
        λ g e mine waits h.
          let same : with_status accepted g ≡ f = cc in
          let (hit, stands) = rw e at (db.find_first_lem (has_id id) s) in
          let turn = rewrite (has_id id) (with_status accepted) in
          rw (are_friends-any db registered f.sender_id u _) (
            rw (are_friends-any db registered u f.sender_id _) (
              rw (db.rows-update_where (has_id id) (with_status accepted) s) (
                ground arith,
                any-map_of_In (is_friendship f.sender_id u) turn g (db.rows s) stands
                    (ground arith),
                any-map_of_In (is_friendship u f.sender_id) turn g (db.rows s) stands
                    (ground arith),
              )))
