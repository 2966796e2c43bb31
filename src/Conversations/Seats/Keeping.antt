-- ===== src/Conversations/Seats/Keeping.antt =====
-- One seat for a user and at most one owner, kept by each call that changes the members.
use messenger_web_app.Prelude.{
  ℕ, ◌+◌, ◌≤◌, ◌<◌, ◌≡◌, refl, inl, inr, ◌⊎◌, Bool, true, not, Option, none, String, List, [], ◌∷◌,
  map, ◌==◌, nat_eq, string_eq, count, count-append, count-filter-le, arith, Bool-cases,
  Option-cases, All, All-append, All-filter, subst, All-In,
}
use messenger_web_app.Prelude.Rows.{count_none}
use messenger_web_app.Prelude.Store.{rewrite}
use messenger_web_app.Conversations.{
  Role, member, Kind, direct, Member, Db, Client, assert_member, assert_admin, is_owner_role,
  is_seat, update_members, create_member,
}
use messenger_web_app.Conversations.Members.{
  get_or_create_direct, create_conversation, add_member, may_remove, remove_member, new_member,
  new_conversation, is_direct_of, direct_seats, delete_members,
}
use messenger_web_app.Conversations.Seats.Opening.{
  owns, rows_of, IsLayout, seat_all-count, seat_all-old, seat_all-conversations,
  direct_seats-IsLayout,
}

-- An update that moves nobody and makes nobody an owner.
abbrev pub IsTame : (Member → Member) → Type 0
IsTame f =
    (m : Member)
    → ((f m).conversation_id ≡ m.conversation_id)
      × ((f m).user_id ≡ m.user_id)
      × (is_owner_role (f m).role ≡ true → is_owner_role m.role ≡ true)

count_seat-map :
    (conversation user : ℕ) (p : Member → Bool) (f : Member → Member) (ms : List Member)
    → IsTame f
    → count (is_seat conversation user) (map (rewrite p f) ms)
      ≡ count (is_seat conversation user) ms
count_seat-map conversation user p f [] t = refl
count_seat-map conversation user p f (m ∷ ms) t =
    ground (arith, (t m).0, (t m).1, count_seat-map conversation user p f ms t)

count_owns-map :
    (conversation : ℕ) (p : Member → Bool) (f : Member → Member) (ms : List Member)
    → IsTame f
    → count (owns conversation) (map (rewrite p f) ms) ≤ count (owns conversation) ms
count_owns-map conversation p f [] t = omega arith
count_owns-map conversation p f (m ∷ ms) t =
    ground (arith, (t m).0, (t m).2, count_owns-map conversation p f ms t)

old-map :
    (next : ℕ) (p : Member → Bool) (f : Member → Member) (ms : List Member)
    → IsTame f
    → All (λ (m : Member). m.conversation_id < next) ms
    → All (λ (m : Member). m.conversation_id < next) (map (rewrite p f) ms)
old-map next p f [] t h = tt
old-map next p f (m ∷ ms) t h = ground (arith, (t m).0, old-map next p f ms t h.1)

-- A conversation whose id is not given yet has nobody in it.
nobody :
    (conversation user next : ℕ) (ms : List Member)
    → next ≤ conversation
    → All (λ (m : Member). m.conversation_id < next) ms
    → (count (is_seat conversation user) ms ≡ 0) × (count (owns conversation) ms ≡ 0)
nobody conversation user next [] l h = (refl, refl)
nobody conversation user next (m ∷ ms) l h = ground (arith, nobody conversation user next ms l h.1)

All-weaken :
    (a b : ℕ) (ms : List Member)
    → a ≤ b
    → All (λ (m : Member). m.conversation_id < a) ms
    → All (λ (m : Member). m.conversation_id < b) ms
All-weaken a b [] l h = tt
All-weaken a b (m ∷ ms) l (p, h) = (omega (arith, p), All-weaken a b ms l h)

module _ {C M P N R K : Type 0} (client : Client C M P N R K) where
  -- No member is in a conversation whose id is still to come, a user has at most one seat in a
  -- conversation, and a conversation at most one owner.
  pub record IsSeated (d : Db C M P N R K) : Type 0 where
    pub old :
        All
          (λ (m : Member). m.conversation_id < client.conversations.next_id d.conversations)
          (rows_of client d)
    pub one_seat :
        (conversation user : ℕ) → count (is_seat conversation user) (rows_of client d) ≤ 1
    pub one_owner : (conversation : ℕ) → count (owns conversation) (rows_of client d) ≤ 1

  pub same-IsSeated :
      (d e : Db C M P N R K)
      → e.members ≡ d.members
      → client.conversations.next_id d.conversations ≤ client.conversations.next_id e.conversations
      → IsSeated d
      → IsSeated e
  same-IsSeated d e q l s = record {
    old = rw q (All-weaken _ _ (rows_of client d) l s.old);
    one_seat = λ k u. rw q (s.one_seat k u);
    one_owner = λ k. rw q (s.one_owner k);
  }

  pub update-IsSeated :
      (p : Member → Bool) (f : Member → Member) (d : Db C M P N R K)
      → IsTame f
      → IsSeated d
      → IsSeated (update_members client p f d)
  update-IsSeated p f d t s = record {
    old =
        rw (client.members.rows-update_where p f d.members)
          (old-map _ p f (rows_of client d) t s.old);
    one_seat = λ k u.
        rw (client.members.rows-update_where p f d.members)
          (omega (arith, s.one_seat k u, count_seat-map k u p f (rows_of client d) t));
    one_owner = λ k.
        rw (client.members.rows-update_where p f d.members)
          (omega (arith, s.one_owner k, count_owns-map k p f (rows_of client d) t));
  }

  pub delete-IsSeated :
      (p : Member → Bool) (d : Db C M P N R K) → IsSeated d → IsSeated (delete_members client p d)
  delete-IsSeated p d s = record {
    old =
        rw (client.members.rows-delete_where p d.members)
          (All-filter _ (λ m. not (p m)) (rows_of client d) s.old);
    one_seat = λ k u. rw (client.members.rows-delete_where p d.members) (
        omega (
          arith,
          s.one_seat k u,
          count-filter-le (is_seat k u) (λ m. not (p m)) (rows_of client d),
        ));
    one_owner = λ k. rw (client.members.rows-delete_where p d.members) (
        omega (arith, s.one_owner k, count-filter-le (owns k) (λ m. not (p m)) (rows_of client d)));
  }

  pub create-IsSeated :
      (kind : Kind) (name description : Option String) (user : ℕ) (seats : List (ℕ × Role))
      (now : ℕ) (d : Db C M P N R K)
      → IsLayout seats
      → IsSeated d
      → IsSeated (create_conversation client kind name description user seats now d).1
  unfolding create_conversation
  create-IsSeated kind name description user seats now d l s =
      let n = client.conversations.next_id d.conversations in
      let new = new_conversation kind name description user now in
      let d' = record d { conversations = client.conversations.create new d.conversations } in
      let up = client.conversations.next_id-create new d.conversations in
      let same = seat_all-conversations client n now seats d' in
      record {
        old =
            rw (same, up)
              (seat_all-old client (n + 1) n now seats d' (omega arith)
                (All-weaken n (n + 1) (rows_of client d) (omega arith) s.old));
        one_seat = λ k u.
            let c = (seat_all-count client k u n now seats d').0 in
            elim (Bool-cases (n == k)) [
              | inl here ↦
                  let none_yet = (nobody k u n (rows_of client d) (ground (arith, here)) s.old).0 in
                  ground (arith, c, here, none_yet, l.once u)
              | inr there ↦ ground (arith, c, there, s.one_seat k u)
            ];
        one_owner = λ k.
            let c = (seat_all-count client k k n now seats d').1 in
            elim (Bool-cases (n == k)) [
              | inl here ↦
                  let none_yet = (nobody k k n (rows_of client d) (ground (arith, here)) s.old).1 in
                  ground (arith, c, here, none_yet, l.led)
              | inr there ↦ ground (arith, c, there, s.one_owner k)
            ];
      }

  pub direct-IsSeated :
      (registered : ℕ → Bool) (user target now : ℕ) (d : Db C M P N R K)
      → IsSeated d
      → IsSeated (get_or_create_direct client registered user target now d).1
  unfolding get_or_create_direct
  direct-IsSeated registered user target now d s =
      let c =
        create-IsSeated direct none none user (direct_seats user target) now d
          (direct_seats-IsLayout user target) s in
      elim (Option-cases (
        client.conversations.find_first (is_direct_of (client.members.rows d.members) user target)
          d.conversations)) [ inl e ↦ ground (arith, e, s, c) | inr (x, e) ↦ ground (arith, e, s) ]

  -- A new seat for somebody who has none yet, in a conversation that is there.
  add_one-IsSeated :
      (conversation target now : ℕ) (d : Db C M P N R K)
      → conversation < client.conversations.next_id d.conversations
      → client.members.find_first (is_seat conversation target) d.members ≡ none
      → IsSeated d
      → IsSeated (create_member client (new_member conversation target member now) d)
  add_one-IsSeated conversation target now d b n s =
      let new = new_member conversation target member now in
      let row = new (client.members.next_id d.members) in
      let e = client.members.rows-create new d.members in
      let absent =
        rw n at (client.members.find_first_lem (is_seat conversation target) d.members) in
      let zero = count_none (is_seat conversation target) (rows_of client d) absent in
      record {
        old = rw e (All-append _ (rows_of client d) _ s.old (b, tt));
        one_seat = λ k u. rw e (
            let a = count-append (is_seat k u) (rows_of client d) (row ∷ []) in
            elim (Bool-cases (is_seat k u row)) [
              | inr other ↦ ground (arith, s.one_seat k u, a, other)
              | inl own ↦
                  let p : conversation ≡ k = ground (arith, own) in
                  let q : target ≡ u = ground (arith, own) in
                  let z : count (is_seat k u) (rows_of client d) ≡ 0 =
                    subst (λ k. count (is_seat k u) (rows_of client d) ≡ 0) p
                      (subst (λ u. count (is_seat conversation u) (rows_of client d) ≡ 0) q zero) in
                  ground (arith, a, own, z)
            ]);
        one_owner = λ k.
            rw e
              (ground (arith, s.one_owner k, count-append (owns k) (rows_of client d) (row ∷ [])));
      }

  pub add-IsSeated :
      (asker conversation target now : ℕ) (d : Db C M P N R K)
      → IsSeated d
      → IsSeated (add_member client asker conversation target now d).1
  unfolding add_member assert_admin assert_member
  add-IsSeated asker conversation target now d s =
      elim (Option-cases (client.members.find_first (is_seat conversation target) d.members)) [
        | inr (t, e) ↦ ground (arith, e, s)
        | inl n ↦
            elim (Option-cases (client.members.find_first (is_seat conversation asker) d.members)) [
              | inl e ↦ ground (arith, e, s)
              | inr (m, e) ↦
                  let (hit, stands) =
                    rw e at
                      (client.members.find_first_lem (is_seat conversation asker) d.members) in
                  let old = All-In _ m (rows_of client d) s.old stands in
                  let here : m.conversation_id ≡ conversation = ground (arith, hit) in
                  let b : conversation < client.conversations.next_id d.conversations =
                    subst (λ k. k < client.conversations.next_id d.conversations) here old in
                  let c = add_one-IsSeated conversation target now d b n s in
                  ground (arith, e, n, s, c)
            ]
      ]

  -- A removal leaves the seats alone, or deletes one.
  remove-members :
      (asker conversation target : ℕ) (d : Db C M P N R K)
      → ((remove_member client asker conversation target d).1.conversations ≡ d.conversations)
        × (((remove_member client asker conversation target d).1.members ≡ d.members)
            ⊎ ((remove_member client asker conversation target d).1.members
                ≡ client.members.delete_where (is_seat conversation target) d.members))
  unfolding remove_member may_remove assert_admin assert_member
  remove-members asker conversation target d = ground arith

  pub remove-IsSeated :
      (asker conversation target : ℕ) (d : Db C M P N R K)
      → IsSeated d
      → IsSeated (remove_member client asker conversation target d).1
  remove-IsSeated asker conversation target d s =
      let e = (remove_member client asker conversation target d).1 in
      let (k, o) = remove-members asker conversation target d in
      let up : client.conversations.next_id d.conversations
          ≤ client.conversations.next_id e.conversations =
        rw k (omega arith) in
      elim o [
        | inl m ↦ same-IsSeated d e m up s
        | inr m ↦
            same-IsSeated (delete_members client (is_seat conversation target) d) e m up
              (delete-IsSeated (is_seat conversation target) d s)
      ]
