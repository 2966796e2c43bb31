-- ===== src/Conversations/Seats/Opening.antt =====
-- The seats of a conversation that is opened: nobody has two of them, and at most one is an owner's.
use messenger_web_app.Prelude.{
  ℕ, ◌+◌, ◌≤◌, ◌<◌, ◌≡◌, refl, Bool, not, ◌&&◌, List, [], ◌∷◌, ◌==◌, nat_eq, if◌then◌else◌, filter,
  count, count-append, arith, All, All-append,
}
use messenger_web_app.Conversations.{
  Role, owner, admin, member, Member, Db, Client, is_owner_role, is_seat, create_member,
}
use messenger_web_app.Conversations.Members.{
  seat_all, new_member, as_members, unique_ids, group_seats, direct_seats,
}

abbrev pub owns : ℕ → Member → Bool
owns conversation m = m.conversation_id == conversation && is_owner_role m.role

abbrev pub for_user : ℕ → ℕ × Role → Bool
for_user user (u, _) = u == user

abbrev pub for_owner : ℕ × Role → Bool
for_owner (_, role) = is_owner_role role

pub record IsLayout (seats : List (ℕ × Role)) : Type 0 where
  pub once : (user : ℕ) → count (for_user user) seats ≤ 1
  pub led : count for_owner seats ≤ 1

-- A filter that keeps the others of a user leaves none of the user's.
count_filtered :
    (user other : ℕ) (ids : List ℕ)
    → count (λ i. i == user) (filter (λ y. not (y == other)) ids)
      ≡ (if user == other then 0 else count (λ i. i == user) ids)
count_filtered user other [] = ground arith
count_filtered user other (x ∷ ids) = ground (arith, count_filtered user other ids)

unique_ids-once : (user : ℕ) (ids : List ℕ) → count (λ i. i == user) (unique_ids ids) ≤ 1
unique_ids-once user [] = omega arith
unique_ids-once user (x ∷ ids) =
    ground (arith, count_filtered user x (unique_ids ids), unique_ids-once user ids)

unique_ids-le :
    (user : ℕ) (ids : List ℕ) → count (λ i. i == user) (unique_ids ids) ≤ count (λ i. i == user) ids
unique_ids-le user [] = omega arith
unique_ids-le user (x ∷ ids) =
    ground (arith, count_filtered user x (unique_ids ids), unique_ids-le user ids)

as_members-for_user :
    (user : ℕ) (ids : List ℕ) → count (for_user user) (as_members ids) ≡ count (λ i. i == user) ids
as_members-for_user user [] = refl
as_members-for_user user (x ∷ ids) = ground (arith, as_members-for_user user ids)

as_members-for_owner : (ids : List ℕ) → count for_owner (as_members ids) ≡ 0
as_members-for_owner [] = refl
as_members-for_owner (x ∷ ids) = ground (arith, as_members-for_owner ids)

pub direct_seats-IsLayout : (user target : ℕ) → IsLayout (direct_seats user target)
direct_seats-IsLayout user target = record { once = λ u. ground arith; led = ground arith }

-- Nobody else's seat is the creator's.
count-unique_ids-filter :
    (user other : ℕ) (ids : List ℕ)
    → count (λ i. i == user) (unique_ids (filter (λ y. not (y == other)) ids))
      ≤ (if user == other then 0 else 1)
count-unique_ids-filter user other ids = ground (
  arith,
  unique_ids-once user (filter (λ y. not (y == other)) ids),
  unique_ids-le user (filter (λ y. not (y == other)) ids),
  count_filtered user other ids,
)

pub group_seats-IsLayout : (user : ℕ) (ids : List ℕ) → IsLayout (group_seats user ids)
group_seats-IsLayout user ids =
    let others = unique_ids (filter (λ id. not (id == user)) ids) in
    record {
      once = λ u. ground (arith, as_members-for_user u others, count-unique_ids-filter u user ids);
      led = ground (arith, as_members-for_owner others);
    }

module _ {C M P N R K : Type 0} (client : Client C M P N R K) where
  abbrev pub rows_of : Db C M P N R K → List Member
  rows_of d = client.members.rows d.members

  pub seat_all-count :
      (k user n now : ℕ) (seats : List (ℕ × Role)) (d : Db C M P N R K)
      → (count (is_seat k user) (rows_of (seat_all client n now seats d))
          ≡ count (is_seat k user) (rows_of d)
            + (if n == k then count (for_user user) seats else 0))
        × (count (owns k) (rows_of (seat_all client n now seats d))
            ≡ count (owns k) (rows_of d) + (if n == k then count for_owner seats else 0))
  unfolding seat_all
  seat_all-count k user n now [] d = ground arith
  seat_all-count k user n now ((u, role) ∷ seats) d =
      let new = new_member n u role now in
      let row = new (client.members.next_id d.members) in
      let i = seat_all-count k user n now seats (create_member client new d) in
      let e = client.members.rows-create new d.members in
      let a = count-append (is_seat k user) (rows_of d) (row ∷ []) in
      let b = count-append (owns k) (rows_of d) (row ∷ []) in
      elim role [
        | owner ↦ ground (arith, i.0, i.1, e, a, b)
        | admin ↦ ground (arith, i.0, i.1, e, a, b)
        | member ↦ ground (arith, i.0, i.1, e, a, b)
      ]

  pub seat_all-old :
      (bound n now : ℕ) (seats : List (ℕ × Role)) (d : Db C M P N R K)
      → n < bound
      → All (λ (m : Member). m.conversation_id < bound) (rows_of d)
      → All (λ (m : Member). m.conversation_id < bound) (rows_of (seat_all client n now seats d))
  unfolding seat_all
  seat_all-old bound n now [] d l h = h
  seat_all-old bound n now ((u, role) ∷ seats) d l h =
      let new = new_member n u role now in
      seat_all-old bound n now seats (create_member client new d) l
        (rw (client.members.rows-create new d.members) (All-append _ (rows_of d) _ h (l, tt)))

  pub seat_all-conversations :
      (n now : ℕ) (seats : List (ℕ × Role)) (d : Db C M P N R K)
      → (seat_all client n now seats d).conversations ≡ d.conversations
  unfolding seat_all
  seat_all-conversations n now [] d = refl
  seat_all-conversations n now ((u, role) ∷ seats) d = seat_all-conversations n now seats _
