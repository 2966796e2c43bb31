-- ===== src/Conversations/Seats.antt =====
-- A user has at most one seat in a conversation, and a conversation at most one owner, whatever
-- calls of the service are made.
pub mod Opening
pub mod Keeping
use messenger_web_app.Prelude.{
  ℕ, ◌≡◌, ◌≤◌, refl, ap, inl, inr, Bool, true, false, Option, none, some, String, List, [], ◌∷◌,
  arith, Bool-cases, Option-cases, is_some, ◌==◌, nat_eq, In, ok, map, subst, sym,
}
use messenger_web_app.Prelude.Store.{rewrite}
use messenger_web_app.Prelude.Rows.{In_map}
use messenger_web_app.Conversations.{
  Role, Member, is_owner_role, owner, group, channel, Conversation, Db, Client, assert_member,
  find_member, is_seat, update_members, update_conversations, conversation_has_id,
}
use messenger_web_app.Conversations.Members.{
  create_group, create_channel, group_seats, set_member_role, set_chat_pinned, set_chat_archived,
  mark_as_read, with_role, with_pinned, with_archived,
}
use messenger_web_app.Conversations.Pins.{
  Scope, both, self, add_pinned_message, remove_pinned_message, upsert_pin, clear_messages,
  clear_for_all, clear_for_self,
}
use messenger_web_app.Conversations.Messages.{forward_message}
use messenger_web_app.Conversations.Saving.{delete_all_my_sender_keys}
use messenger_web_app.Conversations.Saved.{
  save_message-IsElsewhere, update_conversation-IsElsewhere, set_sender_key-IsElsewhere,
}
use messenger_web_app.Conversations.Calls.{
  Call, opens_direct, opens_group, opens_channel, adds, removes, sets_role, pins_chat,
  archives_chat, reads, pins, unpins, clears, deletes, edits, forwards, reacts, saves, renames,
  sends_keys, drops_keys, step, gives_owner,
}
use messenger_web_app.Conversations.Untouched.{
  IsUntouched, delete_message-IsUntouched, edit_message-IsUntouched, toggle_reaction-IsUntouched,
  add_pinned_message-members, remove_pinned_message-members, forward_message-members,
  forward_message-conversations,
}
use messenger_web_app.Conversations.Seats.Opening.{owns, IsLayout, group_seats-IsLayout}
use messenger_web_app.Conversations.Seats.Keeping.{
  IsSeated, IsTame, same-IsSeated, update-IsSeated, create-IsSeated, direct-IsSeated, add-IsSeated,
  remove-IsSeated,
}

role-IsTame : (role : Role) → is_owner_role role ≡ false → IsTame (with_role role)
role-IsTame role h m = (refl, refl, λ e. ground (arith, e, h))

owner_alone-IsLayout : (user : ℕ) → IsLayout ((user, owner) ∷ [])
owner_alone-IsLayout user = record { once = λ u. ground arith; led = ground arith }

other_seat :
    (conversation asker target : ℕ) (a : Member)
    → (asker == target) ≡ false
    → is_seat conversation asker a ≡ true
    → rewrite (is_seat conversation target) (with_role owner) a ≡ a
other_seat conversation asker target a n h =
    let no : is_seat conversation target a ≡ false = ground (arith, n, h) in rw no refl

module _ {C M P N R K U : Type 0} (client : Client C M P N R K) (profile : ℕ → U) where
  role-IsSeated :
      (asker conversation target : ℕ) (role : Role) (d : Db C M P N R K)
      → is_owner_role role ≡ false
      → IsSeated client d
      → IsSeated client (set_member_role client asker conversation target role d).1
  unfolding set_member_role
  role-IsSeated asker conversation target role d h s =
      let c =
        update-IsSeated client (is_seat conversation target) (with_role role) d (role-IsTame role h)
          s in
      ground (arith, s, c)

  -- The owner of a conversation may make another member an owner too: nothing in the call refuses it,
  -- and then the conversation has two.
  pub set_member_role-owns :
      (asker conversation target : ℕ) (a t : Member) (d : Db C M P N R K)
      → client.members.find_first (is_seat conversation asker) d.members ≡ some a
      → is_owner_role a.role ≡ true
      → client.members.find_first (is_seat conversation target) d.members ≡ some t
      → (asker == target) ≡ false
      → ((set_member_role client asker conversation target owner d).0 ≡ ok tt)
        × ((x : Member) × (y : Member) × In x (
              client.members.rows
                (set_member_role client asker conversation target owner d).1.members)
            × In y (
                client.members.rows
                  (set_member_role client asker conversation target owner d).1.members)
            × ((x.user_id ≡ asker) × (y.user_id ≡ target))
            × ((owns conversation x ≡ true) × (owns conversation y ≡ true)))
  unfolding set_member_role
  set_member_role-owns asker conversation target a t d f o g n =
      let (seat, there) =
        rw f at (client.members.find_first_lem (is_seat conversation asker) d.members) in
      let (seat', there') =
        rw g at (client.members.find_first_lem (is_seat conversation target) d.members) in
      let turn = rewrite (is_seat conversation target) (with_role owner) in
      let rows =
        client.members.rows-update_where (is_seat conversation target) (with_role owner)
          d.members in
      let new =
        client.members.update_where (is_seat conversation target) (with_role owner) d.members in
      let same : turn a ≡ a = other_seat conversation asker target a n seat in
      let turned : turn t ≡ with_role owner t = rw seat' refl in
      let e : (set_member_role client asker conversation target owner d).1.members ≡ new =
        ground (arith, f, o, g) in
      let x : In a (client.members.rows new) = rw rows (
        subst (λ (z : Member). In z (map turn (client.members.rows d.members))) same
          (In_map turn a (client.members.rows d.members) there)) in
      let y : In (with_role owner t) (client.members.rows new) = rw rows (
        subst (λ (z : Member). In z (map turn (client.members.rows d.members))) turned
          (In_map turn t (client.members.rows d.members) there')) in
      (
        ground (arith, f, o, g),
        (
          a,
          with_role owner t,
          subst (λ (z : M). In a (client.members.rows z)) (sym e) x,
          subst (λ (z : M). In (with_role owner t) (client.members.rows z)) (sym e) y,
          (ground (arith, seat), ground (arith, seat')),
          (ground (arith, seat, o), ground (arith, seat')),
        ),
      )

  flag-IsSeated :
      (user conversation : ℕ) (flag : Bool) (d : Db C M P N R K)
      → IsSeated client d
      → IsSeated client (set_chat_pinned client user conversation flag d).1
        × IsSeated client (set_chat_archived client user conversation flag d).1
  unfolding set_chat_pinned set_chat_archived assert_member
  flag-IsSeated user conversation flag d s =
      let a =
        update-IsSeated client (is_seat conversation user) (with_pinned flag) d
          (λ m. (refl, refl, λ e. e)) s in
      let b =
        update-IsSeated client (is_seat conversation user) (with_archived flag) d
          (λ m. (refl, refl, λ e. e)) s in
      (ground (arith, s, a), ground (arith, s, b))

  clear-IsSeated :
      (user conversation now : ℕ) (scope : Scope) (d : Db C M P N R K)
      → IsSeated client d
      → IsSeated client (clear_messages client user conversation scope now d).1
  unfolding clear_messages assert_member clear_for_all clear_for_self
  clear-IsSeated user conversation now both d s =
      let cleared =
        update-IsSeated client (λ m. m.conversation_id == conversation)
          (λ m. record m { cleared_at = some now }) d (λ m. (refl, refl, λ e. e)) s in
      let e = clear_for_all client conversation now d in
      let same =
        client.conversations.next_id-update_where (conversation_has_id conversation)
          (λ x. record x { updated_at = now }) d.conversations in
      let c =
        same-IsSeated client
          (update_members client (λ m. m.conversation_id == conversation)
            (λ m. record m { cleared_at = some now }) d)
          e refl (rw same (omega arith)) cleared in
      ground (arith, s, c)
  clear-IsSeated user conversation now self d s =
      let c =
        update-IsSeated client (is_seat conversation user) (λ m. record m { cleared_at = some now })
          d (λ m. (refl, refl, λ e. e)) s in
      ground (arith, s, c)

  untouched-IsSeated :
      (d e : Db C M P N R K)
      → e.members ≡ d.members
      → e.conversations ≡ d.conversations
      → IsSeated client d
      → IsSeated client e
  untouched-IsSeated d e m k s = same-IsSeated client d e m (rw k (omega arith)) s

  -- Every call but one that gives a member the role of an owner keeps this: nobody has two seats in a
  -- conversation, no conversation has two owners,
  -- and nobody is a member of a conversation whose id is still to be given.
  pub step-IsSeated :
      (k : Call) (d : Db C M P N R K)
      → gives_owner k ≡ false
      → IsSeated client d
      → IsSeated client (step client profile k d)
  unfolding step create_group create_channel mark_as_read delete_all_my_sender_keys
  step-IsSeated (opens_direct registered user target now) d h s =
      direct-IsSeated client registered user target now d s
  step-IsSeated (opens_group user name description ids now) d h s =
      create-IsSeated client group (some name) description user (group_seats user ids) now d
        (group_seats-IsLayout user ids) s
  step-IsSeated (opens_channel user name description now) d h s =
      create-IsSeated client channel (some name) description user ((user, owner) ∷ []) now d
        (owner_alone-IsLayout user) s
  step-IsSeated (adds asker conversation target now) d h s =
      add-IsSeated client asker conversation target now d s
  step-IsSeated (removes asker conversation target) d h s =
      remove-IsSeated client asker conversation target d s
  step-IsSeated (sets_role asker conversation target role) d h s =
      role-IsSeated asker conversation target role d h s
  step-IsSeated (pins_chat user conversation flag) d h s =
      (flag-IsSeated user conversation flag d s).0
  step-IsSeated (archives_chat user conversation flag) d h s =
      (flag-IsSeated user conversation flag d s).1
  step-IsSeated (reads user conversation now) d h s =
      update-IsSeated client (is_seat conversation user) (λ m. record m { last_read_at = now }) d
        (λ m. (refl, refl, λ e. e)) s
  step-IsSeated (pins user conversation message now) d h s =
      let u = add_pinned_message-members client profile user conversation message now d in
      untouched-IsSeated d _ u.0 u.1 s
  step-IsSeated (unpins user conversation message) d h s =
      let u = remove_pinned_message-members client profile user conversation message d in
      untouched-IsSeated d _ u.0 u.1 s
  step-IsSeated (clears user conversation scope now) d h s =
      clear-IsSeated user conversation now scope d s
  step-IsSeated (deletes id user now) d h s =
      let u = delete_message-IsUntouched client profile id user now d in
      untouched-IsSeated d _ u.1 u.2 s
  step-IsSeated (edits id user content now) d h s =
      let u = edit_message-IsUntouched client profile id user content now d in
      untouched-IsSeated d _ u.1 u.2 s
  step-IsSeated (forwards user id target encrypted now) d h s =
      same-IsSeated client d _
        (forward_message-members client profile user id target encrypted now d).1
        (rw (forward_message-conversations client profile user id target encrypted now d)
          (omega arith))
        s
  step-IsSeated (reacts message user emoji) d h s =
      let u = toggle_reaction-IsUntouched client profile message user emoji d in
      untouched-IsSeated d _ u.1 u.2 s
  step-IsSeated (saves validate user conversation draft now) d h s =
      let u = save_message-IsElsewhere client validate user conversation draft now d in
      same-IsSeated client d _ u.0 (rw u.2 (omega arith)) s
  step-IsSeated (renames user conversation change now) d h s =
      let u = update_conversation-IsElsewhere client user conversation change now d in
      same-IsSeated client d _ u.0 (rw u.2 (omega arith)) s
  step-IsSeated (sends_keys user conversation keys version) d h s =
      let u = set_sender_key-IsElsewhere client user conversation keys version d in
      same-IsSeated client d _ u.0 (rw u.2 (omega arith)) s
  step-IsSeated (drops_keys user) d h s = same-IsSeated client d _ refl (omega arith) s
