-- ===== src/Conversations/Untouched.antt =====
-- The tables that a call leaves as they are: those of pins and members by the calls on messages and
-- reactions, and that of pins by the calls on members.
use messenger_web_app.Prelude.{
  ℕ, ◌≡◌, refl, inl, inr, Bool, Option, none, some, String, List, [], ◌∷◌, nat_eq, string_eq, arith,
  Option-cases,
}
use messenger_web_app.Conversations.{
  Role, Kind, direct, Reaction, Db, Client, assert_member, assert_admin, message_has_id,
  conversation_has_id, update_messages,
}
use messenger_web_app.Conversations.Members.{
  get_or_create_direct, create_conversation, seat_all, add_member, may_remove, remove_member,
  set_member_role, set_chat_pinned, set_chat_archived, direct_seats, is_direct_of,
}
use messenger_web_app.Conversations.Pins.{add_pinned_message, remove_pinned_message, upsert_pin}
use messenger_web_app.Conversations.Messages.{
  drop_file, delete_message, edit_message, forward_message, deleted_at_time,
}
use messenger_web_app.Conversations.Reactions.{toggle_reaction, flip, is_reaction}

module _ {C M P N R K U : Type 0} (client : Client C M P N R K) (profile : ℕ → U) where
  abbrev pub IsUntouched : Db C M P N R K → Db C M P N R K → Type 0
  IsUntouched d e =
      (e.pins ≡ d.pins) × (e.members ≡ d.members) × (e.conversations ≡ d.conversations)

  drop_file-IsUntouched :
      (url : Option String) (id : ℕ) (d : Db C M P N R K)
      → IsUntouched d (drop_file client url id d)
  unfolding drop_file
  drop_file-IsUntouched none id d = (refl, refl, refl)
  drop_file-IsUntouched (some url) id d = ground arith

  pub delete_message-IsUntouched :
      (id user now : ℕ) (d : Db C M P N R K) → IsUntouched d (delete_message client id user now d).1
  unfolding delete_message
  delete_message-IsUntouched id user now d =
      elim (Option-cases (client.messages.find_first (message_has_id id) d.messages)) [
        | inl e ↦ rw (e, delete_message) (refl, refl, refl)
        | inr (m, e) ↦
            let f =
              drop_file-IsUntouched m.file_url id
                (update_messages client (message_has_id id) (deleted_at_time now) d) in
            ground (arith, e, f.0, f.1, f.2)
      ]

  pub edit_message-IsUntouched :
      (id user : ℕ) (content : String) (now : ℕ) (d : Db C M P N R K)
      → IsUntouched d (edit_message client id user content now d).1
  unfolding edit_message
  edit_message-IsUntouched id user content now d = ground arith

  pub forward_message-members :
      (user id target : ℕ) (encrypted : Option String) (now : ℕ) (d : Db C M P N R K)
      → ((forward_message client user id target encrypted now d).1.pins ≡ d.pins)
        × ((forward_message client user id target encrypted now d).1.members ≡ d.members)
  unfolding forward_message assert_member
  forward_message-members user id target encrypted now d = ground arith

  pub forward_message-conversations :
      (user id target : ℕ) (encrypted : Option String) (now : ℕ) (d : Db C M P N R K)
      → client.conversations.next_id
          (forward_message client user id target encrypted now d).1.conversations
        ≡ client.conversations.next_id d.conversations
  unfolding forward_message assert_member
  forward_message-conversations user id target encrypted now d = ground (
    arith,
    client.conversations.next_id-update_where (conversation_has_id target)
        (λ x. record x { updated_at = now }) d.conversations,
  )

  pub add_pinned_message-members :
      (user conversation message now : ℕ) (d : Db C M P N R K)
      → ((add_pinned_message client user conversation message now d).1.members ≡ d.members)
        × ((add_pinned_message client user conversation message now d).1.conversations
            ≡ d.conversations)
  unfolding add_pinned_message assert_admin assert_member upsert_pin
  add_pinned_message-members user conversation message now d = ground arith

  pub remove_pinned_message-members :
      (user conversation message : ℕ) (d : Db C M P N R K)
      → ((remove_pinned_message client user conversation message d).1.members ≡ d.members)
        × ((remove_pinned_message client user conversation message d).1.conversations
            ≡ d.conversations)
  unfolding remove_pinned_message assert_admin assert_member
  remove_pinned_message-members user conversation message d = ground arith

  flip-IsUntouched :
      (o : Option Reaction) (user message : ℕ) (emoji : String) (d : Db C M P N R K)
      → IsUntouched d (flip client profile o user message emoji d)
  unfolding flip
  flip-IsUntouched none user message emoji d = (refl, refl, refl)
  flip-IsUntouched (some r) user message emoji d = (refl, refl, refl)

  pub toggle_reaction-IsUntouched :
      (message user : ℕ) (emoji : String) (d : Db C M P N R K)
      → IsUntouched d (toggle_reaction client profile message user emoji d).1
  unfolding toggle_reaction assert_member
  toggle_reaction-IsUntouched message user emoji d =
      let f =
        flip-IsUntouched (client.reactions.find_first (is_reaction user message emoji) d.reactions)
          user message emoji d in
      ground (arith, f.0, f.1, f.2)

  pub seat_all-pins :
      (conversation now : ℕ) (seats : List (ℕ × Role)) (d : Db C M P N R K)
      → (seat_all client conversation now seats d).pins ≡ d.pins
  unfolding seat_all
  seat_all-pins conversation now [] d = refl
  seat_all-pins conversation now ((user, role) ∷ rest) d = seat_all-pins conversation now rest _

  pub create_conversation-pins :
      (kind : Kind) (name description : Option String) (user : ℕ) (seats : List (ℕ × Role))
      (now : ℕ) (d : Db C M P N R K)
      → (create_conversation client kind name description user seats now d).1.pins ≡ d.pins
  unfolding create_conversation
  create_conversation-pins kind name description user seats now d = seat_all-pins _ now seats _

  pub get_or_create_direct-pins :
      (registered : ℕ → Bool) (user target now : ℕ) (d : Db C M P N R K)
      → (get_or_create_direct client registered user target now d).1.pins ≡ d.pins
  unfolding get_or_create_direct
  get_or_create_direct-pins registered user target now d =
      elim (Option-cases (
        client.conversations.find_first (is_direct_of (client.members.rows d.members) user target)
          d.conversations)) [
            | inl e ↦
                let c =
                  create_conversation-pins direct none none user (direct_seats user target) now d in
                ground (arith, e, c)
            | inr (x, e) ↦ ground (arith, e)
          ]

  pub add_member-pins :
      (asker conversation target now : ℕ) (d : Db C M P N R K)
      → (add_member client asker conversation target now d).1.pins ≡ d.pins
  unfolding add_member assert_admin assert_member
  add_member-pins asker conversation target now d = ground arith

  pub remove_member-pins :
      (asker conversation target : ℕ) (d : Db C M P N R K)
      → (remove_member client asker conversation target d).1.pins ≡ d.pins
  unfolding remove_member may_remove assert_admin assert_member
  remove_member-pins asker conversation target d = ground arith

  pub set_member_role-pins :
      (asker conversation target : ℕ) (role : Role) (d : Db C M P N R K)
      → (set_member_role client asker conversation target role d).1.pins ≡ d.pins
  unfolding set_member_role
  set_member_role-pins asker conversation target role d = ground arith

  pub set_chat_pinned-pins :
      (user conversation : ℕ) (flag : Bool) (d : Db C M P N R K)
      → (set_chat_pinned client user conversation flag d).1.pins ≡ d.pins
  unfolding set_chat_pinned assert_member
  set_chat_pinned-pins user conversation flag d = ground arith

  pub set_chat_archived-pins :
      (user conversation : ℕ) (flag : Bool) (d : Db C M P N R K)
      → (set_chat_archived client user conversation flag d).1.pins ≡ d.pins
  unfolding set_chat_archived assert_member
  set_chat_archived-pins user conversation flag d = ground arith
