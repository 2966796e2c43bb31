-- ===== src/Conversations/PinLimit.antt =====
-- No conversation has more than `max_pinned_messages` pinned messages, whatever calls are made.
use messenger_web_app.Prelude.{
  ℕ, ◌≤◌, ◌<◌, ◌≡◌, refl, inl, inr, Bool, not, some, List, [], ◌∷◌, map, nat_eq, string_eq, count,
  count-append, count-filter-le, arith, Bool-cases, leb,
}
use messenger_web_app.Prelude.Store.{rewrite}
use messenger_web_app.Conversations.{
  group, channel, owner, Pin, Db, Client, assert_member, assert_admin, delete_pins,
}
use messenger_web_app.Conversations.Members.{
  create_group, create_channel, mark_as_read, group_seats,
}
use messenger_web_app.Conversations.Pins.{
  Scope, both, self, max_pinned_messages, pinned_in, pin_of, new_pin, renewed, upsert_pin,
  count_pins, add_pinned_message, remove_pinned_message, clear_messages, clear_for_all,
  clear_for_self,
}
use messenger_web_app.Conversations.Untouched.{
  get_or_create_direct-pins, create_conversation-pins, add_member-pins, remove_member-pins,
  set_member_role-pins, set_chat_pinned-pins, set_chat_archived-pins, delete_message-IsUntouched,
  edit_message-IsUntouched, forward_message-members, toggle_reaction-IsUntouched,
}
use messenger_web_app.Conversations.Saving.{delete_all_my_sender_keys}
use messenger_web_app.Conversations.Saved.{
  save_message-IsElsewhere, update_conversation-IsElsewhere, set_sender_key-IsElsewhere,
}
use messenger_web_app.Conversations.Calls.{
  Call, opens_direct, opens_group, opens_channel, adds, removes, sets_role, pins_chat,
  archives_chat, reads, pins, unpins, clears, deletes, edits, forwards, reacts, saves, renames,
  sends_keys, drops_keys, step,
}

-- A pin that is renewed stays where it is.
count-renewed :
    (conversation user now : ℕ) (p : Pin → Bool) (ps : List Pin)
    → count (pinned_in conversation) (map (rewrite p (renewed user now)) ps)
      ≡ count (pinned_in conversation) ps
count-renewed conversation user now p [] = refl
count-renewed conversation user now p (x ∷ ps) =
    ground (arith, count-renewed conversation user now p ps)

module _ {C M P N R K U : Type 0} (client : Client C M P N R K) (profile : ℕ → U) where
  abbrev pub pins_of : ℕ → Db C M P N R K → ℕ
  pins_of conversation d = count (pinned_in conversation) (client.pins.rows d.pins)

  pub record IsRoomy (d : Db C M P N R K) : Type 0 where
    pub at_most : (conversation : ℕ) → pins_of conversation d ≤ max_pinned_messages

  same-IsRoomy : (d e : Db C M P N R K) → e.pins ≡ d.pins → IsRoomy d → IsRoomy e
  same-IsRoomy d e q l = record { at_most = λ k. rw q (l.at_most k) }

  delete-IsRoomy :
      (p : Pin → Bool) (d : Db C M P N R K) → IsRoomy d → IsRoomy (delete_pins client p d)
  delete-IsRoomy p d l = record {
    at_most = λ k. rw (client.pins.rows-delete_where p d.pins) (
        omega (
          arith,
          count-filter-le (pinned_in k) (λ x. not (p x)) (client.pins.rows d.pins),
          l.at_most k,
        ));
  }

  -- Where there is room in the conversation.
  upsert-IsRoomy :
      (conversation message user now : ℕ) (d : Db C M P N R K)
      → pins_of conversation d < max_pinned_messages
      → IsRoomy d
      → IsRoomy (upsert_pin client conversation message user now d)
  unfolding upsert_pin
  upsert-IsRoomy conversation message user now d room l = record {
    at_most = λ k.
        let new = new_pin conversation message user now in
        let row = new (client.pins.next_id d.pins) in
        ground (
          arith,
          l.at_most k,
          client.pins.rows-create new d.pins,
          client.pins.rows-update_where (pin_of conversation message) (renewed user now) d.pins,
          count-renewed k user now (pin_of conversation message) (client.pins.rows d.pins),
          count-append (pinned_in k) (client.pins.rows d.pins) (row ∷ []),
        );
  }

  add-IsRoomy :
      (user conversation message now : ℕ) (d : Db C M P N R K)
      → IsRoomy d
      → IsRoomy (add_pinned_message client user conversation message now d).1
  unfolding add_pinned_message assert_admin assert_member
  add-IsRoomy user conversation message now d l =
      let n = client.pins.count_where_lem (pinned_in conversation) d.pins in
      elim (Bool-cases (leb max_pinned_messages (count_pins client conversation d))) [
        | inl full ↦ ground (arith, l, full)
        | inr room ↦
            let m = upsert-IsRoomy conversation message user now d (ground (arith, n, room)) l in
            ground (arith, l, m)
      ]

  remove-IsRoomy :
      (user conversation message : ℕ) (d : Db C M P N R K)
      → IsRoomy d
      → IsRoomy (remove_pinned_message client user conversation message d).1
  unfolding remove_pinned_message assert_admin assert_member
  remove-IsRoomy user conversation message d l =
      let m = delete-IsRoomy (pin_of conversation message) d l in ground (arith, l, m)

  clear-IsRoomy :
      (user conversation now : ℕ) (scope : Scope) (d : Db C M P N R K)
      → IsRoomy d
      → IsRoomy (clear_messages client user conversation scope now d).1
  unfolding clear_messages assert_member clear_for_all clear_for_self
  clear-IsRoomy user conversation now both d l =
      let m =
        same-IsRoomy (delete_pins client (pinned_in conversation) d)
          (clear_for_all client conversation now d) refl
          (delete-IsRoomy (pinned_in conversation) d l) in
      ground (arith, l, m)
  clear-IsRoomy user conversation now self d l =
      let m = same-IsRoomy d (clear_for_self client user conversation now d) refl l in
      ground (arith, l, m)

  -- No call gives a conversation more than twenty pinned messages.
  pub step-IsRoomy : (k : Call) (d : Db C M P N R K) → IsRoomy d → IsRoomy (step client profile k d)
  unfolding step create_group create_channel mark_as_read delete_all_my_sender_keys
  step-IsRoomy (opens_direct registered user target now) d l =
      same-IsRoomy d _ (get_or_create_direct-pins client profile registered user target now d) l
  step-IsRoomy (opens_group user name description ids now) d l =
      same-IsRoomy d _
        (create_conversation-pins client profile group (some name) description user
          (group_seats user ids) now d)
        l
  step-IsRoomy (opens_channel user name description now) d l =
      same-IsRoomy d _
        (create_conversation-pins client profile channel (some name) description user
          ((user, owner) ∷ []) now d)
        l
  step-IsRoomy (adds asker conversation target now) d l =
      same-IsRoomy d _ (add_member-pins client profile asker conversation target now d) l
  step-IsRoomy (removes asker conversation target) d l =
      same-IsRoomy d _ (remove_member-pins client profile asker conversation target d) l
  step-IsRoomy (sets_role asker conversation target role) d l =
      same-IsRoomy d _ (set_member_role-pins client profile asker conversation target role d) l
  step-IsRoomy (pins_chat user conversation flag) d l =
      same-IsRoomy d _ (set_chat_pinned-pins client profile user conversation flag d) l
  step-IsRoomy (archives_chat user conversation flag) d l =
      same-IsRoomy d _ (set_chat_archived-pins client profile user conversation flag d) l
  step-IsRoomy (reads user conversation now) d l = same-IsRoomy d _ refl l
  step-IsRoomy (pins user conversation message now) d l =
      add-IsRoomy user conversation message now d l
  step-IsRoomy (unpins user conversation message) d l = remove-IsRoomy user conversation message d l
  step-IsRoomy (clears user conversation scope now) d l =
      clear-IsRoomy user conversation now scope d l
  step-IsRoomy (deletes id user now) d l =
      same-IsRoomy d _ (delete_message-IsUntouched client profile id user now d).0 l
  step-IsRoomy (edits id user content now) d l =
      same-IsRoomy d _ (edit_message-IsUntouched client profile id user content now d).0 l
  step-IsRoomy (forwards user id target encrypted now) d l =
      same-IsRoomy d _ (forward_message-members client profile user id target encrypted now d).0 l
  step-IsRoomy (reacts message user emoji) d l =
      same-IsRoomy d _ (toggle_reaction-IsUntouched client profile message user emoji d).0 l
  step-IsRoomy (saves validate user conversation draft now) d l =
      let u = save_message-IsElsewhere client validate user conversation draft now d in
      same-IsRoomy d _ u.1 l
  step-IsRoomy (renames user conversation change now) d l =
      let u = update_conversation-IsElsewhere client user conversation change now d in
      same-IsRoomy d _ u.1 l
  step-IsRoomy (sends_keys user conversation keys version) d l =
      let u = set_sender_key-IsElsewhere client user conversation keys version d in
      same-IsRoomy d _ u.1 l
  step-IsRoomy (drops_keys user) d l = same-IsRoomy d _ refl l
