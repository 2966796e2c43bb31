-- ===== src/Conversations/Calls.antt =====
-- The calls of `ConversationsService` that change its tables, and the state after one of them, whether
-- it throws or not.
use messenger_web_app.Prelude.{ℕ, Bool, false, Option, String, List}
use messenger_web_app.Conversations.{Role, Db, Client, is_owner_role}
use messenger_web_app.Conversations.Members.{
  get_or_create_direct, create_group, create_channel, add_member, remove_member, set_member_role,
  set_chat_pinned, set_chat_archived, mark_as_read,
}
use messenger_web_app.Conversations.Pins.{
  Scope, add_pinned_message, remove_pinned_message, clear_messages,
}
use messenger_web_app.Conversations.Messages.{delete_message, edit_message, forward_message}
use messenger_web_app.Conversations.Reactions.{toggle_reaction}
use messenger_web_app.Metadata.{Checked}
use messenger_web_app.Conversations.Saving.{
  Draft, ConversationUpdate, save_message, update_conversation, set_sender_key,
  delete_all_my_sender_keys,
}

pub data Call : Type 0 where
  opens_direct : (ℕ → Bool) → ℕ → ℕ → ℕ → Call
  opens_group : ℕ → String → Option String → List ℕ → ℕ → Call
  opens_channel : ℕ → String → Option String → ℕ → Call
  adds : ℕ → ℕ → ℕ → ℕ → Call
  removes : ℕ → ℕ → ℕ → Call
  sets_role : ℕ → ℕ → ℕ → Role → Call
  pins_chat archives_chat : ℕ → ℕ → Bool → Call
  reads : ℕ → ℕ → ℕ → Call
  pins : ℕ → ℕ → ℕ → ℕ → Call
  unpins : ℕ → ℕ → ℕ → Call
  clears : ℕ → ℕ → Scope → ℕ → Call
  deletes : ℕ → ℕ → ℕ → Call
  edits : ℕ → ℕ → String → ℕ → Call
  forwards : ℕ → ℕ → ℕ → Option String → ℕ → Call
  reacts : ℕ → ℕ → String → Call
  saves : (Option String → Checked (Option String)) → ℕ → ℕ → Draft → ℕ → Call
  renames : ℕ → ℕ → ConversationUpdate → ℕ → Call
  sends_keys : ℕ → ℕ → List (ℕ × String) → ℕ → Call
  drops_keys : ℕ → Call

-- A call that gives a member the role of an owner.
abbrev pub gives_owner : Call → Bool
gives_owner (sets_role asker conversation target role) = is_owner_role role
gives_owner _ = false

module _ {C M P N R K U : Type 0} (client : Client C M P N R K) (profile : ℕ → U) where
  unfoldable pub step : Call → Db C M P N R K → Db C M P N R K
  step (opens_direct registered user target now) d =
      (get_or_create_direct client registered user target now d).1
  step (opens_group user name description ids now) d =
      (create_group client user name description ids now d).1
  step (opens_channel user name description now) d =
      (create_channel client user name description now d).1
  step (adds asker conversation target now) d =
      (add_member client asker conversation target now d).1
  step (removes asker conversation target) d = (remove_member client asker conversation target d).1
  step (sets_role asker conversation target role) d =
      (set_member_role client asker conversation target role d).1
  step (pins_chat user conversation flag) d = (set_chat_pinned client user conversation flag d).1
  step (archives_chat user conversation flag) d =
      (set_chat_archived client user conversation flag d).1
  step (reads user conversation now) d = (mark_as_read client user conversation now d).1
  step (pins user conversation message now) d =
      (add_pinned_message client user conversation message now d).1
  step (unpins user conversation message) d =
      (remove_pinned_message client user conversation message d).1
  step (clears user conversation scope now) d =
      (clear_messages client user conversation scope now d).1
  step (deletes id user now) d = (delete_message client id user now d).1
  step (edits id user content now) d = (edit_message client id user content now d).1
  step (forwards user id target encrypted now) d =
      (forward_message client user id target encrypted now d).1
  step (reacts message user emoji) d = (toggle_reaction client profile message user emoji d).1
  step (saves validate user conversation draft now) d =
      (save_message client validate user conversation draft now d).1
  step (renames user conversation u now) d =
      (update_conversation client user conversation u now d).1
  step (sends_keys user conversation keys version) d =
      (set_sender_key client user conversation keys version d).1
  step (drops_keys user) d = (delete_all_my_sender_keys client user d).1
