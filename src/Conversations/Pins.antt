-- ===== src/Conversations/Pins.antt =====
-- conversations.service.ts: the messages that a conversation has pinned, and its clearing.
use messenger_web_app.Prelude.{
  ℕ, Bool, true, false, not, ◌&&◌, Option, none, some, ◌==◌, nat_eq, leb, if◌then◌else◌, is_some,
  Action, gets, or_throw, ◌>>=◌, ◌>>◌, throw_if, modify, forbidden, missing_record, bad_request,
  not_found,
}
use messenger_web_app.Conversations.{
  Pin, Message, Db, Client, is_member_role, is_direct, is_seat, conversation_has_id, find_message,
  find_conversation, update_members, update_messages, update_conversations, delete_pins,
  assert_member, assert_admin,
}

abbrev pub max_pinned_messages : ℕ
max_pinned_messages = 20

abbrev pub pin_of : ℕ → ℕ → Pin → Bool
pin_of conversation message p = p.conversation_id == conversation && p.message_id == message

abbrev pub pinned_in : ℕ → Pin → Bool
pinned_in conversation p = p.conversation_id == conversation

abbrev pub new_pin : ℕ → ℕ → ℕ → ℕ → ℕ → Pin
new_pin conversation message user now id = record {
  id = id;
  conversation_id = conversation;
  message_id = message;
  pinned_by_id = user;
  pinned_at = now;
}

abbrev pub renewed : ℕ → ℕ → Pin → Pin
renewed user now p = record p { pinned_at = now; pinned_by_id = user }

-- `!msg || msg.conversationId !== conversationId`
abbrev pub is_elsewhere : ℕ → Option Message → Bool
is_elsewhere conversation none = true
is_elsewhere conversation (some m) = not (m.conversation_id == conversation)

abbrev pub is_deleted : Option Message → Bool
is_deleted none = false
is_deleted (some m) = is_some m.deleted_at

abbrev pub is_live_in : ℕ → Message → Bool
is_live_in conversation m = m.conversation_id == conversation && not (is_some m.deleted_at)

-- The scope of a clearing.
pub data Scope : Type 0 where
  self both : Scope

module _ {C M P N R K : Type 0} (client : Client C M P N R K) where
  abbrev pub count_pins : ℕ → Db C M P N R K → ℕ
  count_pins conversation d = client.pins.count_where (pinned_in conversation) d.pins

  abbrev pub create_pin : (ℕ → Pin) → Db C M P N R K → Db C M P N R K
  create_pin f d = record d { pins = client.pins.create f d.pins }

  abbrev pub update_pins : (Pin → Bool) → (Pin → Pin) → Db C M P N R K → Db C M P N R K
  update_pins p f d = record d { pins = client.pins.update_where p f d.pins }

  -- `upsert`
  unfoldable pub upsert_pin : ℕ → ℕ → ℕ → ℕ → Db C M P N R K → Db C M P N R K
  upsert_pin conversation message user now d =
      if is_some (client.pins.find_first (pin_of conversation message) d.pins)
      then update_pins (pin_of conversation message) (renewed user now) d
      else create_pin (new_pin conversation message user now) d

  -- The result is `pinnedCount`.
  unfoldable pub add_pinned_message : ℕ → ℕ → ℕ → ℕ → Action (Db C M P N R K) ℕ
  unfolding assert_admin upsert_pin
  add_pinned_message user conversation message now = do
    assert_admin client user conversation
    found ← find_message client message
    throw_if (is_elsewhere conversation found) (not_found "Message not found")
    throw_if (is_deleted found) (bad_request "Cannot pin a deleted message")
    current ← gets (count_pins conversation)
    throw_if (leb max_pinned_messages current) (bad_request "Cannot pin more than 20 messages")
    modify (upsert_pin conversation message user now)
    gets (count_pins conversation)

  unfoldable pub remove_pinned_message : ℕ → ℕ → ℕ → Action (Db C M P N R K) ℕ
  unfolding assert_admin
  remove_pinned_message user conversation message = do
    assert_admin client user conversation
    modify (delete_pins client (pin_of conversation message))
    gets (count_pins conversation)

  -- What `scope === 'both'` writes.
  unfoldable pub clear_for_all : ℕ → ℕ → Db C M P N R K → Db C M P N R K
  clear_for_all conversation now d =
      update_conversations client (conversation_has_id conversation)
        (λ x. record x { updated_at = now })
        (update_members client (λ m. m.conversation_id == conversation)
          (λ m. record m { cleared_at = some now })
          (delete_pins client (pinned_in conversation) (
            update_messages client (is_live_in conversation)
              (λ m. record m { deleted_at = some now }) d)))

  unfoldable pub clear_for_self : ℕ → ℕ → ℕ → Db C M P N R K → Db C M P N R K
  clear_for_self user conversation now =
      update_members client (is_seat conversation user) (λ m. record m { cleared_at = some now })

  unfoldable pub clear_messages : ℕ → ℕ → Scope → ℕ → Action (Db C M P N R K) (Unit {0})
  unfolding assert_member clear_for_all clear_for_self
  clear_messages user conversation scope now = do
    m ← assert_member client user conversation
    x ← or_throw (← find_conversation client conversation) missing_record
    elim scope [
      | both ↦ do
        throw_if (not (is_direct x.kind) && is_member_role m.role)
            (forbidden "Only admins can clear chat for everyone")
        modify (clear_for_all conversation now)
      | self ↦ modify (clear_for_self user conversation now)
    ]
