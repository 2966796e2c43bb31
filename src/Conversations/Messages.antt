-- ===== src/Conversations/Messages.antt =====
-- conversations.service.ts: deleting, editing and forwarding a message.
use Prim.Native.Char.{Char, code}
use messenger_web_app.Prelude.{
  ℕ, ◌+◌, ◌*◌, Bool, true, false, not, ◌&&◌, Option, none, some, String, ◌∷◌, ◌==◌, nat_eq,
  string_eq, ltb, if◌then◌else◌, is_some, Action, pure, gets, or_throw, ◌>>=◌, ◌>>◌, throw_if,
  modify, forbidden, missing_record, bad_request, not_found,
}
use messenger_web_app.Prelude.Texts.{is_white}
use messenger_web_app.Conversations.{
  Member, Message, Db, Client, is_member_role, conversation_has_id, message_has_id, find_message,
  find_member, find_conversation, update_messages, update_conversations, assert_member,
}

abbrev pub edit_window_ms : ℕ
edit_window_ms = 15 * 60 * 1000

unfoldable pub trim_start : String → String
trim_start String.[] = String.[]
trim_start (String.◌∷◌ k s) = if is_white (code k) then trim_start s else String.◌∷◌ k s

abbrev pub put_kept : Bool → Char → String → String
put_kept white k String.[] = if white then String.[] else String.◌∷◌ k String.[]
put_kept white k (String.◌∷◌ j s) = String.◌∷◌ k (String.◌∷◌ j s)

unfoldable pub trim_end : String → String
trim_end String.[] = String.[]
trim_end (String.◌∷◌ k s) = put_kept (is_white (code k)) k (trim_end s)

unfoldable pub trim : String → String
trim s = trim_end (trim_start s)

-- `!m || m.role === 'MEMBER'`
abbrev pub is_no_admin : Option Member → Bool
is_no_admin none = true
is_no_admin (some m) = is_member_role m.role

abbrev pub is_url : Option String → String → Bool
is_url none url = false
is_url (some u) url = u == url

-- `fileUrl: msg.fileUrl, deletedAt: null, id: { not: messageId }`
abbrev pub refers_to : String → ℕ → Message → Bool
refers_to url id m = is_url m.file_url url && not (is_some m.deleted_at) && not (m.id == id)

abbrev pub deleted_at_time : ℕ → Message → Message
deleted_at_time now m = record m { deleted_at = some now }

abbrev pub edited_to : String → ℕ → Message → Message
edited_to content now m = record m { content = content; edited_at = some now }

-- The row of a forwarded message.
abbrev pub forwarded : ℕ → ℕ → String → Message → ℕ → ℕ → Message
forwarded user conversation content original now id = record {
  id = id;
  content = content;
  created_at = now;
  edited_at = none;
  deleted_at = none;
  file_url = original.file_url;
  file_name = original.file_name;
  file_type = original.file_type;
  file_size = original.file_size;
  forwarded_from_id = some original.id;
  forwarded_from_user_id = some original.sender_id;
  reply_to_id = none;
  metadata = none;
  scheduled_at = none;
  sender_device_id = none;
  sender_id = user;
  conversation_id = conversation;
}

module _ {C M P N R K : Type 0} (client : Client C M P N R K) where
  -- The file of a deleted message goes when no other message that is not deleted refers to it; an
  -- empty address counts as none.
  unfoldable pub drop_file : Option String → ℕ → Db C M P N R K → Db C M P N R K
  drop_file none id d = d
  drop_file (some url) id d =
      if not (url == "") && client.messages.count_where (refers_to url id) d.messages == 0
      then record d { deleted_files = url ∷ d.deleted_files }
      else d

  unfoldable pub delete_message : ℕ → ℕ → ℕ → Action (Db C M P N R K) (Unit {0})
  unfolding drop_file
  delete_message id user now = do
    msg ← or_throw (← find_message client id) (not_found "Message not found")
    m ← find_member client msg.conversation_id user
    throw_if (not (msg.sender_id == user) && is_no_admin m) (forbidden "Cannot delete this message")
    if is_some msg.deleted_at
        then pure tt
        else modify (λ d.
          drop_file msg.file_url id
            (update_messages client (message_has_id id) (deleted_at_time now) d))

  -- `Date.now() - msg.createdAt.getTime() > EDIT_WINDOW_MS` is read as `created + window < now`.
  unfoldable pub edit_message : ℕ → ℕ → String → ℕ → Action (Db C M P N R K) (Unit {0})
  unfolding trim
  edit_message id user content now = do
    msg ← or_throw (← find_message client id) (not_found "Not found")
    throw_if (not (msg.sender_id == user)) (forbidden "Cannot edit others' messages")
    throw_if (is_some msg.deleted_at) (bad_request "Cannot edit deleted message")
    throw_if (ltb (msg.created_at + edit_window_ms) now) (bad_request "Edit window expired")
    throw_if (trim content == "") (bad_request "Content empty")
    if trim content == msg.content
        then pure tt
        else modify (update_messages client (message_has_id id) (edited_to (trim content) now))

  abbrev pub or_content : Option String → String → String
  or_content none s = s
  or_content (some t) s = t

  unfoldable pub forward_message : ℕ → ℕ → ℕ → Option String → ℕ → Action (Db C M P N R K) Message
  unfolding assert_member
  forward_message user id target encrypted now = do
    assert_member client user target
    original ← or_throw (← find_message client id) (not_found "Message not found")
    there ← find_conversation client target
    new ← gets (λ d.
        forwarded user target (or_content encrypted original.content) original now
          (client.messages.next_id d.messages))
    modify (λ d. record d {
      messages =
          client.messages.create
            (forwarded user target (or_content encrypted original.content) original now) d.messages;
    })
    throw_if (not (is_some there)) missing_record
    modify (
        update_conversations client (conversation_has_id target)
          (λ x. record x { updated_at = now }))
    pure new
