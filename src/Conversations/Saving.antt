-- ===== src/Conversations/Saving.antt =====
-- conversations.service.ts: saving a message with its envelopes, changing a conversation, and the
-- keys that members of a group send one another.
use Prim.Native.Char.{code}
use messenger_web_app.Prelude.{
  any, ℕ, ◌+◌, Bool, true, false, not, ◌&&◌, Option, none, some, String, List, [], ◌∷◌, ◌++◌, ◌==◌,
  nat_eq, string_eq, ltb, if◌then◌else◌, is_some, Action, pure, gets, or_throw, ◌>>=◌, ◌>>◌,
  throw_if, throw, modify, forbidden, bad_request, not_found, missing_record,
}
use messenger_web_app.Metadata.{Checked, valid, invalid}
use messenger_web_app.Conversations.{
  Conversation, Kind, channel, Message, SenderKey, Envelope, Db, Client, is_member_role,
  conversation_has_id, find_conversation, update_conversations, assert_member, assert_admin,
}
use messenger_web_app.Conversations.Messages.{trim}

abbrev pub max_content : ℕ
max_content = 4096

-- `length` of a text: a character beyond the first plane counts twice.
abbrev pub text_length : String → ℕ
text_length String.[] = 0
text_length (String.◌∷◌ c s) = (if ltb 65535 (code c) then 2 else 1) + text_length s

-- The message to be saved; the times are those of the row.
pub record Draft : Type 0 where
  pub content : Option String
  pub file_url : Option String
  pub file_name : Option String
  pub file_type : Option String
  pub file_size : Option ℕ
  pub reply_to_id : Option ℕ
  pub metadata : Option String
  pub scheduled_at : Option ℕ
  pub sender_device_id : Option ℕ
  pub envelopes : List (ℕ × String)

abbrev pub is_too_long : Option String → Bool
is_too_long none = false
is_too_long (some s) = ltb max_content (text_length s)

-- `dto.content?.trim() ?? ''`
abbrev pub trimmed_content : Option String → String
trimmed_content none = ""
trimmed_content (some s) = trim s

abbrev pub is_channel : Kind → Bool
is_channel channel = true
is_channel _ = false

abbrev pub new_message : ℕ → ℕ → Draft → Option String → ℕ → ℕ → Message
new_message user conversation draft metadata now id = record {
  id = id;
  content = trimmed_content draft.content;
  created_at = now;
  edited_at = none;
  deleted_at = none;
  file_url = draft.file_url;
  file_name = draft.file_name;
  file_type = draft.file_type;
  file_size = draft.file_size;
  forwarded_from_id = none;
  forwarded_from_user_id = none;
  reply_to_id = draft.reply_to_id;
  metadata = metadata;
  scheduled_at = draft.scheduled_at;
  sender_device_id = draft.sender_device_id;
  sender_id = user;
  conversation_id = conversation;
}

abbrev pub envelope_of : ℕ → ℕ × String → Envelope
envelope_of message e = record { message_id = message; device_id = e.0; ciphertext = e.1 }

-- `@@unique([messageId, deviceId])` and `skipDuplicates`: an envelope for a device that has one for
-- this message is left out.
abbrev pub is_for : ℕ → ℕ → Envelope → Bool
is_for message device e = e.message_id == message && e.device_id == device

abbrev pub add_envelope : ℕ → ℕ × String → List Envelope → List Envelope
add_envelope message x es =
    if any (is_for message x.0) es then es else es ++ envelope_of message x ∷ []

unfoldable pub create_envelopes : ℕ → List (ℕ × String) → List Envelope → List Envelope
create_envelopes message [] es = es
create_envelopes message (x ∷ xs) es = create_envelopes message xs (add_envelope message x es)

-- An update leaves out what is not given.
pub record ConversationUpdate : Type 0 where
  pub name : Option String
  pub description : Option String
  pub avatar_url : Option String

abbrev pub given : Option String → Option String → Option String
given none old = old
given (some new) old = some new

abbrev pub with_update : ConversationUpdate → Conversation → Conversation
with_update u x = record x {
  name = given u.name x.name;
  description = given u.description x.description;
  avatar_url = given u.avatar_url x.avatar_url;
}

-- `conversationId_senderId_recipientId`
abbrev pub key_between : ℕ → ℕ → ℕ → SenderKey → Bool
key_between conversation sender recipient k =
    k.conversation_id == conversation && k.sender_id == sender && k.recipient_id == recipient

abbrev pub new_sender_key : ℕ → ℕ → ℕ → String → ℕ → ℕ → SenderKey
new_sender_key conversation sender recipient key version id = record {
  id = id;
  conversation_id = conversation;
  sender_id = sender;
  recipient_id = recipient;
  encrypted_key = key;
  version = version;
}

abbrev pub with_encrypted_key : String → ℕ → SenderKey → SenderKey
with_encrypted_key key version k = record k { encrypted_key = key; version = version }

-- Metadata that the validator refuses ends the call.
abbrev pub or_bad_request : {S : Type 0} → Checked (Option String) → Action S (Option String)
or_bad_request (valid m) = pure m
or_bad_request (invalid e) = throw (bad_request "metadata")

module _ {C M P N R K : Type 0} (client : Client C M P N R K) where
  -- The row, its envelopes, and the time of the conversation.
  abbrev pub store_message :
      ℕ → (ℕ → Message) → List (ℕ × String) → ℕ → Action (Db C M P N R K) Message
  store_message conversation new envelopes now = do
    id ← gets (λ d. client.messages.next_id d.messages)
    modify (λ d. record d {
      messages = client.messages.create new d.messages;
      envelopes = create_envelopes id envelopes d.envelopes;
    })
    modify (
        update_conversations client (conversation_has_id conversation)
          (λ x. record x { updated_at = now }))
    pure (new id)

  -- `validate` is the validator of metadata.
  unfoldable pub save_message :
      (Option String → Checked (Option String))
      → ℕ
      → ℕ
      → Draft
      → ℕ
      → Action (Db C M P N R K) Message
  unfolding assert_member
  save_message validate user conversation draft now = do
    throw_if (is_too_long draft.content)
        (bad_request "Message content exceeds maximum length of 4096 characters")
    m ← assert_member client user conversation
    found ← find_conversation client conversation
    x ← or_throw found (not_found "Conversation not found")
    throw_if (is_channel x.kind && is_member_role m.role)
        (forbidden "Only admins can post in channels")
    metadata ← or_bad_request (validate draft.metadata)
    store_message conversation (new_message user conversation draft metadata now) draft.envelopes
        now

  unfoldable pub update_conversation :
      ℕ → ℕ → ConversationUpdate → ℕ → Action (Db C M P N R K) (Unit {0})
  unfolding assert_admin
  update_conversation user conversation u now = do
    assert_admin client user conversation
    found ← find_conversation client conversation
    throw_if (not (is_some found)) missing_record
    modify (
        update_conversations client (conversation_has_id conversation)
          (λ x. record (with_update u x) { updated_at = now }))

  abbrev pub upsert_key : ℕ → ℕ → ℕ → ℕ × String → Db C M P N R K → Db C M P N R K
  upsert_key conversation sender version (recipient, key) d =
      if is_some
        (client.sender_keys.find_first (key_between conversation sender recipient) d.sender_keys)
      then record d {
        sender_keys =
            client.sender_keys.update_where (key_between conversation sender recipient)
              (with_encrypted_key key version) d.sender_keys;
      }
      else record d {
        sender_keys =
            client.sender_keys.create (new_sender_key conversation sender recipient key version)
              d.sender_keys;
      }

  -- The keys are stored one after the other.
  unfoldable pub upsert_keys : ℕ → ℕ → ℕ → List (ℕ × String) → Db C M P N R K → Db C M P N R K
  upsert_keys conversation sender version [] d = d
  upsert_keys conversation sender version (k ∷ keys) d =
      upsert_keys conversation sender version keys (upsert_key conversation sender version k d)

  unfoldable pub set_sender_key : ℕ → ℕ → List (ℕ × String) → ℕ → Action (Db C M P N R K) (Unit {0})
  unfolding assert_member upsert_keys
  set_sender_key user conversation keys version = do
    assert_member client user conversation
    modify (upsert_keys conversation user version keys)

  unfoldable pub delete_all_my_sender_keys : ℕ → Action (Db C M P N R K) (Unit {0})
  delete_all_my_sender_keys user = modify (λ d. record d {
    sender_keys = client.sender_keys.delete_where (λ k. k.sender_id == user) d.sender_keys;
  })
