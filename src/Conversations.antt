-- ===== src/Conversations.antt =====
-- server/src/conversations/conversations.service.ts: the tables of the service, and the checks of
-- membership that its methods begin with.
pub mod Members
pub mod Pins
pub mod Messages
pub mod Reactions
pub mod Saving
mod Envelopes
pub mod Reading
pub mod Clearing
pub mod Saved
mod Calls
mod Untouched
pub mod Grouping
pub mod PinLimit
pub mod Seats
pub mod Moderation
pub mod Toggling
mod Tests
use messenger_web_app.Prelude.{
  ℕ, ◌*◌, Bool, true, false, not, ◌&&◌, Option, none, some, String, List, [], ◌∷◌, ◌==◌, nat_eq,
  string_eq, if◌then◌else◌, Action, pure, gets, or_throw, ◌>>=◌, ◌>>◌, throw_if, forbidden,
  missing_record,
}
use messenger_web_app.Prelude.Store.{Table}

-- `MemberRole` and `ConversationType` of the schema.
pub data Role : Type 0 where
  owner admin member : Role

pub data Kind : Type 0 where
  direct group channel : Kind

pub record Conversation : Type 0 where
  pub id : ℕ
  pub kind : Kind
  pub name : Option String
  pub description : Option String
  pub avatar_url : Option String
  pub created_by_id : Option ℕ
  pub updated_at : ℕ

pub record Member : Type 0 where
  pub id : ℕ
  pub conversation_id : ℕ
  pub user_id : ℕ
  pub role : Role
  pub last_read_at : ℕ
  pub cleared_at : Option ℕ
  pub is_pinned : Bool
  pub is_archived : Bool

pub record Pin : Type 0 where
  pub id : ℕ
  pub conversation_id : ℕ
  pub message_id : ℕ
  pub pinned_by_id : ℕ
  pub pinned_at : ℕ

pub record Message : Type 0 where
  pub id : ℕ
  pub content : String
  pub created_at : ℕ
  pub edited_at : Option ℕ
  pub deleted_at : Option ℕ
  pub file_url : Option String
  pub file_name : Option String
  pub file_type : Option String
  pub file_size : Option ℕ
  pub forwarded_from_id : Option ℕ
  pub forwarded_from_user_id : Option ℕ
  pub reply_to_id : Option ℕ
  pub metadata : Option String
  pub scheduled_at : Option ℕ
  pub sender_device_id : Option ℕ
  pub sender_id : ℕ
  pub conversation_id : ℕ

pub record Reaction : Type 0 where
  pub id : ℕ
  pub emoji : String
  pub user_id : ℕ
  pub message_id : ℕ

pub record SenderKey : Type 0 where
  pub id : ℕ
  pub conversation_id : ℕ
  pub sender_id : ℕ
  pub recipient_id : ℕ
  pub encrypted_key : String
  pub version : ℕ

-- A key of a message, encrypted for a device.
pub record Envelope : Type 0 where
  pub message_id : ℕ
  pub device_id : ℕ
  pub ciphertext : String

-- The states of the six tables.
pub record Db (C M P N R K : Type 0) : Type 0 where
  pub conversations : C
  pub members : M
  pub pins : P
  pub messages : N
  pub reactions : R
  pub sender_keys : K
  -- The files that the upload service was asked to delete.
  pub deleted_files : List String
  -- The rows of the envelopes.
  pub envelopes : List Envelope

-- The database client: one interface for a table.
pub record Client (C M P N R K : Type 0) : Type 0 where
  pub conversations : Table Conversation C
  pub members : Table Member M
  pub pins : Table Pin P
  pub messages : Table Message N
  pub reactions : Table Reaction R
  pub sender_keys : Table SenderKey K

abbrev pub is_member_role : Role → Bool
is_member_role member = true
is_member_role _ = false

abbrev pub is_owner_role : Role → Bool
is_owner_role owner = true
is_owner_role _ = false

abbrev pub is_direct : Kind → Bool
is_direct direct = true
is_direct _ = false

-- `conversationId_userId`
abbrev pub is_seat : ℕ → ℕ → Member → Bool
is_seat conversation user m = m.conversation_id == conversation && m.user_id == user

abbrev pub conversation_has_id : ℕ → Conversation → Bool
conversation_has_id id x = x.id == id

abbrev pub message_has_id : ℕ → Message → Bool
message_has_id id x = x.id == id

module _ {C M P N R K : Type 0} (client : Client C M P N R K) where
  abbrev pub find_member : ℕ → ℕ → Action (Db C M P N R K) (Option Member)
  find_member conversation user =
      gets (λ d. client.members.find_first (is_seat conversation user) d.members)

  abbrev pub find_conversation : ℕ → Action (Db C M P N R K) (Option Conversation)
  find_conversation id =
      gets (λ d. client.conversations.find_first (conversation_has_id id) d.conversations)

  abbrev pub find_message : ℕ → Action (Db C M P N R K) (Option Message)
  find_message id = gets (λ d. client.messages.find_first (message_has_id id) d.messages)

  abbrev pub update_members : (Member → Bool) → (Member → Member) → Db C M P N R K → Db C M P N R K
  update_members p f d = record d { members = client.members.update_where p f d.members }

  abbrev pub create_member : (ℕ → Member) → Db C M P N R K → Db C M P N R K
  create_member f d = record d { members = client.members.create f d.members }

  abbrev pub update_messages :
      (Message → Bool) → (Message → Message) → Db C M P N R K → Db C M P N R K
  update_messages p f d = record d { messages = client.messages.update_where p f d.messages }

  abbrev pub update_conversations :
      (Conversation → Bool) → (Conversation → Conversation) → Db C M P N R K → Db C M P N R K
  update_conversations p f d = record d {
    conversations = client.conversations.update_where p f d.conversations;
  }

  abbrev pub delete_pins : (Pin → Bool) → Db C M P N R K → Db C M P N R K
  delete_pins p d = record d { pins = client.pins.delete_where p d.pins }

  unfoldable pub assert_member : ℕ → ℕ → Action (Db C M P N R K) Member
  assert_member user conversation = do
    found ← find_member conversation user
    or_throw found (forbidden "Not a member")

  unfoldable pub assert_admin : ℕ → ℕ → Action (Db C M P N R K) Member
  unfolding assert_member
  assert_admin user conversation = do
    m ← assert_member user conversation
    throw_if (is_member_role m.role) (forbidden "Admin required")
    pure m
