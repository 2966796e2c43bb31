-- ===== src/Conversations/Tests.antt =====
-- Runs of the conversations service over listed tables, and its theorems at concrete inputs.
use messenger_web_app.Prelude.{
  ℕ, ◌+◌, ◌≤◌, ◌≡◌, ◌≢◌, refl, ◌⊎◌, inl, true, false, none, some, String, List, [], ◌∷◌, ◌++◌,
  arith, ok, err, forbidden, In, Option, All, ◌<◌, count, filter, is_some,
}
use messenger_web_app.Prelude.Store.Listed.{listed}
use messenger_web_app.Conversations.{
  Role, owner, member, group, Conversation, Member, Pin, Message, Reaction, SenderKey, Db, Client,
  assert_member, assert_admin, update_messages, message_has_id,
}
use messenger_web_app.Conversations.Members.{add_member}
use messenger_web_app.Conversations.Messages.{
  delete_message, edit_message, forward_message, drop_file, trim, trim_start, trim_end,
  edit_window_ms, edited_to,
}
use messenger_web_app.Conversations.Reactions.{Shown, is_allowed_emoji, group_reactions}
use messenger_web_app.Metadata.{Checked}
use messenger_web_app.Conversations.Pins.{clear_for_self}
use messenger_web_app.Conversations.Saving.{Draft, save_message, new_message}
use messenger_web_app.Conversations.Saved.{IsSaved, save_message_sound}
use messenger_web_app.Conversations.Reading.{get_messages_after, get_older_messages}
use messenger_web_app.Conversations.Clearing.{shown, clear_for_self_pages}
use messenger_web_app.Conversations.Calls.{adds, pins, step}
use messenger_web_app.Conversations.Grouping.{
  IsSingle, find_group, group_of, has_emoji, group_reactions-group_of,
}
use messenger_web_app.Conversations.PinLimit.{IsRoomy, step-IsRoomy}
use messenger_web_app.Conversations.Seats.{step-IsSeated}
use messenger_web_app.Conversations.Seats.Keeping.{IsSeated}
use messenger_web_app.Conversations.Moderation.{
  holds_file, edit_sound, MayDelete, Marks, delete_message_sound, delete_message-holds_file,
  forward_message-copies,
}

abbrev Rows : Type 0 → Type 0
Rows R = List R × ℕ

abbrev tables :
    Client
      (Rows Conversation)
      (Rows Member)
      (Rows Pin)
      (Rows Message)
      (Rows Reaction)
      (Rows SenderKey)
tables = record {
  conversations = listed;
  members = listed;
  pins = listed;
  messages = listed;
  reactions = listed;
  sender_keys = listed;
}

abbrev team : Conversation
team = record {
  id = 1;
  kind = group;
  name = some "team";
  description = none;
  avatar_url = none;
  created_by_id = some 7;
  updated_at = 0;
}

abbrev seat : ℕ → ℕ → Role → Member
seat id user role = record {
  id = id;
  conversation_id = 1;
  user_id = user;
  role = role;
  last_read_at = 0;
  cleared_at = none;
  is_pinned = false;
  is_archived = false;
}

abbrev hello : Message
hello = record {
  id = 1;
  content = "hello";
  created_at = 100;
  edited_at = none;
  deleted_at = none;
  file_url = some "f1";
  file_name = none;
  file_type = none;
  file_size = none;
  forwarded_from_id = none;
  forwarded_from_user_id = none;
  reply_to_id = none;
  metadata = none;
  scheduled_at = none;
  sender_device_id = none;
  sender_id = 8;
  conversation_id = 1;
}

-- A message of a conversation that nobody of the team is in, deleted since.
abbrev secret : Message
secret = record {
  id = 2;
  content = "secret";
  created_at = 100;
  edited_at = none;
  deleted_at = some 150;
  file_url = none;
  file_name = none;
  file_type = none;
  file_size = none;
  forwarded_from_id = none;
  forwarded_from_user_id = none;
  reply_to_id = none;
  metadata = none;
  scheduled_at = none;
  sender_device_id = none;
  sender_id = 9;
  conversation_id = 2;
}

abbrev Sample : Type 0
Sample =
    Db (Rows Conversation) (Rows Member) (Rows Pin) (Rows Message) (Rows Reaction) (Rows SenderKey)

abbrev sample : Sample
sample = record {
  conversations = (team ∷ [], 2);
  members = (seat 1 7 owner ∷ seat 2 8 member ∷ [], 3);
  pins = ([], 1);
  messages = (hello ∷ secret ∷ [], 3);
  reactions = ([], 1);
  sender_keys = ([], 1);
  deleted_files = [];
  envelopes = [];
}

-- `trim` takes off white space at both ends only.
trimmed : trim "  a b \n" ≡ "a b"
unfolding trim trim_start trim_end
trimmed = refl

-- The heart of the list has its variation selector.
heart : is_allowed_emoji "❤\u{fe0f}" ≡ true
unfolding is_allowed_emoji
heart = refl

-- A plain member adds nobody.
refused : (add_member tables 8 1 9 200 sample).0 ≡ err (forbidden "Admin required")
unfolding add_member assert_admin assert_member
refused = refl

sample-IsRoomy : IsRoomy tables (λ (u : ℕ). u) sample
sample-IsRoomy = record { at_most = λ k. omega arith }

step-IsRoomy_example :
    IsRoomy tables (λ (u : ℕ). u) (step tables (λ (u : ℕ). u) (pins 7 1 1 200) sample)
step-IsRoomy_example = step-IsRoomy tables (λ u. u) (pins 7 1 1 200) sample sample-IsRoomy

sample-IsSeated : IsSeated tables sample
sample-IsSeated = record {
  old = (omega arith, (omega arith, tt));
  one_seat = λ k u. ground arith;
  one_owner = λ k. ground arith;
}

step-IsSeated_example : IsSeated tables (step tables (λ (u : ℕ). u) (adds 7 1 9 200) sample)
step-IsSeated_example = step-IsSeated tables (λ u. u) (adds 7 1 9 200) sample refl sample-IsSeated

abbrev three : List (Shown String)
three =
    record { emoji = "👍"; user_id = 7; user = "ann" }
    ∷ record { emoji = "🔥"; user_id = 8; user = "bob" }
    ∷ record { emoji = "👍"; user_id = 8; user = "bob" }
    ∷ []

group_reactions-group_of_example :
    IsSingle (group_reactions three)
    × ((emoji : String)
        → find_group emoji (group_reactions three)
          ≡ group_of emoji (filter (has_emoji emoji) three))
group_reactions-group_of_example = group_reactions-group_of three

edit_sound_example :
    (m : Message) × In m (hello ∷ secret ∷ [])
    × (m.id ≡ 1)
    × (m.sender_id ≡ 8)
    × (m.deleted_at ≡ none)
    × (200 ≤ m.created_at + edit_window_ms)
    × (trim " hi " ≢ "")
    × (((edit_message tables 1 8 " hi " 200 sample).1 ≡ sample)
        ⊎ ((edit_message tables 1 8 " hi " 200 sample).1
            ≡ update_messages tables (message_has_id 1) (edited_to (trim " hi ") 200) sample))
unfolding edit_message trim trim_start trim_end
edit_sound_example = edit_sound tables 1 8 " hi " 200 sample refl

delete_message_sound_example :
    (((delete_message tables 1 7 200 sample).0 ≢ ok tt)
      × ((delete_message tables 1 7 200 sample).1 ≡ sample))
    ⊎ (((delete_message tables 1 7 200 sample).0 ≡ ok tt)
        × ((m : Message) × In m (hello ∷ secret ∷ [])
            × (m.id ≡ 1)
            × MayDelete tables 7 sample m
            × (((is_some m.deleted_at ≡ true) × ((delete_message tables 1 7 200 sample).1 ≡ sample))
                ⊎ ((m.deleted_at ≡ none)
                    × Marks tables 1 200 sample (delete_message tables 1 7 200 sample).1))))
delete_message_sound_example = delete_message_sound tables 1 7 200 sample

admin_deletes : (delete_message tables 1 7 200 sample).0 ≡ ok tt
unfolding delete_message drop_file
admin_deletes = refl

delete_message-holds_file_example :
    In {A = String} "f1" []
    ⊎ (count
          (holds_file "f1")
          (tables.messages.rows (delete_message tables 1 8 200 sample).1.messages)
        ≡ 0)
unfolding delete_message drop_file
delete_message-holds_file_example = delete_message-holds_file tables 1 8 200 "f1" sample (inl refl)

forward_message-copies_example :
    (copy : Message) × ((forward_message tables 8 2 1 none 200 sample).0 ≡ ok copy)
    × (tables.messages.rows (forward_message tables 8 2 1 none 200 sample).1.messages
        ≡ (hello ∷ secret ∷ []) ++ copy ∷ [])
    × (copy.content ≡ "secret")
    × ((copy.file_url ≡ none)
        × (copy.file_name ≡ none)
        × (copy.file_type ≡ none)
        × (copy.file_size ≡ none))
    × ((copy.sender_id ≡ 8) × (copy.conversation_id ≡ 1) × (copy.deleted_at ≡ none))
    × ((copy.forwarded_from_id ≡ some 2) × (copy.forwarded_from_user_id ≡ some secret.sender_id))
forward_message-copies_example =
    forward_message-copies tables 8 2 1 200 none (seat 2 8 member) secret sample refl refl refl

abbrev accept_all : Option String → Checked (Option String)
accept_all metadata = Checked.valid metadata

abbrev greeting : Draft
greeting = record {
  content = some " hi ";
  file_url = none;
  file_name = none;
  file_type = none;
  file_size = none;
  reply_to_id = none;
  metadata = none;
  scheduled_at = none;
  sender_device_id = some 4;
  envelopes = (4, "key") ∷ [];
}

save_message_sound_example :
    IsSaved tables accept_all 8 1 greeting 500 sample
      (save_message tables accept_all 8 1 greeting 500 sample).1
      (new_message 8 1 greeting none 500 3)
unfolding save_message assert_member trim trim_start trim_end
save_message_sound_example =
    save_message_sound tables accept_all 8 1 greeting 500 sample
      (new_message 8 1 greeting none 500 3) refl

clear_for_self_pages_example :
    All
      (λ x. 120 < x.created_at)
      (shown
        (get_messages_after tables
          (λ _. "name")
          7
          1
          0
          500
          (clear_for_self tables 7 1 120 sample)).0)
    × (shown
          (get_older_messages tables
            (λ _. "name")
            7
            1
            2
            500
            (clear_for_self tables 7 1 120 sample)).0
        ≡ shown (get_older_messages tables (λ _. "name") 7 1 2 500 sample).0)
clear_for_self_pages_example = clear_for_self_pages tables (λ _. "name") 7 1 120 0 2 500 sample
