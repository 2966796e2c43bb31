-- ===== src/Gateway/Tests.antt =====
-- Runs of the gateway's maps, and its theorems at concrete inputs.
use messenger_web_app.Prelude.{
  ℕ, ◌≡◌, refl, true, false, none, some, Option, String, List, [], ◌∷◌, lookup, string_eq, arith,
}
use messenger_web_app.Prelude.Store.Listed.{listed}
use messenger_web_app.RateLimit.{new_limiter}
use messenger_web_app.Metadata.{Checked}
use messenger_web_app.Conversations.{
  Conversation, Member, Pin, Message, Reaction, SenderKey, Client, group, member, assert_member,
}
use messenger_web_app.Conversations.Messages.{trim, trim_start, trim_end}
use messenger_web_app.Conversations.Saving.{Draft, save_message, new_message}
use messenger_web_app.Gateway.{
  CallTable, ActiveCall, audio, to_user, call_ended, end_call, connect, disconnect,
}
use messenger_web_app.Gateway.Presence.{
  Event, opens, closes, after, step, is_online, is_open, after-is_online,
}
use messenger_web_app.Gateway.Messages.{
  ChatState, to_client, message_scheduled, at, check_draft, send_message, reload,
}
use messenger_web_app.Gateway.Scheduling.{send_message-fires, reload_silent}
use messenger_web_app.Gateway.Calling.{end_call-has_part}

abbrev two_tabs : List Event
two_tabs = closes 7 "a" ∷ opens 7 "b" ∷ opens 7 "a" ∷ []

-- A user with two sockets is announced once, and stays online when one is closed.
announced_once : (after two_tabs).0 ≡ ((7, true) ∷ [])
unfolding after step connect disconnect
announced_once = refl

after-is_online_example :
    ((socket : String) → is_open 7 socket two_tabs ≡ true → is_online 7 (after two_tabs).0 ≡ true)
    × (is_online 7 (after two_tabs).0 ≡ true
        → (socket : String) × (is_open 7 socket two_tabs ≡ true))
after-is_online_example = after-is_online 7 two_tabs

abbrev call : ActiveCall
call = record { caller_id = 7; callee_id = 8; conversation_id = 1; call_type = audio }

abbrev calls : CallTable
calls = ("c", call) ∷ []

end_call-has_part_example :
    ((end_call 9 "c" calls).0 ≡ to_user 7 (call_ended "c") ∷ [])
    × (lookup "c" (end_call 9 "c" calls).1 ≡ none)
end_call-has_part_example = end_call-has_part 9 calls "c" call refl refl

abbrev Rows : Type 0 → Type 0
Rows R = List R × ℕ

abbrev Chat : Type 0
Chat =
    ChatState (Rows Conversation) (Rows Member) (Rows Pin) (Rows Message) (Rows Reaction)
      (Rows SenderKey)

abbrev tables :
    Client
      (Rows Conversation)
      (Rows Member)
      (Rows Pin)
      (Rows Message)
      (Rows Reaction)
      (Rows SenderKey)
tables = record {
  conversations = listed;
  members = listed;
  pins = listed;
  messages = listed;
  reactions = listed;
  sender_keys = listed;
}

abbrev room : Conversation
room = record {
  id = 1;
  kind = group;
  name = none;
  description = none;
  avatar_url = none;
  created_by_id = none;
  updated_at = 0;
}

abbrev seat : Member
seat = record {
  id = 1;
  conversation_id = 1;
  user_id = 7;
  role = member;
  last_read_at = 0;
  cleared_at = none;
  is_pinned = false;
  is_archived = false;
}

abbrev letter : Draft
letter = record {
  content = some "later";
  file_url = none;
  file_name = none;
  file_type = none;
  file_size = none;
  reply_to_id = none;
  metadata = none;
  scheduled_at = none;
  sender_device_id = none;
  envelopes = [];
}

-- A message whose time, 400, has passed.
abbrev overdue : Message
overdue = new_message 7 1 (record letter { scheduled_at = some 400 }) none 100 1

abbrev chat : Chat
chat = record {
  db = record {
    conversations = (room ∷ [], 2);
    members = (seat ∷ [], 2);
    pins = ([], 1);
    messages = (overdue ∷ [], 2);
    reactions = ([], 1);
    sender_keys = ([], 1);
    deleted_files = [];
    envelopes = [];
  };
  limiter = new_limiter 60 60;
  timers = [];
}

abbrev accept_all : Option String → Checked (Option String)
accept_all metadata = Checked.valid metadata

-- Twenty-six days ahead.
abbrev in_26_days : ℕ
in_26_days = 2246401000

abbrev sent : Message
sent = new_message 7 1 (record letter { scheduled_at = some in_26_days }) none 1000 2

send_message-fires_example :
    ((send_message tables accept_all (λ x. x) "Ann" 7 1 letter (at in_26_days) 1000 chat).0
      ≡ to_client (message_scheduled sent) ∷ [])
    × ((send_message tables accept_all (λ x. x) "Ann" 7 1 letter (at in_26_days) 1000 chat).1.timers
        ≡ record { message_id = 2; conversation_id = 1; fires_at = 1001 } ∷ [])
unfolding save_message assert_member check_draft trim trim_start trim_end
send_message-fires_example =
    send_message-fires tables accept_all (λ x. x) "Ann" 7 1 letter in_26_days 1000 chat sent refl
      refl refl (omega arith)

reload_silent_example :
    ((reload tables 1000 1000 chat).0 ≡ []) × ((reload tables 1000 1000 chat).1.db ≡ chat.db)
reload_silent_example = reload_silent tables 1000 chat
