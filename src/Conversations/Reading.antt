-- ===== src/Conversations/Reading.antt =====
-- conversations.service.ts: the pages of messages that a member reads, and the messages that wait
-- for their time.
use messenger_web_app.Prelude.{
  ℕ, Bool, true, false, not, ◌&&◌, ◌||◌, Option, none, some, String, List, [], ◌∷◌, ◌==◌, nat_eq,
  ltb, leb, any, map, filter, if◌then◌else◌, is_some, Action, pure, gets, ◌>>=◌, ◌>>◌,
}
use mathlib.Core.List.{reverse}
use messenger_web_app.Prelude.Texts.{take, drop}
use messenger_web_app.Conversations.{Member, Message, Db, Client, find_member, assert_member}

-- `scheduledFilter`
abbrev pub is_past : ℕ → Option ℕ → Bool
is_past now none = true
is_past now (some t) = leb t now

abbrev pub is_due : ℕ → ℕ → Message → Bool
is_due user now m = is_past now m.scheduled_at || m.sender_id == user

abbrev pub cleared_of : Option Member → Option ℕ
cleared_of none = none
cleared_of (some m) = m.cleared_at

-- `createdAt: { gt: clearedAt }`, where the member has cleared the history.
abbrev pub is_after : Option ℕ → Message → Bool
is_after none m = true
is_after (some t) m = ltb t m.created_at

-- What a member of the conversation is shown of it.
abbrev pub is_shown : ℕ → ℕ → Option ℕ → ℕ → Message → Bool
is_shown user conversation cleared now m =
    m.conversation_id == conversation && is_after cleared m && is_due user now m

-- `getOtherMembersLastRead`, with the name of each.
abbrev pub LastRead : Type 0
LastRead = List (ℕ × ℕ × String)

pub record ReadMessage : Type 0 where
  pub message : Message
  pub is_read : Bool
  pub read_by : List (ℕ × String)

-- The readers are those who read the conversation after the message was written.
abbrev pub has_read : Message → ℕ × ℕ × String → Bool
has_read m r = leb m.created_at r.1

abbrev pub reader_of : ℕ × ℕ × String → ℕ × String
reader_of (user, time, name) = (user, name)

unfoldable pub map_message_with_read : ℕ → LastRead → Message → ReadMessage
map_message_with_read user others m = record {
  message = m;
  is_read = any (has_read m) others || not (m.sender_id == user);
  read_by = map reader_of (filter (has_read m) others);
}

-- `scheduledAt: { gt: now }, deletedAt: null`
abbrev pub is_future : ℕ → Option ℕ → Bool
is_future now none = false
is_future now (some t) = ltb now t

abbrev pub is_waiting : ℕ → Message → Bool
is_waiting now m = is_future now m.scheduled_at && not (is_some m.deleted_at)

abbrev pub has_message_id : ℕ → Message → Bool
has_message_id id m = m.id == id

-- The first message of others that was written after the member read the conversation.
abbrev pub is_unread : ℕ → Option Member → Message → Bool
is_unread user none m = false
is_unread user (some seat) m = not (m.sender_id == user) && ltb seat.last_read_at m.created_at

unfoldable pub first_unread : ℕ → Option Member → List Message → Option ℕ
first_unread user seat [] = none
first_unread user seat (m ∷ ms) =
    if is_unread user seat m then some m.id else first_unread user seat ms

-- The order of the others, which the source does not fix, is that of their ids.
module _ {C M P N R K : Type 0} (client : Client C M P N R K) (nickname : ℕ → String) where
  abbrev pub other_members_last_read : ℕ → ℕ → Action (Db C M P N R K) LastRead
  other_members_last_read conversation user = do
    members ← gets (λ d.
        client.members.find_sorted (λ m. m.id)
          (λ m. m.conversation_id == conversation && not (m.user_id == user)) d.members)
    pure (map (λ m. (m.user_id, m.last_read_at, nickname m.user_id)) members)

  -- `getMessages` without a cursor: the last thirty messages, oldest first, and the first of them that
  -- is unread.
  unfoldable pub get_messages : ℕ → ℕ → ℕ → Action (Db C M P N R K) (List ReadMessage × Option ℕ)
  unfolding assert_member first_unread
  get_messages user conversation now = do
    assert_member client user conversation
    m ← find_member client conversation user
    found ← gets (λ d.
        client.messages.find_sorted (λ x. x.id) (is_shown user conversation (cleared_of m) now)
          d.messages)
    others ← other_members_last_read conversation user
    let ordered = reverse (take 30 (reverse found))
    pure (map (map_message_with_read user others) ordered, first_unread user m ordered)

  -- `getMessages` with a cursor: thirty messages that come before the one of the cursor. The member's
  -- row is not read.
  unfoldable pub get_older_messages : ℕ → ℕ → ℕ → ℕ → Action (Db C M P N R K) (List ReadMessage)
  unfolding assert_member
  get_older_messages user conversation cursor now = do
    assert_member client user conversation
    there ← gets (λ d. client.messages.find_first (has_message_id cursor) d.messages)
    found ← gets (λ d.
        client.messages.find_sorted (λ x. x.id)
          (λ x. is_shown user conversation none now x && leb x.id cursor) d.messages)
    others ← other_members_last_read conversation user
    pure (
        if is_some there
        then map (map_message_with_read user others) (reverse (take 30 (drop 1 (reverse found))))
        else [])

  -- The last thirty messages up to an id, oldest first.
  unfoldable pub get_messages_around : ℕ → ℕ → ℕ → ℕ → Action (Db C M P N R K) (List ReadMessage)
  unfolding assert_member
  get_messages_around user conversation around now = do
    assert_member client user conversation
    m ← find_member client conversation user
    found ← gets (λ d.
        client.messages.find_sorted (λ x. x.id)
          (λ x. is_shown user conversation (cleared_of m) now x && leb x.id around) d.messages)
    others ← other_members_last_read conversation user
    pure (map (map_message_with_read user others) (reverse (take 30 (reverse found))))

  -- The first thirty messages after an id.
  unfoldable pub get_messages_after : ℕ → ℕ → ℕ → ℕ → Action (Db C M P N R K) (List ReadMessage)
  unfolding assert_member
  get_messages_after user conversation after now = do
    assert_member client user conversation
    m ← find_member client conversation user
    found ← gets (λ d.
        client.messages.find_sorted (λ x. x.id)
          (λ x. is_shown user conversation (cleared_of m) now x && ltb after x.id) d.messages)
    others ← other_members_last_read conversation user
    pure (map (map_message_with_read user others) (take 30 found))

  unfoldable pub get_pending_scheduled_messages : ℕ → Action (Db C M P N R K) (List Message)
  get_pending_scheduled_messages now =
      gets (λ d. client.messages.find_sorted (λ x. x.id) (is_waiting now) d.messages)
