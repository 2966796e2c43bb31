-- ===== src/Conversations/Members.antt =====
-- conversations.service.ts: the conversations that are opened, and who is a member of them, and as
-- what.
use messenger_web_app.Prelude.{
  ℕ, Bool, false, not, ◌&&◌, Option, none, some, String, List, [], ◌∷◌, ◌==◌, nat_eq, filter, any,
  if◌then◌else◌, is_some, Action, pure, gets, ◌>>=◌, ◌>>◌, throw_if, modify, forbidden,
  missing_record, bad_request, conflict, not_found,
}
use messenger_web_app.Conversations.{
  Role, owner, member, Kind, direct, group, channel, Conversation, Member, SenderKey, Db, Client,
  is_owner_role, is_direct, is_seat, find_member, find_conversation, update_members, create_member,
  assert_member, assert_admin,
}

-- A row of `conversation.create`; the columns that it leaves out have the schema's defaults.
abbrev pub new_conversation : Kind → Option String → Option String → ℕ → ℕ → ℕ → Conversation
new_conversation kind name description user now id = record {
  id = id;
  kind = kind;
  name = name;
  description = description;
  avatar_url = none;
  created_by_id = some user;
  updated_at = now;
}

abbrev pub new_member : ℕ → ℕ → Role → ℕ → ℕ → Member
new_member conversation user role now id = record {
  id = id;
  conversation_id = conversation;
  user_id = user;
  role = role;
  last_read_at = now;
  cleared_at = none;
  is_pinned = false;
  is_archived = false;
}

-- `[...new Set(ids)]` keeps the first of each.
abbrev pub unique_ids : List ℕ → List ℕ
unique_ids [] = []
unique_ids (x ∷ xs) = x ∷ filter (λ y. not (y == x)) (unique_ids xs)

abbrev pub with_role : Role → Member → Member
with_role role m = record m { role = role }

abbrev pub with_pinned : Bool → Member → Member
with_pinned pinned m = record m { is_pinned = pinned }

abbrev pub with_archived : Bool → Member → Member
with_archived archived m = record m {
  is_archived = archived;
  is_pinned = if archived then false else m.is_pinned;
}

-- `target?.role === 'OWNER'` and `owner?.role !== 'OWNER'`.
abbrev pub is_owner : Option Member → Bool
is_owner none = false
is_owner (some m) = is_owner_role m.role

abbrev pub is_direct_chat : Option Conversation → Bool
is_direct_chat none = false
is_direct_chat (some x) = is_direct x.kind

-- Two users in a direct chat: each has a seat in it. One user alone: the user has one, and nobody
-- else has.
abbrev pub has_seat : List Member → ℕ → ℕ → Bool
has_seat ms conversation user = any (is_seat conversation user) ms

abbrev pub is_others : ℕ → ℕ → Member → Bool
is_others conversation user m = m.conversation_id == conversation && not (m.user_id == user)

abbrev pub is_direct_of : List Member → ℕ → ℕ → Conversation → Bool
is_direct_of ms user target x =
    is_direct x.kind
    && (if user == target
        then has_seat ms x.id user && not (any (is_others x.id user) ms)
        else has_seat ms x.id user && has_seat ms x.id target)

abbrev pub as_members : List ℕ → List (ℕ × Role)
as_members [] = []
as_members (x ∷ xs) = (x, member) ∷ as_members xs

abbrev pub direct_seats : ℕ → ℕ → List (ℕ × Role)
direct_seats user target =
    if user == target then (user, member) ∷ [] else (user, member) ∷ (target, member) ∷ []

-- The seats of a new group: the creator owns it, and everybody else is in it once.
abbrev pub group_seats : ℕ → List ℕ → List (ℕ × Role)
group_seats user ids = (user, owner) ∷ as_members (unique_ids (filter (λ id. not (id == user)) ids))

module _ {C M P N R K : Type 0} (client : Client C M P N R K) where
  -- The nested `members: { create: ... }`.
  unfoldable pub seat_all : ℕ → ℕ → List (ℕ × Role) → Db C M P N R K → Db C M P N R K
  seat_all conversation now [] d = d
  seat_all conversation now ((user, role) ∷ rest) d =
      seat_all conversation now rest
        (create_member client (new_member conversation user role now) d)

  unfoldable pub create_conversation :
      Kind → Option String → Option String → ℕ → List (ℕ × Role) → ℕ → Action (Db C M P N R K) ℕ
  unfolding seat_all
  create_conversation kind name description user seats now = do
    id ← gets (λ d. client.conversations.next_id d.conversations)
    modify (λ d. record d {
      conversations =
          client.conversations.create (new_conversation kind name description user now)
            d.conversations;
    })
    modify (seat_all id now seats)
    pure id

  -- `registered` says whether `user.findUnique` finds the user.
  unfoldable pub get_or_create_direct : (ℕ → Bool) → ℕ → ℕ → ℕ → Action (Db C M P N R K) ℕ
  unfolding create_conversation
  get_or_create_direct registered user target now = do
    throw_if (not (user == target) && not (registered target)) (not_found "User not found")
    existing ← gets (λ d.
        client.conversations.find_first (is_direct_of (client.members.rows d.members) user target)
          d.conversations)
    elim existing [
      | some x ↦ pure x.id
      | none ↦ create_conversation direct none none user (direct_seats user target) now
    ]

  unfoldable pub create_group : ℕ → String → Option String → List ℕ → ℕ → Action (Db C M P N R K) ℕ
  unfolding create_conversation
  create_group user name description ids now =
      create_conversation group (some name) description user (group_seats user ids) now

  unfoldable pub create_channel : ℕ → String → Option String → ℕ → Action (Db C M P N R K) ℕ
  unfolding create_conversation
  create_channel user name description now =
      create_conversation channel (some name) description user ((user, owner) ∷ []) now

  unfoldable pub add_member : ℕ → ℕ → ℕ → ℕ → Action (Db C M P N R K) (Unit {0})
  unfolding assert_admin
  add_member asker conversation target now = do
    found ← find_conversation client conversation
    throw_if (is_direct_chat found) (bad_request "Cannot add to direct chats")
    assert_admin client asker conversation
    exists ← find_member client conversation target
    throw_if (is_some exists) (conflict "Already a member")
    modify (create_member client (new_member conversation target member now))

  abbrev pub delete_sender_keys : (SenderKey → Bool) → Db C M P N R K → Db C M P N R K
  delete_sender_keys p d = record d {
    sender_keys = client.sender_keys.delete_where p d.sender_keys;
  }

  abbrev pub delete_members : (Member → Bool) → Db C M P N R K → Db C M P N R K
  delete_members p d = record d { members = client.members.delete_where p d.members }

  -- The checks where somebody else is removed.
  unfoldable pub may_remove : ℕ → ℕ → ℕ → Action (Db C M P N R K) (Unit {0})
  unfolding assert_admin
  may_remove asker conversation target = do
    assert_admin client asker conversation
    found ← find_member client conversation target
    throw_if (is_owner found) (forbidden "Cannot remove owner")

  -- `delete` throws where there is no such row; the keys are gone by then.
  unfoldable pub remove_member : ℕ → ℕ → ℕ → Action (Db C M P N R K) (Unit {0})
  unfolding may_remove
  remove_member asker conversation target = do
    found ← find_conversation client conversation
    throw_if (is_direct_chat found) (bad_request "Cannot remove from direct chats")
    if asker == target then pure tt else may_remove asker conversation target
    modify (delete_sender_keys (λ k. k.conversation_id == conversation && k.sender_id == target))
    there ← find_member client conversation target
    throw_if (not (is_some there)) missing_record
    modify (delete_members (is_seat conversation target))

  -- The type of the parameter is `'ADMIN' | 'MEMBER'`, but the controller hands on the role of the
  -- request without a check, so it may be any that the column takes.
  unfoldable pub set_member_role : ℕ → ℕ → ℕ → Role → Action (Db C M P N R K) (Unit {0})
  set_member_role asker conversation target role = do
    found ← find_member client conversation asker
    throw_if (not (is_owner found)) (forbidden "Owner only")
    there ← find_member client conversation target
    throw_if (not (is_some there)) missing_record
    modify (update_members client (is_seat conversation target) (with_role role))

  unfoldable pub set_chat_pinned : ℕ → ℕ → Bool → Action (Db C M P N R K) Bool
  unfolding assert_member
  set_chat_pinned user conversation pinned = do
    assert_member client user conversation
    modify (update_members client (is_seat conversation user) (with_pinned pinned))
    pure pinned

  unfoldable pub set_chat_archived : ℕ → ℕ → Bool → Action (Db C M P N R K) Bool
  unfolding assert_member
  set_chat_archived user conversation archived = do
    assert_member client user conversation
    modify (update_members client (is_seat conversation user) (with_archived archived))
    pure archived

  unfoldable pub mark_as_read : ℕ → ℕ → ℕ → Action (Db C M P N R K) (Unit {0})
  mark_as_read user conversation now =
      modify
        (update_members client (is_seat conversation user) (λ m. record m { last_read_at = now }))
