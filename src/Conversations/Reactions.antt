-- ===== src/Conversations/Reactions.antt =====
-- conversations.service.ts: the reactions to a message, and how they are grouped for the client.
use messenger_web_app.Prelude.{
  ℕ, Bool, not, ◌&&◌, Option, none, some, String, List, [], ◌∷◌, ◌++◌, map, ◌==◌, nat_eq, string_eq,
  is_some, any, length, Map, lookup, insert, Action, pure, gets, or_throw, ◌>>=◌, ◌>>◌, throw_if,
  modify, bad_request, not_found,
}
use messenger_web_app.Conversations.{Reaction, Db, Client, find_message, assert_member}

-- ALLOWED_EMOJIS
abbrev pub allowed_emojis : List String
allowed_emojis = "👍" ∷ "❤\u{fe0f}" ∷ "😂" ∷ "😮" ∷ "😢" ∷ "😡" ∷ "🔥" ∷ "👏" ∷ "🎉" ∷ "💯" ∷ []

unfoldable pub is_allowed_emoji : String → Bool
is_allowed_emoji emoji = any (λ e. e == emoji) allowed_emojis

-- `userId_messageId_emoji`
abbrev pub is_reaction : ℕ → ℕ → String → Reaction → Bool
is_reaction user message emoji r = r.user_id == user && r.message_id == message && r.emoji == emoji

abbrev pub reaction_to : ℕ → Reaction → Bool
reaction_to message r = r.message_id == message

abbrev pub reaction_has_id : ℕ → Reaction → Bool
reaction_has_id id r = r.id == id

abbrev pub new_reaction : ℕ → ℕ → String → ℕ → Reaction
new_reaction user message emoji id = record {
  id = id;
  emoji = emoji;
  user_id = user;
  message_id = message;
}

-- A reaction as it is shown: `U` is what is shown of a user.
pub record Shown (U : Type 0) : Type 0 where
  pub emoji : String
  pub user_id : ℕ
  pub user : U

-- `{ userIds, users }` of the map in `groupReactions`, and a group of its result.
pub record Slot (U : Type 0) : Type 0 where
  pub user_ids : List ℕ
  pub users : List U

pub record Group (U : Type 0) : Type 0 where
  pub emoji : String
  pub count : ℕ
  pub user_ids : List ℕ
  pub users : List U

module _ {U : Type 0} where
  abbrev pub or_new : Option (Slot U) → Slot U
  or_new none = record { user_ids = []; users = [] }
  or_new (some s) = s

  abbrev pub pushed : Shown U → Slot U → Slot U
  pushed r s = record { user_ids = s.user_ids ++ r.user_id ∷ []; users = s.users ++ r.user ∷ [] }

  -- The loop over the reactions.
  unfoldable pub collect : List (Shown U) → Map String (Slot U) → Map String (Slot U)
  collect [] m = m
  collect (r ∷ rs) m = collect rs (insert r.emoji (pushed r (or_new (lookup r.emoji m))) m)

  abbrev pub as_group : String × Slot U → Group U
  as_group (emoji, s) = record {
    emoji = emoji;
    count = length s.user_ids;
    user_ids = s.user_ids;
    users = s.users;
  }

  unfoldable pub group_reactions : List (Shown U) → List (Group U)
  unfolding collect
  group_reactions rs = map as_group (collect rs [])

module _ {C M P N R K U : Type 0} (client : Client C M P N R K) (profile : ℕ → U) where
  -- Ids rise with the time of creation, so the order by `createdAt` is that by id. `profile` is
  -- what the client joins to a row of its user.
  abbrev pub shown : Reaction → Shown U
  shown r = record { emoji = r.emoji; user_id = r.user_id; user = profile r.user_id }

  abbrev pub create_reaction : (ℕ → Reaction) → Db C M P N R K → Db C M P N R K
  create_reaction f d = record d { reactions = client.reactions.create f d.reactions }

  abbrev pub delete_reactions : (Reaction → Bool) → Db C M P N R K → Db C M P N R K
  delete_reactions p d = record d { reactions = client.reactions.delete_where p d.reactions }

  -- `existing` decides whether the reaction goes or comes.
  unfoldable pub flip : Option Reaction → ℕ → ℕ → String → Db C M P N R K → Db C M P N R K
  flip (some r) user message emoji d = delete_reactions (reaction_has_id r.id) d
  flip none user message emoji d = create_reaction (new_reaction user message emoji) d

  unfoldable pub toggle_reaction : ℕ → ℕ → String → Action (Db C M P N R K) (List (Group U) × ℕ)
  unfolding assert_member flip group_reactions
  toggle_reaction message user emoji = do
    throw_if (not (is_allowed_emoji emoji)) (bad_request "Invalid emoji")
    msg ← or_throw (← find_message client message) (not_found "Not found")
    throw_if (is_some msg.deleted_at) (bad_request "Cannot react to deleted message")
    assert_member client user msg.conversation_id
    existing ← gets (λ d. client.reactions.find_first (is_reaction user message emoji) d.reactions)
    modify (flip existing user message emoji)
    reactions ←
        gets (λ d. client.reactions.find_sorted (λ r. r.id) (reaction_to message) d.reactions)
    pure (group_reactions (map shown reactions), msg.conversation_id)
