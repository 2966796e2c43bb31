-- ===== src/Gateway/Rooms.antt =====
-- chat.gateway.ts: the handlers that relay an event to a room, and those that join one. The rooms are
-- those of the sockets: that of a user and those of conversations.
use messenger_web_app.Prelude.{
  ℕ, Bool, true, false, Option, none, some, String, List, [], ◌∷◌, ◌==◌, nat_eq, string_eq, map,
  filter, if◌then◌else◌, is_some, Result, ok, err, Error,
}
use messenger_web_app.RateLimit.{Limiter}
use messenger_web_app.DeviceSync.Handlers.{Client as Socket, Out as Reply, rate_limit}
use messenger_web_app.Conversations.{Message, Db, Client, is_seat}
use messenger_web_app.Conversations.Members.{mark_as_read}
use messenger_web_app.Conversations.Pins.{add_pinned_message, remove_pinned_message}
use messenger_web_app.Conversations.Messages.{forward_message}
use messenger_web_app.Conversations.Reactions.{Group, toggle_reaction}

-- What the events carry.
pub data RoomEvent (U : Type 0) : Type 0 where
  conversation_read : ℕ → ℕ → RoomEvent U
  on_typing : ℕ → String → ℕ → Bool → RoomEvent U
  reaction_toggled : ℕ → List (Group U) → ℕ → RoomEvent U
  message_pinned : ℕ → ℕ → ℕ → RoomEvent U
  message_unpinned : ℕ → RoomEvent U
  pin_failed unpin_failed forward_failed : Error → RoomEvent U
  on_message : Message → RoomEvent U
  joined_conversation added_to_conversation : ℕ → RoomEvent U
  redistribution_requested : ℕ → ℕ → RoomEvent U
  peer_key_rotated : ℕ → RoomEvent U
  token_updated : Bool → RoomEvent U

-- `client.emit`, `server.to(conv)`, `client.to(conv)`, `server.to(user)`, `client.broadcast`, and
-- the end of the connection.
pub data RoomOut (U : Type 0) : Type 0 where
  reply : Reply → RoomOut U
  to_client : RoomEvent U → RoomOut U
  to_conversation to_others to_user : ℕ → RoomEvent U → RoomOut U
  to_everyone_else : RoomEvent U → RoomOut U
  disconnects : RoomOut U

-- The sockets with the conversations whose rooms they are in.
abbrev pub Rooms : Type 0
Rooms = List (String × ℕ)

-- `client.join(conv)`
abbrev pub join_room : String → ℕ → Rooms → Rooms
join_room socket conversation rooms = (socket, conversation) ∷ rooms

unfoldable pub handle_typing :
    {U : Type 0} → String → Socket → ℕ → Bool → ℕ → Limiter → List (RoomOut U) × Limiter
unfolding rate_limit
handle_typing nickname socket conversation typing now l =
    let (refusal, passed, l') = rate_limit socket l "typing" now in
    (
      if passed
          then to_others conversation (on_typing socket.user nickname conversation typing) ∷ []
          else map reply refusal,
      l',
    )

unfoldable pub handle_join_conversation :
    {U : Type 0} → Socket → ℕ → Rooms → List (RoomOut U) × Rooms
handle_join_conversation socket conversation rooms =
    (to_client (joined_conversation conversation) ∷ [], join_room socket.id conversation rooms)

-- `notifyUserJoinRoom`: the sockets of the user join the room.
unfoldable pub join_all : List String → ℕ → Rooms → Rooms
join_all [] conversation rooms = rooms
join_all (socket ∷ sockets) conversation rooms =
    join_all sockets conversation (join_room socket conversation rooms)

unfoldable pub notify_user_join_room :
    {U : Type 0} → List String → ℕ → ℕ → Rooms → List (RoomOut U) × Rooms
unfolding join_all
notify_user_join_room sockets user conversation rooms =
    (to_user user (added_to_conversation conversation) ∷ [], join_all sockets conversation rooms)

unfoldable pub handle_key_rotated : {U : Type 0} → Socket → List (RoomOut U)
handle_key_rotated socket = to_everyone_else (peer_key_rotated socket.user) ∷ []

-- `verified` is the user that the token names, where it is valid; the flag is whether the client keeps
-- the new token.
unfoldable pub handle_update_token : {U : Type 0} → Socket → Option ℕ → List (RoomOut U) × Bool
handle_update_token socket none = (to_client (token_updated false) ∷ [], false)
handle_update_token socket (some user) =
    if user == socket.user
    then (to_client (token_updated true) ∷ [], true)
    else (disconnects ∷ [], false)

-- The sockets that an event for the room of a conversation reaches.
abbrev pub in_room : ℕ → String × ℕ → Bool
in_room conversation r = r.1 == conversation

unfoldable pub receivers : {U : Type 0} → Rooms → RoomOut U → List String
receivers rooms (to_conversation conversation e) =
    map (λ r. r.0) (filter (in_room conversation) rooms)
receivers rooms _ = []

module _ {C M P N R K U : Type 0} (client : Client C M P N R K) where
  unfoldable pub handle_mark_as_read :
      Socket → ℕ → ℕ → Db C M P N R K → List (RoomOut U) × Db C M P N R K
  handle_mark_as_read socket conversation now d =
      let (_, d') = mark_as_read client socket.user conversation now d in
      (to_others conversation (conversation_read socket.user conversation) ∷ [], d')

  -- Only the log is told of a reaction that fails.
  abbrev pub after_reaction : ℕ → Result (List (Group U) × ℕ) → List (RoomOut U)
  after_reaction message (ok (groups, conversation)) =
      to_conversation conversation (reaction_toggled message groups conversation) ∷ []
  after_reaction message (err e) = []

  unfoldable pub handle_reaction :
      (ℕ → U)
      → Socket
      → ℕ
      → String
      → ℕ
      → Limiter
      → Db C M P N R K
      → List (RoomOut U) × Limiter × Db C M P N R K
  unfolding rate_limit toggle_reaction
  handle_reaction profile socket message emoji now l d =
      let (refusal, passed, l') = rate_limit socket l "toggleReaction" now in
      if passed
      then (let (r, d') = toggle_reaction client profile message socket.user emoji d in
          (after_reaction message r, l', d'))
      else (map reply refusal, l', d)

  abbrev pub after_pin : ℕ → ℕ → Result ℕ → List (RoomOut U)
  after_pin conversation message (ok count) =
      to_conversation conversation (message_pinned conversation message count) ∷ []
  after_pin conversation message (err e) = to_client (pin_failed e) ∷ []

  unfoldable pub handle_pin :
      Socket → ℕ → ℕ → ℕ → Limiter → Db C M P N R K → List (RoomOut U) × Limiter × Db C M P N R K
  unfolding rate_limit add_pinned_message
  handle_pin socket conversation message now l d =
      let (refusal, passed, l') = rate_limit socket l "pinMessage" now in
      if passed
      then (let (r, d') = add_pinned_message client socket.user conversation message now d in
          (after_pin conversation message r, l', d'))
      else (map reply refusal, l', d)

  abbrev pub after_unpin : ℕ → Result ℕ → List (RoomOut U)
  after_unpin conversation (ok count) =
      to_conversation conversation (message_unpinned conversation) ∷ []
  after_unpin conversation (err e) = to_client (unpin_failed e) ∷ []

  unfoldable pub handle_unpin :
      Socket → ℕ → ℕ → ℕ → Limiter → Db C M P N R K → List (RoomOut U) × Limiter × Db C M P N R K
  unfolding rate_limit remove_pinned_message
  handle_unpin socket conversation message now l d =
      let (refusal, passed, l') = rate_limit socket l "unpinMessage" now in
      if passed
      then (let (r, d') = remove_pinned_message client socket.user conversation message d in
          (after_unpin conversation r, l', d'))
      else (map reply refusal, l', d)

  unfoldable pub handle_request_redistribution : Socket → ℕ → ℕ → Db C M P N R K → List (RoomOut U)
  handle_request_redistribution socket conversation target d =
      if is_some (client.members.find_first (is_seat conversation socket.user) d.members)
      then to_user target (redistribution_requested conversation socket.user) ∷ []
      else []

  abbrev pub after_forward : ℕ → Result Message → List (RoomOut U)
  after_forward target (ok msg) = to_conversation target (on_message msg) ∷ []
  after_forward target (err e) = to_client (forward_failed e) ∷ []

  unfoldable pub handle_forward_message :
      Socket
      → ℕ
      → ℕ
      → Option String
      → ℕ
      → Limiter
      → Db C M P N R K
      → List (RoomOut U) × Limiter × Db C M P N R K
  unfolding rate_limit forward_message
  handle_forward_message socket message target encrypted now l d =
      let (refusal, passed, l') = rate_limit socket l "forwardMessage" now in
      if passed
      then (let (r, d') = forward_message client socket.user message target encrypted now d in
          (after_forward target r, l', d'))
      else (map reply refusal, l', d)
