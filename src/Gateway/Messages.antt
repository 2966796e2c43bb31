-- ===== src/Gateway/Messages.antt =====
-- chat.gateway.ts: sending a message now or at a time, the delivery when the time has come, and the
-- timers that are set again when the server starts.
use messenger_web_app.Prelude.{
  ℕ, ◌+◌, ◌-◌, ◌*◌, Bool, true, false, not, ◌&&◌, ◌||◌, Option, none, some, String, List, [], ◌∷◌,
  ◌++◌, ◌==◌, nat_eq, string_eq, ltb, map, if◌then◌else◌, is_some, Result, ok, err, Error,
}
use messenger_web_app.RateLimit.{Limiter}
use messenger_web_app.Metadata.{Checked}
use messenger_web_app.DeviceSync.Handlers.{Out as Reply, rate_limit}
use messenger_web_app.DeviceSync.Handlers
use messenger_web_app.Conversations.{
  Member, Message, Db, Client, is_seat, message_has_id, update_messages,
}
use messenger_web_app.Conversations.Messages.{trim, deleted_at_time}
use messenger_web_app.Conversations.Saving.{Draft, save_message, text_length, max_content}
use messenger_web_app.Conversations.Reading.{get_pending_scheduled_messages}

-- The events about messages.
pub data ChatEvent : Type 0 where
  on_message message_scheduled : Message → ChatEvent
  message_failed : String → ChatEvent
  call_failed : Error → ChatEvent

-- An event goes to the client or to the room of a conversation; a notice is pushed to a user, with its
-- title and its text.
pub data ChatOut : Type 0 where
  reply : Reply → ChatOut
  to_client : ChatEvent → ChatOut
  to_room : ℕ → ChatEvent → ChatOut
  pushes : ℕ → String → String → ChatOut

-- A timer of `setTimeout`: the message, its conversation, and the time at which it fires.
pub record Timer : Type 0 where
  pub message_id : ℕ
  pub conversation_id : ℕ
  pub fires_at : ℕ

pub record ChatState (C M P N R K : Type 0) : Type 0 where
  pub db : Db C M P N R K
  pub limiter : Limiter
  pub timers : List Timer

abbrev pub max_schedule_ms : ℕ
max_schedule_ms = 30 * 24 * 60 * 60 * 1000

abbrev pub max_filename : ℕ
max_filename = 255

abbrev pub max_filetype : ℕ
max_filetype = 127

abbrev pub max_file_size : ℕ
max_file_size = 10 * 1024 * 1024

-- `setTimeout` of the platform: a delay of more than 2 ^ 31 - 1 milliseconds, or of less than one, is
-- one millisecond.
abbrev pub timeout_delay : ℕ → ℕ
timeout_delay ms = if ltb 2147483647 ms || ltb ms 1 then 1 else ms

abbrev pub schedule_message_delivery : ℕ → ℕ → ℕ → ℕ → List Timer → List Timer
schedule_message_delivery message conversation delay now timers =
    record {
      message_id = message;
      conversation_id = conversation;
      fires_at = now + timeout_delay delay;
    }
    ∷ timers

-- `scheduledAt` of the request: absent or empty, no date, or a time.
pub data Requested : Type 0 where
  immediately unreadable : Requested
  at : ℕ → Requested

-- `rawScheduled > new Date() ? rawScheduled : null`
abbrev pub scheduled_time : ℕ → Requested → Option ℕ
scheduled_time now (at t) = if ltb now t then some t else none
scheduled_time now _ = none

abbrev pub is_longer : ℕ → Option String → Bool
is_longer n none = false
is_longer n (some s) = ltb n (text_length s)

abbrev pub is_larger : ℕ → Option ℕ → Bool
is_larger n none = false
is_larger n (some k) = ltb n k

-- `!data.content?.trim() && !data.fileUrl`
abbrev pub is_blank : Option String → Bool
is_blank none = true
is_blank (some s) = trim s == ""

abbrev pub is_absent : Option String → Bool
is_absent none = true
is_absent (some s) = s == ""

abbrev pub is_too_far : ℕ → Requested → Bool
is_too_far now (at t) = ltb max_schedule_ms (t - now)
is_too_far now _ = false

abbrev pub is_unreadable : Requested → Bool
is_unreadable unreadable = true
is_unreadable _ = false

-- What the request says, and the error that it is answered with before anything is saved.
unfoldable pub check_draft : ℕ → Draft → Requested → Option String
check_draft now draft requested =
    if is_longer max_content draft.content
    then some "Message too long (max 4096 chars)"
    else (if is_longer max_filename draft.file_name
        then some "File name too long"
        else (if is_longer max_filetype draft.file_type
            then some "Invalid file type"
            else (if is_larger max_file_size draft.file_size
                then some "File size exceeds limit"
                else (if is_unreadable requested
                    then some "Invalid scheduledAt"
                    else (if is_too_far now requested
                        then some "scheduledAt too far in the future (max 30 days)"
                        else none)))))

-- `📎 ${data.fileName ?? 'Файл'}` and the text without a file.
abbrev pub file_label : Option String → String
file_label none = "Файл"
file_label (some name) = name

abbrev pub sealed_text : String
sealed_text = "🔒 Зашифроване повідомлення"

-- The time of a message that is pending.
abbrev pub time_or_now : ℕ → Option ℕ → ℕ
time_or_now now none = now
time_or_now now (some t) = t

module _ {C M P N R K : Type 0} (client : Client C M P N R K) where
  -- The other members, who are notified; the order of the query is not fixed, here it is by id.
  unfoldable pub others_in : ℕ → ℕ → Db C M P N R K → List ℕ
  others_in conversation user d =
      map (λ m. m.user_id)
        (client.members.find_sorted (λ m. m.id)
          (λ m. m.conversation_id == conversation && not (m.user_id == user)) d.members)

  -- The text of the notice; `label` joins the sign of a file and its name.
  abbrev pub push_body : (String → String) → Draft → String
  push_body label draft =
      if is_absent draft.file_url then sealed_text else label (file_label draft.file_name)

  -- What follows `saveMessage`.
  unfoldable pub after_save :
      (String → String)
      → String
      → ℕ
      → ℕ
      → Draft
      → Option ℕ
      → ℕ
      → Result Message
      → ChatState C M P N R K
      → List ChatOut × ChatState C M P N R K
  unfolding others_in
  after_save label nickname user conversation draft time now (err e) s =
      (to_client (call_failed e) ∷ [], s)
  after_save label nickname user conversation draft (some t) now (ok msg) s = (
    to_client (message_scheduled msg) ∷ [],
    record s { timers = schedule_message_delivery msg.id conversation (t - now) now s.timers },
  )
  after_save label nickname user conversation draft none now (ok msg) s = (
    to_room conversation (on_message msg)
        ∷ map (λ other. pushes other nickname (push_body label draft))
            (others_in conversation user s.db),
    s,
  )

  -- `handleMessage`, once the rate limit has let it through. A message with neither text nor file, or
  -- for no conversation, is dropped.
  unfoldable pub send_message :
      (Option String → Checked (Option String))
      → (String → String)
      → String
      → ℕ
      → ℕ
      → Draft
      → Requested
      → ℕ
      → ChatState C M P N R K
      → List ChatOut × ChatState C M P N R K
  unfolding check_draft after_save
  send_message validate label nickname user conversation draft requested now s =
      if conversation == 0 || (is_blank draft.content && is_absent draft.file_url)
      then ([], s)
      else elim (check_draft now draft requested) [
        | some e ↦ (to_client (message_failed e) ∷ [], s)
        | none ↦
            let time = scheduled_time now requested in
            let (saved, d) =
              save_message client validate user conversation (record draft { scheduled_at = time })
                now s.db in
            after_save label nickname user conversation draft time now saved (record s { db = d })
      ]

  unfoldable pub handle_message :
      (Option String → Checked (Option String))
      → (String → String)
      → String
      → Handlers.Client
      → ℕ
      → Draft
      → Requested
      → ℕ
      → ChatState C M P N R K
      → List ChatOut × ChatState C M P N R K
  unfolding send_message rate_limit
  handle_message validate label nickname socket conversation draft requested now s =
      let (refusal, passed, l) = rate_limit socket s.limiter "sendMessage" now in
      if passed
      then send_message validate label nickname socket.user conversation draft requested now
          (record s { limiter = l })
      else (map reply refusal, record s { limiter = l })

  -- What `deliverScheduledMessage` does with a message that is there and not deleted.
  abbrev pub deliver_found :
      ℕ → ℕ → Message → Option Member → Db C M P N R K → List ChatOut × Db C M P N R K
  deliver_found conversation now msg none d =
      ([], update_messages client (message_has_id msg.id) (deleted_at_time now) d)
  deliver_found conversation now msg (some m) d = (
    to_room conversation (on_message msg)
        ∷ map (λ other. pushes other "Нове повідомлення" sealed_text)
            (others_in conversation msg.sender_id d),
    d,
  )

  unfoldable pub deliver_scheduled_message :
      ℕ → ℕ → ℕ → Db C M P N R K → List ChatOut × Db C M P N R K
  unfolding others_in
  deliver_scheduled_message message conversation now d =
      elim (client.messages.find_first (message_has_id message) d.messages) [
        | none ↦ ([], d)
        | some msg ↦
            if is_some msg.deleted_at
            then ([], d)
            else deliver_found conversation now msg
                (client.members.find_first (is_seat conversation msg.sender_id) d.members) d
      ]

  -- One message in the loop of `onModuleInit` at the time `now`: a timer, or the delivery where the time
  -- has passed.
  unfoldable pub reload_one :
      ℕ → Message → ChatState C M P N R K → List ChatOut × ChatState C M P N R K
  unfolding deliver_scheduled_message
  reload_one now msg s =
      let delay = time_or_now now msg.scheduled_at - now in
      let (outs, d) = deliver_scheduled_message msg.id msg.conversation_id now s.db in
      if ltb 0 delay
      then (
        [],
        record s {
          timers = schedule_message_delivery msg.id msg.conversation_id delay now s.timers;
        },
      )
      else (outs, record s { db = d })

  unfoldable pub reload_all :
      ℕ → List Message → ChatState C M P N R K → List ChatOut × ChatState C M P N R K
  unfolding reload_one
  reload_all now [] s = ([], s)
  reload_all now (msg ∷ rest) s =
      let (first, s') = reload_one now msg s in
      let (more, s'') = reload_all now rest s' in (first ++ more, s'')

  -- The pending messages are read at `asked`, and the loop runs at `now`.
  unfoldable pub reload : ℕ → ℕ → ChatState C M P N R K → List ChatOut × ChatState C M P N R K
  unfolding reload_all get_pending_scheduled_messages
  reload asked now s = elim (get_pending_scheduled_messages client (λ _. "") asked s.db).0 [
    | ok pending ↦ reload_all now pending s
    | err e ↦ ([], s)
  ]
