-- ===== src/Gateway/Scheduling.antt =====
-- chat.gateway.ts: what becomes of messages that are sent for a later time.
use messenger_web_app.Prelude.{
  ℕ, ◌+◌, ◌-◌, ◌<◌, ◌≡◌, refl, ◌∙◌, Bool, true, false, not, ◌&&◌, ◌||◌, Option, none, some, String,
  List, [], ◌∷◌, arith, ltb, All, All-In, In, ok, filter, is_some, ◌==◌, nat_eq, string_eq,
}
use messenger_web_app.Prelude.Rows.{In-filter, All-of_In}
use messenger_web_app.Metadata.{Checked}
use messenger_web_app.Conversations.{Message, Client}
use messenger_web_app.Conversations.Saving.{Draft, save_message}
use messenger_web_app.Conversations.Reading.{is_waiting, is_future, get_pending_scheduled_messages}
use messenger_web_app.Gateway.Messages.{
  ChatState, to_client, message_scheduled, at, check_draft, is_blank, is_absent, after_save,
  send_message, time_or_now, reload_one, reload_all, reload,
}

is_future_later :
    (now : ℕ) (o : Option ℕ) (b : Bool)
    → (is_future now o && not b) ≡ true
    → now < time_or_now now o
is_future_later now none b h = cc
is_future_later now (some t) b h = ground arith

module _ {C M P N R K : Type 0} (client : Client C M P N R K) where
  -- A message that is accepted for a time more than 2 ^ 31 - 1 milliseconds ahead, which is less than
  -- 25 days, gets a timer that fires after one millisecond.
  pub send_message-fires :
      (validate : Option String → Checked (Option String)) (label : String → String)
      (nickname : String) (user conversation : ℕ) (draft : Draft) (t now : ℕ)
      (s : ChatState C M P N R K) (msg : Message)
      → (conversation == 0 || (is_blank draft.content && is_absent draft.file_url)) ≡ false
      → check_draft now draft (at t) ≡ none
      → (save_message client validate user conversation
          (record draft { scheduled_at = some t })
          now
          s.db).0
        ≡ ok msg
      → 2147483647 < t - now
      → ((send_message client validate label nickname user conversation draft (at t) now s).0
          ≡ to_client (message_scheduled msg) ∷ [])
        × ((send_message client validate label nickname user conversation draft
              (at t)
              now
              s).1.timers
            ≡ record { message_id = msg.id; conversation_id = conversation; fires_at = now + 1 }
              ∷ s.timers)
  unfolding send_message after_save
  send_message-fires validate label nickname user conversation draft t now s msg full c h far =
      let late : ltb now t ≡ true = ground arith in
      let over : ltb 2147483647 (t - now) ≡ true = ground arith in
      rw (full, c, late, h, over) (refl, refl)

  -- Every pending message is for a later time than that at which they are asked for.
  pending_later :
      (now : ℕ) (s : ChatState C M P N R K)
      → All
          (λ m. now < time_or_now now m.scheduled_at)
          (client.messages.find_sorted (λ x. x.id) (is_waiting now) s.db.messages)
  pending_later now s =
      All-of_In (λ m. now < time_or_now now m.scheduled_at)
        (client.messages.find_sorted (λ x. x.id) (is_waiting now) s.db.messages)
        λ x i.
          let sorts = client.messages.find_sorted_lem (λ y. y.id) (is_waiting now) s.db.messages in
          let j =
            All-In (λ y. In y (filter (is_waiting now) (client.messages.rows s.db.messages))) x _
              sorts.no_others i in
          let (_, h) = In-filter (is_waiting now) x (client.messages.rows s.db.messages) j in
          is_future_later now x.scheduled_at (is_some x.deleted_at) h

  reload_one-later :
      (now : ℕ) (m : Message) (s : ChatState C M P N R K)
      → now < time_or_now now m.scheduled_at
      → ((reload_one client now m s).0 ≡ []) × ((reload_one client now m s).1.db ≡ s.db)
  unfolding reload_one
  reload_one-later now m s h =
      let t : ltb 0 (time_or_now now m.scheduled_at - now) ≡ true = ground arith in
      rw t (refl, refl)

  reload_all-later :
      (now : ℕ) (pending : List Message) (s : ChatState C M P N R K)
      → All (λ m. now < time_or_now now m.scheduled_at) pending
      → ((reload_all client now pending s).0 ≡ []) × ((reload_all client now pending s).1.db ≡ s.db)
  unfolding reload_all
  reload_all-later now [] s a = (refl, refl)
  reload_all-later now (m ∷ rest) s (later, a) =
      let (silent, same) = reload_one-later now m s later in
      let (silent', same') = reload_all-later now rest (reload_one client now m s).1 a in
      (rw (silent, silent') refl, same' ∙ same)

  -- A reload that reads the pending messages and runs its loop at one time delivers nothing and changes
  -- no row: a message whose time came while the server was away is not among the pending ones.
  pub reload_silent :
      (now : ℕ) (s : ChatState C M P N R K)
      → ((reload client now now s).0 ≡ []) × ((reload client now now s).1.db ≡ s.db)
  unfolding reload get_pending_scheduled_messages
  reload_silent now s = reload_all-later now _ s (pending_later now s)
