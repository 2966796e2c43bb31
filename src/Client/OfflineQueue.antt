-- ===== src/Client/OfflineQueue.antt =====
-- client/src/hooks/useOfflineQueue.ts: the messages that wait for the connection. A flush awaits the
-- sending of one message after the other, and other events may come in between.
use messenger_web_app.Prelude.{
  ℕ, Bool, true, false, ◌||◌, Option, none, some, String, List, [], ◌∷◌, ◌++◌, if◌then◌else◌,
}

pub record QueuedMessage : Type 0 where
  pub queue_id : String
  pub conversation_id : ℕ
  pub content : String
  pub reply_to_id : Option ℕ
  pub created_at : String
  pub sender_id : ℕ
  pub other_user_id : Option ℕ

-- The local variables of a flush that runs: what of `toFlush` has no answer yet, and `failed`.
pub record Flight : Type 0 where
  pub to_flush : List QueuedMessage
  pub failed : List QueuedMessage

pub record OfflineQueue : Type 0 where
  pub queue : List QueuedMessage
  pub is_online : Bool
  pub flushing : Bool
  pub flight : Option Flight

-- `answered` is the end of the call of `onFlush` that is awaited; `false` stands also for one that
-- throws. `onFlushFailed` does not throw.
pub data Event : Type 0 where
  queued : QueuedMessage → Event
  flushed : Event
  answered : Bool → Event
  went_online went_offline : Event

unfoldable pub enqueue : QueuedMessage → OfflineQueue → OfflineQueue
enqueue msg s = record s { queue = s.queue ++ msg ∷ [] }

abbrev pub is_empty : List QueuedMessage → Bool
is_empty [] = true
is_empty (_ ∷ _) = false

unfoldable pub flush : OfflineQueue → OfflineQueue
flush s =
    if s.flushing || is_empty s.queue
    then s
    else record s { flushing = true; flight = some (record { to_flush = s.queue; failed = [] }) }

-- What follows an answer: the next message, or the end of the loop.
abbrev pub go_on : List QueuedMessage → List QueuedMessage → OfflineQueue → OfflineQueue
go_on [] failed s = record s { queue = failed; flushing = false; flight = none }
go_on (x ∷ rest) failed s = record s {
  flight = some (record { to_flush = x ∷ rest; failed = failed });
}

abbrev pub keep_failed : Bool → QueuedMessage → List QueuedMessage
keep_failed true msg = []
keep_failed false msg = msg ∷ []

abbrev pub answer_to : Bool → List QueuedMessage → List QueuedMessage → OfflineQueue → OfflineQueue
answer_to ok [] failed s = s
answer_to ok (msg ∷ rest) failed s = go_on rest (failed ++ keep_failed ok msg) s

abbrev pub answer_flight : Bool → Option Flight → OfflineQueue → OfflineQueue
answer_flight ok none s = s
answer_flight ok (some f) s = answer_to ok f.to_flush f.failed s

unfoldable pub answer : Bool → OfflineQueue → OfflineQueue
answer ok s = answer_flight ok s.flight s

unfoldable pub step : Event → OfflineQueue → OfflineQueue
unfolding enqueue flush answer
step (queued msg) s = enqueue msg s
step flushed s = flush s
step (answered ok) s = answer ok s
step went_online s = flush (record s { is_online = true })
step went_offline s = record s { is_online = false }

unfoldable pub run : List Event → OfflineQueue → OfflineQueue
unfolding step
run [] s = s
run (e ∷ es) s = run es (step e s)

-- The answers among the events, and the messages whose answer was not that they are sent.
unfoldable pub answers : List Event → List Bool
answers [] = []
answers (answered ok ∷ es) = ok ∷ answers es
answers (queued msg ∷ es) = answers es
answers (flushed ∷ es) = answers es
answers (went_online ∷ es) = answers es
answers (went_offline ∷ es) = answers es

unfoldable pub unsent : List QueuedMessage → List Bool → List QueuedMessage
unsent (msg ∷ msgs) (ok ∷ oks) = keep_failed ok msg ++ unsent msgs oks
unsent _ _ = []
