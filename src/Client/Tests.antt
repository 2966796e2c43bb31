-- ===== src/Client/Tests.antt =====
-- client/src: runs of the client's parts, and the theorems at concrete inputs.
use messenger_web_app.Prelude.{
  ℕ, ◌≡◌, refl, Bool, true, false, Option, none, some, String, List, [], ◌∷◌, ◌++◌, ◌==◌, string_eq,
  if◌then◌else◌,
}
use messenger_web_app.Metadata.{Json, obj, to_fields}
use messenger_web_app.Metadata.Thousandths.{thousandths, voice, stored, accepts}
use messenger_web_app.Client.ParsedMetadata.{parse_metadata, with_defaults}
use messenger_web_app.Client.Stored.{parse_metadata-stored}
use messenger_web_app.Client.OfflineQueue.{
  QueuedMessage, Event, queued, flushed, answered, went_online, went_offline, run, answers, unsent,
}
use messenger_web_app.Client.Flushing.{idle, flush_lem}

-- One text holds the metadata of a voice message, and a number is read from nothing else.
abbrev read_json : String → Option (Json (Option ℕ))
read_json raw = if raw == "voice" then some (obj (to_fields thousandths stored)) else none

abbrev no_number : Json (Option ℕ) → Option ℕ
no_number _ = none

parse_metadata-stored_example :
    parse_metadata thousandths (some 50) no_number read_json (some "voice")
    ≡ with_defaults thousandths (some 50) no_number stored
parse_metadata-stored_example =
    parse_metadata-stored thousandths (some 50) no_number read_json "voice" voice stored accepts
      refl refl

abbrev message : String → QueuedMessage
message id = record {
  queue_id = id;
  conversation_id = 1;
  content = id;
  reply_to_id = none;
  created_at = "now";
  sender_id = 7;
  other_user_id = none;
}

-- The second of two messages cannot be sent, and a third one is queued in between.
abbrev meanwhile : List Event
meanwhile = went_offline ∷ answered true ∷ queued (message "c") ∷ went_online ∷ []

third_is_lost :
    (run
      (flushed ∷ meanwhile ++ answered false ∷ [])
      (idle (message "a" ∷ message "b" ∷ []) true)).queue
    ≡ message "b" ∷ []
unfolding run
third_is_lost = refl

flush_lem_example :
    (online : Bool) × (run
        (flushed ∷ meanwhile ++ answered false ∷ [])
        (idle (message "a" ∷ message "b" ∷ []) true)
      ≡ idle (unsent (message "a" ∷ message "b" ∷ []) (answers meanwhile ++ false ∷ [])) online)
unfolding answers
flush_lem_example = flush_lem meanwhile false (message "a" ∷ message "b" ∷ []) true refl
