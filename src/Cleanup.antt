-- ===== src/Cleanup.antt =====
-- server/src/conversations/cleanup.service.ts: messages that were deleted long ago go for good, with
-- the files that no other message has. Errors of the database are not modelled.
mod Kept
pub mod Outcome
mod Tests
use messenger_web_app.Prelude.{
  ℕ, ◌+◌, ◌*◌, Bool, true, false, not, Option, none, some, String, List, [], ◌∷◌, ◌++◌, ◌==◌,
  nat_eq, string_eq, leb, any, map, if◌then◌else◌,
}
use messenger_web_app.Prelude.Texts.{take}
use messenger_web_app.Conversations.{Message, Reaction, Pin, Envelope, Db, Client}

abbrev pub grace_ms : ℕ
grace_ms = 60 * 60 * 1000

abbrev pub batch_size : ℕ
batch_size = 1000

-- `deletedAt: { lte: cutoff }`
abbrev pub is_expired_at : ℕ → Option ℕ → Bool
is_expired_at now none = false
is_expired_at now (some deleted) = leb (deleted + grace_ms) now

abbrev pub is_expired : ℕ → Message → Bool
is_expired now m = is_expired_at now m.deleted_at

-- `{ in: ids }`
abbrev pub is_among : List ℕ → ℕ → Bool
is_among ids id = any (λ i. i == id) ids

abbrev pub is_among_some : List ℕ → Option ℕ → Bool
is_among_some ids none = false
is_among_some ids (some id) = is_among ids id

-- The relations of the schema when a message goes: its envelopes go with it, and a reply or a forward
-- loses the reference to it.
abbrev pub unlinked : List ℕ → Option ℕ → Option ℕ
unlinked ids o = if is_among_some ids o then none else o

abbrev pub unlink : List ℕ → Message → Message
unlink ids m = record m {
  reply_to_id = unlinked ids m.reply_to_id;
  forwarded_from_id = unlinked ids m.forwarded_from_id;
}

abbrev pub drop_envelopes : List ℕ → List Envelope → List Envelope
drop_envelopes ids [] = []
drop_envelopes ids (e ∷ es) =
    let rest = drop_envelopes ids es in if is_among ids e.message_id then rest else e ∷ rest

-- `map(m => m.fileUrl).filter(url => !!url)`
abbrev pub with_url : Option String → List String → List String
with_url none urls = urls
with_url (some url) urls = if url == "" then urls else url ∷ urls

abbrev pub file_urls : List Message → List String
file_urls [] = []
file_urls (m ∷ ms) = with_url m.file_url (file_urls ms)

abbrev pub has_file_url : String → Option String → Bool
has_file_url url none = false
has_file_url url (some u) = u == url

abbrev pub has_file : String → Message → Bool
has_file url m = has_file_url url m.file_url

-- A query without an order gives its rows in any order: `order` is the one that it takes.
module _ {C M P N R K : Type 0} (client : Client C M P N R K) where
  abbrev pub find_expired : (Message → ℕ) → ℕ → N → List Message
  find_expired order now s = take batch_size (client.messages.find_sorted order (is_expired now) s)

  abbrev pub delete_messages : List ℕ → N → N
  delete_messages ids s =
      client.messages.update_where (λ _. true) (unlink ids)
        (client.messages.delete_where (λ m. is_among ids m.id) s)

  -- The transaction.
  abbrev pub delete_all : List ℕ → Db C M P N R K → Db C M P N R K
  delete_all ids d = record d {
    reactions = client.reactions.delete_where (λ r. is_among ids r.message_id) d.reactions;
    pins = client.pins.delete_where (λ p. is_among ids p.message_id) d.pins;
    messages = delete_messages ids d.messages;
    envelopes = drop_envelopes ids d.envelopes;
  }

  abbrev pub delete_file : String → Db C M P N R K → Db C M P N R K
  delete_file url d = record d { deleted_files = d.deleted_files ++ url ∷ [] }

  -- The file goes where no message has it.
  abbrev pub delete_if : Bool → String → Db C M P N R K → Db C M P N R K
  delete_if true url d = delete_file url d
  delete_if false url d = d

  unfoldable pub delete_orphans : List String → Db C M P N R K → Db C M P N R K
  delete_orphans [] d = d
  delete_orphans (url ∷ urls) d =
      delete_orphans urls
        (delete_if (client.messages.count_where (has_file url) d.messages == 0) url d)

  abbrev pub clean_up : List Message → Db C M P N R K → Db C M P N R K
  clean_up [] d = d
  clean_up (m ∷ ms) d =
      delete_orphans (file_urls (m ∷ ms)) (delete_all (map (λ x. x.id) (m ∷ ms)) d)

  unfoldable pub run_cleanup : (Message → ℕ) → ℕ → Db C M P N R K → Db C M P N R K
  unfolding delete_orphans
  run_cleanup order now d = clean_up (find_expired order now d.messages) d
