-- ===== src/Cleanup/Tests.antt =====
-- server/src/conversations/cleanup.service.ts: a run of the clean-up over listed tables, and its
-- theorems there.
use messenger_web_app.Prelude.{
  ℕ, ◌≡◌, refl, false, none, some, String, List, [], ◌∷◌, arith, In, inl, inr, ◌⊎◌, any, All,
  Option, ap, ◌<◌,
}
use messenger_web_app.Prelude.Store.Listed.{listed, sort_by, insert_by}
use messenger_web_app.Conversations.{
  Conversation, Member, Pin, Message, Reaction, SenderKey, Db, Client,
}
use messenger_web_app.Cleanup.{is_expired, has_file, run_cleanup}
use messenger_web_app.Cleanup.Outcome.{
  Keeps, run_cleanup-kept, run_cleanup-files, run_cleanup-expired,
}
use messenger_web_app.Cleanup.Kept.{rows_of}

abbrev Rows : Type 0 → Type 0
Rows R = List R × ℕ

abbrev tables :
    Client
      (Rows Conversation)
      (Rows Member)
      (Rows Pin)
      (Rows Message)
      (Rows Reaction)
      (Rows SenderKey)
tables = record {
  conversations = listed;
  members = listed;
  pins = listed;
  messages = listed;
  reactions = listed;
  sender_keys = listed;
}

abbrev text_message : ℕ → Option ℕ → Option ℕ → Option String → Message
text_message id deleted reply_to file = record {
  id = id;
  content = "hello";
  created_at = 100;
  edited_at = none;
  deleted_at = deleted;
  file_url = file;
  file_name = none;
  file_type = none;
  file_size = none;
  forwarded_from_id = none;
  forwarded_from_user_id = none;
  reply_to_id = reply_to;
  metadata = none;
  scheduled_at = none;
  sender_device_id = none;
  sender_id = 8;
  conversation_id = 1;
}

-- Two messages were deleted long ago; another message has the file of the first, and answers it.
abbrev answer : Message
answer = text_message 3 none (some 1) (some "f1")

abbrev before :
    Db (Rows Conversation) (Rows Member) (Rows Pin) (Rows Message) (Rows Reaction) (Rows SenderKey)
before = record {
  conversations = ([], 1);
  members = ([], 1);
  pins = (
    record { id = 1; conversation_id = 1; message_id = 2; pinned_by_id = 8; pinned_at = 100 } ∷ [],
    2,
  );
  messages = (
    text_message 1 (some 200) none (some "f1")
        ∷ text_message 2 (some 300) none (some "f2")
        ∷ answer
        ∷ [],
    4,
  );
  reactions = (record { id = 1; emoji = "+"; user_id = 8; message_id = 1 } ∷ [], 2);
  sender_keys = ([], 1);
  deleted_files = [];
  envelopes = record { message_id = 2; device_id = 1; ciphertext = "x" } ∷ [];
}

after_run : run_cleanup tables (λ m. m.id) 4000000 before ≡ record before {
  pins = ([], 2);
  messages = (text_message 3 none none (some "f1") ∷ [], 4);
  reactions = ([], 2);
  deleted_files = "f2" ∷ [];
  envelopes = [];
}
unfolding run_cleanup sort_by insert_by
after_run = refl

other_id : (k : ℕ) → k < 3 → {n : ℕ} → n ≡ k → n ≡ 3 → ⊥
other_id k l e h = omega arith

alone :
    (y : Message) → In y (rows_of tables before) → y.id ≡ answer.id → is_expired 4000000 y ≡ false
alone y (inl e) h = absurd (other_id 1 (omega arith) (ap (λ (m : Message). m.id) e) h)
alone y (inr (inl e)) h = absurd (other_id 2 (omega arith) (ap (λ (m : Message). m.id) e) h)
alone y (inr (inr (inl e))) h = rw e refl
alone y (inr (inr (inr i))) h = absurd i

run_cleanup-kept_example :
    Keeps tables before (run_cleanup tables (λ m. m.id) 4000000 before) answer
run_cleanup-kept_example =
    run_cleanup-kept tables (λ m. m.id) 4000000 before answer (inr (inr (inl refl))) alone

run_cleanup-files_example :
    In "f2" before.deleted_files
    ⊎ (any (has_file "f2") (rows_of tables (run_cleanup tables (λ m. m.id) 4000000 before)) ≡ false)
unfolding run_cleanup sort_by insert_by
run_cleanup-files_example = run_cleanup-files tables (λ m. m.id) 4000000 before "f2" (inl refl)

run_cleanup-expired_example :
    All
      (λ x. is_expired 4000000 x ≡ false)
      (rows_of tables (run_cleanup tables (λ m. m.id) 4000000 before))
run_cleanup-expired_example = run_cleanup-expired tables (λ m. m.id) 4000000 before (omega arith)
