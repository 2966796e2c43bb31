-- ===== src/Conversations/Saved.antt =====
-- conversations.service.ts: what saving a message needs, and what it writes.
use messenger_web_app.Prelude.{
  ap, none, if◌then◌else◌, ◌==◌, ◌≤◌, ℕ, ◌≡◌, refl, false, ◌&&◌, Option, some, String, List, [],
  ◌∷◌, ◌++◌, arith, Result, Error, ok, err, ◌>>=◌, Option-cases, Bool-cases, inl, inr, ◌⊎◌, map,
  nat_eq,
}
use messenger_web_app.Metadata.{Checked, MetadataError, valid, invalid}
use messenger_web_app.Conversations.{
  Conversation, Member, Message, Db, Client, is_seat, is_member_role, conversation_has_id,
  assert_member, assert_admin,
}
use messenger_web_app.Conversations.Messages.{trim, trim_start, trim_end}
use messenger_web_app.Conversations.Envelopes.{IsStored, create_envelopes-IsStored}
use messenger_web_app.Conversations.Saving.{
  Draft, is_too_long, is_channel, new_message, trimmed_content, store_message, save_message,
  text_length, ConversationUpdate, update_conversation, upsert_key, upsert_keys, set_sender_key,
  with_update,
}

Checked-cases :
    {A : Type 0} (c : Checked A)
    → ((e : MetadataError) × (c ≡ invalid e)) ⊎ ((a : A) × (c ≡ valid a))
Checked-cases (invalid e) = inl (e, refl)
Checked-cases (valid a) = inr (a, refl)

-- The text of a draft; an absent one counts as empty.
abbrev pub text_of : Option String → String
text_of none = ""
text_of (some s) = s

trimmed-text_of : (o : Option String) → trimmed_content o ≡ trim (text_of o)
unfolding trim trim_start trim_end
trimmed-text_of none = refl
trimmed-text_of (some s) = refl

short_text : (o : Option String) → is_too_long o ≡ false → text_length (text_of o) ≤ 4096
short_text none h = omega arith
short_text (some s) h = ground arith

module _ {C M P N R K : Type 0} (client : Client C M P N R K) where
  -- What is known of a message saved at `now`, where the state was `d` before the call and `d'` after it.
  pub record IsSaved (validate : Option String → Checked (Option String)) (user conversation : ℕ)
      (draft : Draft) (now : ℕ) (d d' : Db C M P N R K) (msg : Message) : Type 0 where
    pub sender : Member
    pub place : Conversation
    pub seated : client.members.find_first (is_seat conversation user) d.members ≡ some sender
    pub there :
        client.conversations.find_first (conversation_has_id conversation) d.conversations
        ≡ some place
    pub may_post : (is_channel place.kind && is_member_role sender.role) ≡ false
    pub short : text_length (text_of draft.content) ≤ 4096
    pub content : msg.content ≡ trim (text_of draft.content)
    pub metadata : validate draft.metadata ≡ valid msg.metadata
    pub from_user : (msg.sender_id ≡ user) × (msg.conversation_id ≡ conversation)
    pub file :
        (msg.file_url ≡ draft.file_url)
        × (msg.file_name ≡ draft.file_name)
        × (msg.file_type ≡ draft.file_type)
        × (msg.file_size ≡ draft.file_size)
    pub answers : (msg.reply_to_id ≡ draft.reply_to_id) × (msg.forwarded_from_id ≡ none)
    pub device : msg.sender_device_id ≡ draft.sender_device_id
    pub times :
        (msg.created_at ≡ now)
        × (msg.scheduled_at ≡ draft.scheduled_at)
        × (msg.edited_at ≡ none)
        × (msg.deleted_at ≡ none)
    pub stored : client.messages.rows d'.messages ≡ client.messages.rows d.messages ++ msg ∷ []
    pub with_keys : IsStored msg.id draft.envelopes d.envelopes d'.envelopes
    pub touched :
        client.conversations.rows d'.conversations
        ≡ map
            (λ (x : Conversation).
              if x.id == conversation then record x { updated_at = now } else x)
            (client.conversations.rows d.conversations)
    pub same_ids :
        client.conversations.next_id d'.conversations ≡ client.conversations.next_id d.conversations
    pub same_others : d' ≡ record d {
      messages = d'.messages;
      conversations = d'.conversations;
      envelopes = d'.envelopes;
    }

  abbrev Outcome :
      (Option String → Checked (Option String))
      → ℕ
      → ℕ
      → Draft
      → ℕ
      → Db C M P N R K
      → Result Message × Db C M P N R K
      → Type 0
  Outcome validate user conversation draft now d r =
      ((msg : Message) → r.0 ≡ ok msg → IsSaved validate user conversation draft now d r.1 msg)
      × ((e : Error) → r.0 ≡ err e → r.1 ≡ d)

  refused :
      (validate : Option String → Checked (Option String)) (user conversation : ℕ) (draft : Draft)
      (now : ℕ) (d : Db C M P N R K) (e : Error)
      → Outcome validate user conversation draft now d (err e, d)
  refused validate user conversation draft now d e = (λ msg h. cc, λ x h. refl)

  kept :
      (validate : Option String → Checked (Option String)) (user conversation now : ℕ)
      (draft : Draft) (metadata : Option String) (d : Db C M P N R K) (m : Member)
      (x : Conversation)
      → client.members.find_first (is_seat conversation user) d.members ≡ some m
      → client.conversations.find_first (conversation_has_id conversation) d.conversations ≡ some x
      → (is_channel x.kind && is_member_role m.role) ≡ false
      → is_too_long draft.content ≡ false
      → validate draft.metadata ≡ valid metadata
      → Outcome validate user conversation draft now d (
          store_message client conversation
            (new_message user conversation draft metadata now)
            draft.envelopes
            now
            d)
  kept validate user conversation now draft metadata d m x f g t l c = (
    λ msg h.
        let new = new_message user conversation draft metadata now in
        let same : new (client.messages.next_id d.messages) ≡ msg = cc in
        rw (← same) (record {
          sender = m;
          place = x;
          seated = f;
          there = g;
          may_post = t;
          short = short_text draft.content l;
          content = trimmed-text_of draft.content;
          metadata = c;
          from_user = (refl, refl);
          file = (refl, refl, refl, refl);
          answers = (refl, refl);
          device = refl;
          times = (refl, refl, refl, refl);
          stored = client.messages.rows-create new d.messages;
          with_keys =
              create_envelopes-IsStored (client.messages.next_id d.messages) draft.envelopes
                d.envelopes;
          touched =
              client.conversations.rows-update_where (conversation_has_id conversation)
                (λ y. record y { updated_at = now }) d.conversations;
          same_ids =
              client.conversations.next_id-update_where (conversation_has_id conversation)
                (λ y. record y { updated_at = now }) d.conversations;
          same_others = refl;
        }),
    λ e h. absurd (ground arith),
  )

  -- What is known of either outcome.
  save_message_lem :
      (validate : Option String → Checked (Option String)) (user conversation : ℕ) (draft : Draft)
      (now : ℕ) (d : Db C M P N R K)
      → Outcome validate user conversation draft now d
          (save_message client validate user conversation draft now d)
  unfolding save_message assert_member
  save_message_lem validate user conversation draft now d =
      elim (Bool-cases (is_too_long draft.content)) [
        | inl l ↦ rw l (refused validate user conversation draft now d _)
        | inr l ↦
            rw l
              (elim (Option-cases
                (client.members.find_first (is_seat conversation user) d.members)) [
                  | inl f ↦ rw (f, ◌>>=◌) (rw f (refused validate user conversation draft now d _))
                  | inr (m, f) ↦
                      rw (f, ◌>>=◌)
                        (elim (Option-cases (
                          client.conversations.find_first (conversation_has_id conversation)
                            d.conversations)) [
                              | inl g ↦
                                  rw (f, g, ◌>>=◌)
                                    (rw (f, g) (refused validate user conversation draft now d _))
                              | inr (x, g) ↦
                                  rw (f, g, ◌>>=◌)
                                    (elim (Bool-cases
                                      (is_channel x.kind && is_member_role m.role)) [
                                        | inl t ↦
                                            rw (t, f, g, ◌>>=◌)
                                              (rw t
                                                (refused validate user conversation draft now d _))
                                        | inr t ↦
                                            rw (t, f, g, ◌>>=◌)
                                              (rw t
                                                (elim (Checked-cases (validate draft.metadata)) [
                                                  | inl (e, c) ↦
                                                      rw (c, ◌>>=◌)
                                                        (rw (f, g, t, c)
                                                          (refused validate user conversation draft
                                                            now d _))
                                                  | inr (metadata, c) ↦
                                                      rw (c, ◌>>=◌)
                                                        (rw (f, g, t, c)
                                                          (kept validate user conversation now draft
                                                            metadata d m x f g t l c))
                                                ]))
                                      ])
                            ])
                ])
      ]

  -- A message that is saved comes from a member, who is no plain member of a channel; its text is at
  -- most 4096 long and is stored trimmed, its metadata as the validator gives it, and its file, reply,
  -- device and time as they were given. Its row is added to the others; each device that was given an
  -- envelope has one for it and gets no second one, no other envelope comes and none goes; its
  -- conversation gets the time, and nothing else changes.
  pub save_message_sound :
      (validate : Option String → Checked (Option String)) (user conversation : ℕ) (draft : Draft)
      (now : ℕ) (d : Db C M P N R K) (msg : Message)
      → (save_message client validate user conversation draft now d).0 ≡ ok msg
      → IsSaved validate user conversation draft now d
          (save_message client validate user conversation draft now d).1
          msg
  save_message_sound validate user conversation draft now d msg h =
      (save_message_lem validate user conversation draft now d).0 msg h

  -- What the calls of this part leave alone: seats, pins, and the ids of conversations.
  abbrev pub IsElsewhere : Db C M P N R K → Db C M P N R K → Type 0
  IsElsewhere d d' =
      (d'.members ≡ d.members)
      × (d'.pins ≡ d.pins)
      × (client.conversations.next_id d'.conversations
          ≡ client.conversations.next_id d.conversations)

  Outcome-IsElsewhere :
      (validate : Option String → Checked (Option String)) (user conversation : ℕ) (draft : Draft)
      (now : ℕ) (d : Db C M P N R K) (r : Result Message × Db C M P N R K)
      → Outcome validate user conversation draft now d r
      → IsElsewhere d r.1
  Outcome-IsElsewhere validate user conversation draft now d (ok msg, d') (f, g) =
      let v = f msg refl in
      (
        ap (λ (x : Db C M P N R K). x.members) v.same_others,
        ap (λ (x : Db C M P N R K). x.pins) v.same_others,
        v.same_ids,
      )
  Outcome-IsElsewhere validate user conversation draft now d (err e, d') (f, g) =
      let same = g e refl in rw same (refl, refl, refl)

  pub save_message-IsElsewhere :
      (validate : Option String → Checked (Option String)) (user conversation : ℕ) (draft : Draft)
      (now : ℕ) (d : Db C M P N R K)
      → IsElsewhere d (save_message client validate user conversation draft now d).1
  save_message-IsElsewhere validate user conversation draft now d =
      Outcome-IsElsewhere validate user conversation draft now d _
        (save_message_lem validate user conversation draft now d)

  pub update_conversation-IsElsewhere :
      (user conversation : ℕ) (u : ConversationUpdate) (now : ℕ) (d : Db C M P N R K)
      → IsElsewhere d (update_conversation client user conversation u now d).1
  unfolding update_conversation assert_admin assert_member
  update_conversation-IsElsewhere user conversation u now d = ground (
    arith,
    client.conversations.next_id-update_where (conversation_has_id conversation)
        (λ x. record (with_update u x) { updated_at = now }) d.conversations,
  )

  upsert_keys-IsElsewhere :
      (conversation sender version : ℕ) (keys : List (ℕ × String)) (d : Db C M P N R K)
      → IsElsewhere d (upsert_keys client conversation sender version keys d)
  unfolding upsert_keys
  upsert_keys-IsElsewhere conversation sender version [] d = (refl, refl, refl)
  upsert_keys-IsElsewhere conversation sender version ((recipient, key) ∷ keys) d = ground (
    arith,
    upsert_keys-IsElsewhere conversation sender version keys
        (upsert_key client conversation sender version (recipient, key) d),
  )

  pub set_sender_key-IsElsewhere :
      (user conversation : ℕ) (keys : List (ℕ × String)) (version : ℕ) (d : Db C M P N R K)
      → IsElsewhere d (set_sender_key client user conversation keys version d).1
  unfolding set_sender_key assert_member
  set_sender_key-IsElsewhere user conversation keys version d =
      ground (arith, upsert_keys-IsElsewhere conversation user version keys d)
