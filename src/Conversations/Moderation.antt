-- ===== src/Conversations/Moderation.antt =====
-- Who may edit, delete and forward a message, and what becomes of its file.
use messenger_web_app.Prelude.{
  ℕ, ◌+◌, ◌≤◌, ◌≡◌, ◌≢◌, sym, inl, inr, ◌⊎◌, Bool, true, false, not, ◌&&◌, Option, none, some,
  String, List, [], ◌∷◌, ◌++◌, map, ◌==◌, nat_eq, string_eq, count, arith, Bool-cases, Option-cases,
  is_some, In, ok, nat_beq_iff, subst, refl, if◌then◌else◌, ◌>>=◌,
}
use text.Mathlib.TextEquality.{eq_iff}
use messenger_web_app.Prelude.Store.{rewrite}
use messenger_web_app.Conversations.{
  Member, Message, Db, Client, assert_member, is_member_role, is_seat, message_has_id,
  conversation_has_id, update_messages,
}
use messenger_web_app.Conversations.Messages.{
  drop_file, delete_message, edit_message, forward_message, trim, edited_to, deleted_at_time,
  edit_window_ms, refers_to, is_url, forwarded, is_no_admin, or_content,
}

-- A message that is not deleted and has the file.
abbrev pub holds_file : String → Message → Bool
holds_file url m = is_url m.file_url url && not (is_some m.deleted_at)

-- Of the rows in which one message is deleted, those that hold the file are others.
count_holders :
    (url : String) (id now : ℕ) (ms : List Message)
    → count (holds_file url) (map (rewrite (message_has_id id) (deleted_at_time now)) ms)
      ≤ count (refers_to url id) (map (rewrite (message_has_id id) (deleted_at_time now)) ms)
count_holders url id now [] = omega arith
count_holders url id now (m ∷ ms) = elim (Bool-cases (is_url m.file_url url)) [
  | inl h ↦ ground (arith, h, count_holders url id now ms)
  | inr h ↦ ground (arith, h, count_holders url id now ms)
]

module _ {C M P N R K : Type 0} (client : Client C M P N R K) where
  -- An edit that succeeds is of a message that is there, by its sender, not deleted, within the
  -- fifteen minutes, and to a text that is not blank; it changes nothing, or the content and the
  -- time of the edit of that message.
  pub edit_sound :
      (id user : ℕ) (content : String) (now : ℕ) (d : Db C M P N R K)
      → (edit_message client id user content now d).0 ≡ ok tt
      → (m : Message) × In m (client.messages.rows d.messages)
        × (m.id ≡ id)
        × (m.sender_id ≡ user)
        × (m.deleted_at ≡ none)
        × (now ≤ m.created_at + edit_window_ms)
        × (trim content ≢ "")
        × (((edit_message client id user content now d).1 ≡ d)
            ⊎ ((edit_message client id user content now d).1
                ≡ update_messages client (message_has_id id) (edited_to (trim content) now) d))
  unfolding edit_message
  edit_sound id user content now d h =
      elim (Option-cases (client.messages.find_first (message_has_id id) d.messages)) [
        | inl e ↦ absurd (ground (arith))
        | inr (m, e) ↦
            let (hit, stands) =
              rw e at (client.messages.find_first_lem (message_has_id id) d.messages) in
            (
              m,
              stands,
              ground (arith),
              ground (arith),
              ground (arith),
              ground (arith),
              λ q. ground (arith, (eq_iff (trim content) "").1 q),
              ground (arith),
            )
      ]

  -- The sender of the message, or a member of its conversation who is more than a plain member.
  abbrev pub MayDelete : ℕ → Db C M P N R K → Message → Type 0
  MayDelete user d m =
      (m.sender_id ≡ user)
      ⊎ ((s : Member) × In s (client.members.rows d.members)
          × (s.conversation_id ≡ m.conversation_id)
          × (s.user_id ≡ user)
          × (is_member_role s.role ≡ false))

  -- What a deletion writes: the time of the message's deletion, and what becomes of its file.
  abbrev pub Marks : ℕ → ℕ → Db C M P N R K → Db C M P N R K → Type 0
  Marks id now d d' =
      (client.messages.rows d'.messages
        ≡ map (λ (x : Message). if x.id == id then record x { deleted_at = some now } else x)
            (client.messages.rows d.messages))
      × (d' ≡ record d { messages = d'.messages; deleted_files = d'.deleted_files })

  drop_file-Marks :
      (file : Option String) (id now : ℕ) (d : Db C M P N R K)
      → Marks id now d (
          drop_file client file id
            (update_messages client (message_has_id id) (deleted_at_time now) d))
  unfolding drop_file
  drop_file-Marks none id now d =
      (client.messages.rows-update_where (message_has_id id) (deleted_at_time now) d.messages, refl)
  drop_file-Marks (some url) id now d =
      let d' = update_messages client (message_has_id id) (deleted_at_time now) d in
      let rows =
        client.messages.rows-update_where (message_has_id id) (deleted_at_time now) d.messages in
      elim (Bool-cases
        (not (url == "") && client.messages.count_where (refers_to url id) d'.messages == 0)) [
          | inl gone ↦ rw gone (rows, refl)
          | inr kept ↦ rw kept (rows, refl)
        ]

  may_delete :
      (user : ℕ) (d : Db C M P N R K) (m : Message)
      → (not (m.sender_id == user)
          && is_no_admin (client.members.find_first (is_seat m.conversation_id user) d.members))
        ≡ false
      → MayDelete user d m
  may_delete user d m h = elim (Bool-cases (m.sender_id == user)) [
    | inl own ↦ inl ((nat_beq_iff m.sender_id user).0 own)
    | inr other ↦
        elim (Option-cases (client.members.find_first (is_seat m.conversation_id user) d.members)) [
          | inl f ↦ absurd (ground (arith, h, other, f))
          | inr (s, f) ↦
              let (seat, there) =
                rw f at
                  (client.members.find_first_lem (is_seat m.conversation_id user) d.members) in
              inr
                (s, there, ground (arith, seat), ground (arith, seat), ground (arith, h, other, f))
        ]
  ]

  -- A deletion either throws and changes nothing, or it is of a message that is there, by its sender or
  -- by a member of its conversation who is more than a plain member. Then it changes nothing where the
  -- message was deleted before; otherwise it writes the time of the deletion to that message, and
  -- besides the files given to the upload service nothing else.
  pub delete_message_sound :
      (id user now : ℕ) (d : Db C M P N R K)
      → (((delete_message client id user now d).0 ≢ ok tt)
          × ((delete_message client id user now d).1 ≡ d))
        ⊎ (((delete_message client id user now d).0 ≡ ok tt)
            × ((m : Message) × In m (client.messages.rows d.messages)
                × (m.id ≡ id)
                × MayDelete user d m
                × (((is_some m.deleted_at ≡ true) × ((delete_message client id user now d).1 ≡ d))
                    ⊎ ((m.deleted_at ≡ none)
                        × Marks id now d (delete_message client id user now d).1))))
  unfolding delete_message
  delete_message_sound id user now d =
      elim (Option-cases (client.messages.find_first (message_has_id id) d.messages)) [
        | inl e ↦ inl (λ q. ground (arith, e, q), ground (arith, e))
        | inr (m, e) ↦
            let (hit, stands) =
              rw e at (client.messages.find_first_lem (message_has_id id) d.messages) in
            elim (Bool-cases (
              not (m.sender_id == user)
              && is_no_admin
                  (client.members.find_first (is_seat m.conversation_id user) d.members))) [
                    | inl t ↦ inl (λ q. ground (arith, e, t, q), ground (arith, e, t))
                    | inr t ↦
                        let own = may_delete user d m t in
                        let same = (nat_beq_iff m.id id).0 hit in
                        elim (Option-cases m.deleted_at) [
                          | inr (at, n) ↦ inr (
                            ground (arith, e, t, n),
                            (
                              m,
                              stands,
                              same,
                              own,
                              inl (ground (arith, n), ground (arith, e, t, n)),
                            ),
                          )
                          | inl n ↦ inr (
                            ground (arith, e, t, n),
                            (
                              m,
                              stands,
                              same,
                              own,
                              inr (
                                n,
                                rw (e, ◌>>=◌) (rw (e, t, n) (drop_file-Marks m.file_url id now d)),
                              ),
                            ),
                          )
                        ]
                  ]
      ]

  drop_file-holders :
      (file : Option String) (url : String) (id now : ℕ) (d : Db C M P N R K)
      → In url
          (drop_file client file id
            (update_messages client (message_has_id id) (deleted_at_time now) d)).deleted_files
      → In url d.deleted_files
        ⊎ (count (holds_file url) (
              client.messages.rows
                (drop_file client file id
                  (update_messages client (message_has_id id) (deleted_at_time now) d)).messages)
            ≡ 0)
  unfolding drop_file
  drop_file-holders none url id now d h = inl h
  drop_file-holders (some file) url id now d h =
      let d' = update_messages client (message_has_id id) (deleted_at_time now) d in
      let n = client.messages.count_where_lem (refers_to file id) d'.messages in
      let rows =
        client.messages.rows-update_where (message_has_id id) (deleted_at_time now) d.messages in
      let held : count (holds_file file) (client.messages.rows d'.messages)
          ≤ count (refers_to file id) (client.messages.rows d'.messages) =
        rw rows (count_holders file id now (client.messages.rows d.messages)) in
      elim (Bool-cases
        (not (file == "") && client.messages.count_where (refers_to file id) d'.messages == 0)) [
          | inr kept ↦ inl (ground (arith, kept))
          | inl gone ↦
              let zero : count (holds_file file) (client.messages.rows d'.messages) ≡ 0 =
                ground (arith, gone, n, held) in
              let h' : In url (file ∷ d.deleted_files) = ground (arith, gone, h) in
              elim h' [
                | inr k ↦ inl k
                | inl q ↦ inr (
                    rw gone (
                      subst (λ f. count (holds_file f) (client.messages.rows d'.messages) ≡ 0)
                        (sym q) zero))
              ]
        ]

  -- Deleting a message gives a file to the upload service only when no message that is not deleted
  -- has the file any more.
  pub delete_message-holds_file :
      (id user now : ℕ) (url : String) (d : Db C M P N R K)
      → In url (delete_message client id user now d).1.deleted_files
      → In url d.deleted_files
        ⊎ (count
              (holds_file url)
              (client.messages.rows (delete_message client id user now d).1.messages)
            ≡ 0)
  unfolding delete_message
  delete_message-holds_file id user now url d h =
      elim (Option-cases (client.messages.find_first (message_has_id id) d.messages)) [
        | inl e ↦ ground (arith, h, e)
        | inr (m, e) ↦ let f = drop_file-holders m.file_url url id now d in ground (arith, h, e, f)
      ]

  own_text :
      (text : Option String) (old : String)
      → or_content client text old ≡ elim text [ none ↦ old | some t ↦ t ]
  own_text none old = refl
  own_text (some t) old = refl

  -- A forward asks for nothing but a seat in the target conversation, which exists: whatever message
  -- the id names, deleted or in a conversation that the user is not in, its file is copied there, and
  -- its content unless the forward brings a text of its own.
  pub forward_message-copies :
      (user id target now : ℕ) (text : Option String) (s : Member) (m : Message)
      (d : Db C M P N R K)
      → client.members.find_first (is_seat target user) d.members ≡ some s
      → client.messages.find_first (message_has_id id) d.messages ≡ some m
      → is_some (client.conversations.find_first (conversation_has_id target) d.conversations)
        ≡ true
      → (copy : Message) × ((forward_message client user id target text now d).0 ≡ ok copy)
        × (client.messages.rows (forward_message client user id target text now d).1.messages
            ≡ client.messages.rows d.messages ++ copy ∷ [])
        × (copy.content ≡ elim text [ none ↦ m.content | some t ↦ t ])
        × ((copy.file_url ≡ m.file_url)
            × (copy.file_name ≡ m.file_name)
            × (copy.file_type ≡ m.file_type)
            × (copy.file_size ≡ m.file_size))
        × ((copy.sender_id ≡ user) × (copy.conversation_id ≡ target) × (copy.deleted_at ≡ none))
        × ((copy.forwarded_from_id ≡ some m.id) × (copy.forwarded_from_user_id ≡ some m.sender_id))
  unfolding forward_message assert_member
  forward_message-copies user id target now text s m d e f g =
      let new = forwarded user target (or_content client text m.content) m now in
      (
        new (client.messages.next_id d.messages),
        ground (arith, e, f, g),
        ground (arith, e, f, g, client.messages.rows-create new d.messages),
        own_text text m.content,
        (refl, refl, refl, refl),
        (refl, refl, refl),
        (refl, refl),
      )
