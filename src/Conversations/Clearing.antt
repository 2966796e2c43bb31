-- ===== src/Conversations/Clearing.antt =====
-- conversations.service.ts: what a member reads of a conversation after clearing it.
use messenger_web_app.Prelude.{
  ℕ, zero, suc, ◌≡◌, ◌<◌, refl, sym, ap, ◌∙◌, any, not, nat_eq, ◌==◌, Bool-cases, Bool, ◌&&◌, none,
  some, String, List, [], ◌∷◌, map, arith, ltb, leb, In, All, All-In, Result, ok, err, ◌>>=◌,
  Option-cases, inl, inr, filter, is_some, if◌then◌else◌,
}
use mathlib.Core.List.{reverse}
use messenger_web_app.Prelude.Texts.{take, drop}
use messenger_web_app.Prelude.Store.{Finds, rewrite}
use messenger_web_app.Prelude.Rows.{In-filter, In-map, Finds-any, All-of_In}
use messenger_web_app.Conversations.{Member, Message, Db, Client, is_seat, assert_member}
use messenger_web_app.Conversations.Pins.{clear_for_self}
use messenger_web_app.Conversations.Reading.{
  ReadMessage, LastRead, is_shown, map_message_with_read, get_messages_after, get_older_messages,
  has_message_id,
}

-- The messages of an answer; none where the call throws.
unfoldable pub shown : Result (List ReadMessage) → List Message
shown (ok rs) = map (λ r. r.message) rs
shown (err e) = []

map-read :
    (user : ℕ) (others : LastRead) (ms : List Message)
    → map (λ r. r.message) (map (map_message_with_read user others) ms) ≡ ms
unfolding map_message_with_read
map-read user others [] = refl
map-read user others (m ∷ ms) = ap (λ (t : List Message). m ∷ t) (map-read user others ms)

All-take : (P : Message → Type 0) (n : ℕ) (ms : List Message) → All P ms → All P (take n ms)
All-take P zero ms a = tt
All-take P (suc n) [] a = tt
All-take P (suc n) (m ∷ ms) (p, a) = (p, All-take P n ms a)

any-cleared :
    (user conversation time : ℕ) (ms : List Member)
    → any
        (is_seat conversation user)
        (map (rewrite (is_seat conversation user) (λ x. record x { cleared_at = some time })) ms)
      ≡ any (is_seat conversation user) ms
any-cleared user conversation time [] = refl
any-cleared user conversation time (m ∷ ms) = elim (Bool-cases (is_seat conversation user m)) [
  | inl t ↦ rw t (rw t refl)
  | inr t ↦ rw t (rw t (any-cleared user conversation time ms))
]

module _ {C M P N R K : Type 0} (client : Client C M P N R K) (nickname : ℕ → String) where
  -- The seat that is found after the history has been cleared was cleared.
  cleared_seat :
      (user conversation time : ℕ) (d : Db C M P N R K) (m : Member)
      → client.members.find_first
          (is_seat conversation user)
          (clear_for_self client user conversation time d).members
        ≡ some m
      → m.cleared_at ≡ some time
  unfolding clear_for_self
  cleared_seat user conversation time d m e =
      let p = is_seat conversation user in
      let f : Member → Member = λ x. record x { cleared_at = some time } in
      let s' = (clear_for_self client user conversation time d).members in
      let found : Finds p (client.members.rows s') (client.members.find_first p s') =
        client.members.find_first_lem p s' in
      let (hit, i) = rw e at found in
      let i' : In m (map (rewrite p f) (client.members.rows d.members)) =
        rw (client.members.rows-update_where p f d.members) at i in
      let (y, _, same) = In-map (rewrite p f) m (client.members.rows d.members) i' in
      elim (Bool-cases (p y)) [
        | inl t ↦ ground (arith, t, same)
        | inr t ↦ absurd (ground (arith, t, same, hit))
      ]

  -- Clearing takes nobody's seat.
  seat_kept :
      (user conversation time : ℕ) (d : Db C M P N R K)
      → is_some (
          client.members.find_first
            (is_seat conversation user)
            (clear_for_self client user conversation time d).members)
        ≡ is_some (client.members.find_first (is_seat conversation user) d.members)
  unfolding clear_for_self
  seat_kept user conversation time d =
      let p = is_seat conversation user in
      let f : Member → Member = λ x. record x { cleared_at = some time } in
      let s' = client.members.update_where p f d.members in
      Finds-any p (client.members.rows s') (client.members.find_first p s')
        (client.members.find_first_lem p s')
      ∙ ap (any p) (client.members.rows-update_where p f d.members)
      ∙ any-cleared user conversation time (client.members.rows d.members)
      ∙ sym (
          Finds-any p (client.members.rows d.members) (client.members.find_first p d.members)
            (client.members.find_first_lem p d.members))

  others_of : ℕ → ℕ → Db C M P N R K → LastRead
  others_of user conversation d =
      map (λ m. (m.user_id, m.last_read_at, nickname m.user_id))
        (client.members.find_sorted (λ m. m.id)
          (λ m. m.conversation_id == conversation && not (m.user_id == user)) d.members)

  -- What a page holds, seen from the row of the member.
  after_page :
      (user conversation after now : ℕ) (d : Db C M P N R K) (m : Member)
      → client.members.find_first (is_seat conversation user) d.members ≡ some m
      → shown (get_messages_after client nickname user conversation after now d).0
        ≡ take 30 (
            client.messages.find_sorted
              (λ x. x.id)
              (λ x. is_shown user conversation m.cleared_at now x && ltb after x.id)
              d.messages)
  unfolding shown get_messages_after assert_member others_of
  after_page user conversation after now d m e =
      rw (e, ◌>>=◌) (rw e (simp e (map-read user (others_of user conversation d) _)))

  after_page_none :
      (user conversation after now : ℕ) (d : Db C M P N R K)
      → client.members.find_first (is_seat conversation user) d.members ≡ none
      → shown (get_messages_after client nickname user conversation after now d).0 ≡ []
  unfolding shown get_messages_after assert_member
  after_page_none user conversation after now d e = rw (e, ◌>>=◌) refl

  abbrev older_page : ℕ → ℕ → ℕ → ℕ → Db C M P N R K → List Message
  older_page user conversation cursor now d =
      if is_some (client.messages.find_first (has_message_id cursor) d.messages)
      then reverse (
          take 30 (
            drop 1 (
              reverse (
                client.messages.find_sorted (λ x. x.id)
                  (λ x. is_shown user conversation none now x && leb x.id cursor) d.messages))))
      else []

  -- The page before a cursor depends on the member's seat only, not on what the row holds.
  older_lem :
      (user conversation cursor now : ℕ) (d : Db C M P N R K)
      → shown (get_older_messages client nickname user conversation cursor now d).0 ≡ (
          if is_some (client.members.find_first (is_seat conversation user) d.members)
          then older_page user conversation cursor now d
          else [])
  unfolding shown get_older_messages assert_member others_of
  older_lem user conversation cursor now d =
      elim (Option-cases (client.members.find_first (is_seat conversation user) d.members)) [
        | inl e ↦ rw (e, ◌>>=◌) refl
        | inr (m, e) ↦
            rw (e, ◌>>=◌)
              (elim (Bool-cases
                (is_some (client.messages.find_first (has_message_id cursor) d.messages))) [
                  | inl t ↦ rw (e, t) (map-read user (others_of user conversation d) _)
                  | inr t ↦ rw (e, t) refl
                ])
      ]

  sorted_after :
      (user conversation time after now : ℕ) (n : N)
      → All
          (λ x. time < x.created_at)
          (client.messages.find_sorted
            (λ x. x.id)
            (λ x. is_shown user conversation (some time) now x && ltb after x.id)
            n)
  sorted_after user conversation time after now n =
      let p : Message → Bool =
        λ x. is_shown user conversation (some time) now x && ltb after x.id in
      let sorts = client.messages.find_sorted_lem (λ x. x.id) p n in
      All-of_In (λ x. time < x.created_at) (client.messages.find_sorted (λ x. x.id) p n)
        λ x i.
          let j = All-In (λ y. In y (filter p (client.messages.rows n))) x _ sorts.no_others i in
          let (_, h) = In-filter p x (client.messages.rows n) j in ground arith

  -- After a member has cleared the history for itself, the pages after an id hold only messages that
  -- were written later, while the pages before a cursor hold the same messages as before the clearing.
  pub clear_for_self_pages :
      (user conversation time after cursor now : ℕ) (d : Db C M P N R K)
      → All
          (λ x. time < x.created_at)
          (shown
            (get_messages_after client nickname user conversation after now
              (clear_for_self client user conversation time d)).0)
        × (shown
              (get_older_messages client nickname user conversation cursor now
                (clear_for_self client user conversation time d)).0
            ≡ shown (get_older_messages client nickname user conversation cursor now d).0)
  unfolding clear_for_self
  clear_for_self_pages user conversation time after cursor now d =
      let d' = clear_for_self client user conversation time d in
      (
        elim (Option-cases (client.members.find_first (is_seat conversation user) d'.members)) [
          | inl e ↦ rw (after_page_none user conversation after now d' e) tt
          | inr (m, e) ↦
              rw
                (
                  after_page user conversation after now d' m e,
                  cleared_seat user conversation time d m e,
                )
                (All-take (λ x. time < x.created_at) 30 _
                  (sorted_after user conversation time after now d'.messages))
        ],
        older_lem user conversation cursor now d'
            ∙ rw (seat_kept user conversation time d) refl
            ∙ sym (older_lem user conversation cursor now d),
      )
