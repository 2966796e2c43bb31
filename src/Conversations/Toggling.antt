-- ===== src/Conversations/Toggling.antt =====
-- A reaction is there or it is not: what `toggleReaction` does to it.
use messenger_web_app.Prelude.{
  ℕ, ◌-◌, ◌≤◌, ◌≡◌, refl, inl, inr, true, String, List, [], ◌∷◌, nat_eq, string_eq, count,
  count-append, arith, Option-cases, ok,
}
use text.Mathlib.TextEquality.{eq_iff}
use messenger_web_app.Prelude.Rows.{count_none, count-filter_lt}
use messenger_web_app.Conversations.{Reaction, Db, Client, assert_member}
use messenger_web_app.Conversations.Reactions.{
  is_reaction, reaction_has_id, new_reaction, flip, toggle_reaction, Group,
}

module _ {C M P N R K U : Type 0} (client : Client C M P N R K) (profile : ℕ → U) where
  -- How often a user has reacted to a message with an emoji.
  abbrev pub times : ℕ → ℕ → String → Db C M P N R K → ℕ
  times user message emoji d =
      count (is_reaction user message emoji) (client.reactions.rows d.reactions)

  flip-times :
      (user message : ℕ) (emoji : String) (d : Db C M P N R K)
      → times user message emoji d ≤ 1
      → times user message emoji (
          flip client profile
            (client.reactions.find_first (is_reaction user message emoji) d.reactions)
            user
            message
            emoji
            d)
        ≡ 1 - times user message emoji d
  unfolding flip
  flip-times user message emoji d one =
      let p = is_reaction user message emoji in
      let rows = client.reactions.rows d.reactions in
      elim (Option-cases (client.reactions.find_first p d.reactions)) [
        | inl e ↦
            let absent =
              count_none p rows (rw e at (client.reactions.find_first_lem p d.reactions)) in
            let new = new_reaction user message emoji in
            let row = new (client.reactions.next_id d.reactions) in
            let own : p row ≡ true = ground (arith, (eq_iff emoji emoji).1 refl) in
            let added = client.reactions.rows-create new d.reactions in
            let sum = count-append p rows (row ∷ []) in
            rw (e, flip, added) (ground (arith, absent, own, sum))
        | inr (r, e) ↦
            let (hit, stands) = rw e at (client.reactions.find_first_lem p d.reactions) in
            let fewer = count-filter_lt (λ (r : Reaction). r.id) p r rows stands hit in
            let removed = client.reactions.rows-delete_where (reaction_has_id r.id) d.reactions in
            rw (e, flip, removed) (omega (arith, fewer, one))
      ]

  -- Where a user has reacted with an emoji at most once, a toggle that succeeds takes the reaction
  -- away when it is there, and puts one when it is not.
  pub toggle_reaction-times :
      (message user : ℕ) (emoji : String) (d : Db C M P N R K) (r : List (Group U) × ℕ)
      → times user message emoji d ≤ 1
      → (toggle_reaction client profile message user emoji d).0 ≡ ok r
      → times user message emoji (toggle_reaction client profile message user emoji d).1
        ≡ 1 - times user message emoji d
  unfolding toggle_reaction assert_member
  toggle_reaction-times message user emoji d r one h =
      let f = flip-times user message emoji d one in ground (arith, h, f)
