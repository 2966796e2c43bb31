-- ===== src/Conversations/Grouping.antt =====
-- What `groupReactions` gives: for each emoji one group, with the users in the order of the reactions.
use messenger_web_app.Prelude.{
  suc, ◌≡◌, refl, ap, ◌∙◌, inl, inr, Bool, Option, none, some, String, List, [], ◌∷◌, ◌++◌, map,
  ◌==◌, string_eq, if◌then◌else◌, length, filter, Map, lookup, insert, lookup-insert, Distinct,
  insert-Distinct, Bool-cases,
}
use mathlib.Core.Option
use text.Mathlib.TextEquality.{eq_iff}
use messenger_web_app.Conversations.Reactions.{
  Shown, Slot, Group, or_new, pushed, collect, as_group, group_reactions,
}

append_one : {A : Type 0} (xs : List A) (x : A) (ys : List A) → (xs ++ x ∷ []) ++ ys ≡ xs ++ x ∷ ys
append_one [] x ys = refl
append_one (z ∷ xs) x ys = ap (◌∷◌ z) (append_one xs x ys)

length-map : {A B : Type 0} (f : A → B) (xs : List A) → length (map f xs) ≡ length xs
length-map f [] = refl
length-map f (x ∷ xs) = ap suc (length-map f xs)

module _ {U : Type 0} where
  -- The group of an emoji.
  abbrev pub find_group : String → List (Group U) → Option (Group U)
  find_group emoji [] = none
  find_group emoji (g ∷ gs) = if g.emoji == emoji then some g else find_group emoji gs

  abbrev pub IsSingle : List (Group U) → Type 0
  IsSingle [] = Unit {0}
  IsSingle (g ∷ gs) = (find_group g.emoji gs ≡ none) × IsSingle gs

  abbrev pub has_emoji : String → Shown U → Bool
  has_emoji emoji r = r.emoji == emoji

  -- The specification: the reactions with the emoji, in their order.
  abbrev pub group_of : String → List (Shown U) → Option (Group U)
  group_of emoji [] = none
  group_of emoji (r ∷ rs) = some (record {
    emoji = emoji;
    count = length (r ∷ rs);
    user_ids = map (λ (r : Shown U). r.user_id) (r ∷ rs);
    users = map (λ (r : Shown U). r.user) (r ∷ rs);
  })

  -- What a slot becomes with more reactions.
  abbrev extend : Slot U → List (Shown U) → Slot U
  extend s rs = record {
    user_ids = s.user_ids ++ map (λ (r : Shown U). r.user_id) rs;
    users = s.users ++ map (λ (r : Shown U). r.user) rs;
  }

  add_all : Option (Slot U) → List (Shown U) → Option (Slot U)
  add_all o [] = o
  add_all o (r ∷ rs) = some (extend (or_new o) (r ∷ rs))

  add_all-pushed :
      (r : Shown U) (s : Slot U) (rs : List (Shown U))
      → add_all (some (pushed r s)) rs ≡ some (extend s (r ∷ rs))
  unfolding add_all
  add_all-pushed r s [] = refl
  add_all-pushed r s (q ∷ rs) =
      rw
        (
          append_one s.user_ids r.user_id (map (λ (r : Shown U). r.user_id) (q ∷ rs)),
          append_one s.users r.user (map (λ (r : Shown U). r.user) (q ∷ rs)),
        )
        refl

  lookup-collect :
      (rs : List (Shown U)) (m : Map String (Slot U)) (emoji : String)
      → lookup emoji (collect rs m) ≡ add_all (lookup emoji m) (filter (has_emoji emoji) rs)
  unfolding collect add_all
  lookup-collect [] m emoji = refl
  lookup-collect (r ∷ rs) m emoji =
      let slot = pushed r (or_new (lookup r.emoji m)) in
      let i = lookup-collect rs (insert r.emoji slot m) emoji in
      let j = lookup-insert r.emoji emoji slot m in
      elim (Bool-cases (r.emoji == emoji)) [
        | inl same ↦
            let q : r.emoji ≡ emoji = (eq_iff r.emoji emoji).0 same in
            let k = rw (j, same) at i in
            rw same (
              k
              ∙ add_all-pushed r (or_new (lookup r.emoji m)) (filter (has_emoji emoji) rs)
              ∙ ap (λ e. some (extend (or_new (lookup e m)) (r ∷ filter (has_emoji emoji) rs))) q)
        | inr other ↦ rw other (rw (j, other) at i)
      ]

  collect-Distinct :
      (rs : List (Shown U)) (m : Map String (Slot U)) → Distinct m → Distinct (collect rs m)
  unfolding collect
  collect-Distinct [] m d = d
  collect-Distinct (r ∷ rs) m d =
      collect-Distinct rs _ (insert-Distinct r.emoji (pushed r (or_new (lookup r.emoji m))) m d)

  find_group-map :
      (emoji : String) (m : Map String (Slot U))
      → find_group emoji (map as_group m) ≡ Option.map (λ s. as_group (emoji, s)) (lookup emoji m)
  find_group-map emoji [] = refl
  find_group-map emoji ((e, s) ∷ m) = elim (Bool-cases (e == emoji)) [
    | inl same ↦
        let q : e ≡ emoji = (eq_iff e emoji).0 same in rw same (ap (λ e. some (as_group (e, s))) q)
    | inr other ↦ rw other (find_group-map emoji m)
  ]

  group_of_added :
      (emoji : String) (rs : List (Shown U))
      → Option.map (λ s. as_group (emoji, s)) (add_all none rs) ≡ group_of emoji rs
  unfolding add_all
  group_of_added emoji [] = refl
  group_of_added emoji (r ∷ rs) = rw (length-map (λ (r : Shown U). r.user_id) rs) refl

  map-IsSingle : (m : Map String (Slot U)) → Distinct m → IsSingle (map as_group m)
  map-IsSingle [] d = tt
  map-IsSingle ((e, s) ∷ m) (n, d) = (rw (find_group-map e m, n) refl, map-IsSingle m d)

  find_group-group_reactions :
      (emoji : String) (rs : List (Shown U))
      → find_group emoji (group_reactions rs) ≡ group_of emoji (filter (has_emoji emoji) rs)
  unfolding group_reactions
  find_group-group_reactions emoji rs =
      find_group-map emoji (collect rs [])
      ∙ ap (Option.map (λ s. as_group (emoji, s))) (lookup-collect rs [] emoji)
      ∙ group_of_added emoji (filter (has_emoji emoji) rs)

  -- No emoji has two groups in the result of `groupReactions`, and for every emoji the group found
  -- in it is that of the reactions with the emoji: their number and their users, in their order, and
  -- none where there is no such reaction.
  pub group_reactions-group_of :
      (rs : List (Shown U))
      → IsSingle (group_reactions rs)
        × ((emoji : String)
            → find_group emoji (group_reactions rs) ≡ group_of emoji (filter (has_emoji emoji) rs))
  unfolding group_reactions
  group_reactions-group_of rs = (
    map-IsSingle (collect rs []) (collect-Distinct rs [] tt),
    λ emoji. find_group-group_reactions emoji rs,
  )
