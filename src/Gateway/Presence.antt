-- ===== src/Gateway/Presence.antt =====
-- Who is announced as online: exactly those with a socket that is open.
use messenger_web_app.Prelude.{
  ℕ, ◌≡◌, refl, sym, ap, ◌∙◌, inl, inr, Bool, true, false, not, ◌&&◌, ◌||◌, Option, none, some,
  String, List, [], ◌∷◌, ◌++◌, ◌==◌, nat_eq, string_eq, any, if◌then◌else◌, is_some, lookup,
  lookup-insert, lookup-erase, arith, subst, Bool-cases, Option-cases,
}
use text.Mathlib.TextEquality.{eq_iff}
use messenger_web_app.Prelude.Rows.{any-append}
use messenger_web_app.Gateway.{
  Active, Status, set_add, set_delete, or_empty_set, is_singleton, is_empty, connect, disconnect,
}

pub data Event : Type 0 where
  opens closes : ℕ → String → Event

unfoldable pub step : Event → Active → List Status × Active
step (opens user socket) a = connect user socket a
step (closes user socket) a = disconnect user socket a

-- What a history, the latest event first, has announced, the latest first, and who is active then.
unfoldable pub after : List Event → List Status × Active
unfolding step
after [] = ([], [])
after (e ∷ es) = let (log, a) = after es in let (outs, a') = step e a in (outs ++ log, a')

-- The latest announcement of a user; nobody is online before the first.
abbrev pub is_online : ℕ → List Status → Bool
is_online user [] = false
is_online user ((u, online) ∷ log) = if u == user then online else is_online user log

-- The specification: the latest event of the socket has opened it.
abbrev pub is_open : ℕ → String → List Event → Bool
is_open user socket [] = false
is_open user socket (opens u k ∷ es) = (u == user && k == socket) || is_open user socket es
is_open user socket (closes u k ∷ es) = not (u == user && k == socket) && is_open user socket es

abbrev pub has_socket : String → List String → Bool
has_socket socket xs = any (λ x. x == socket) xs

any-set_add :
    (j k : String) (xs : List String) → has_socket k (set_add j xs) ≡ (j == k || has_socket k xs)
any-set_add j k xs = elim (Bool-cases (has_socket j xs)) [
  | inr new ↦ rw new (any-append (λ x. x == k) xs (j ∷ []) ∙ ground arith)
  | inl old ↦ elim (Bool-cases (j == k)) [
    | inr other ↦ ground (arith, old, other)
    | inl same ↦
        let q : j ≡ k = (eq_iff j k).0 same in
        let there : has_socket k xs ≡ true = subst (λ k. has_socket k xs ≡ true) q old in
        ground (arith, old, same, there)
  ]
]

any-set_delete :
    (j k : String) (xs : List String)
    → has_socket k (set_delete j xs) ≡ (not (j == k) && has_socket k xs)
any-set_delete j k [] = ground arith
any-set_delete j k (x ∷ xs) =
    ground (arith, any-set_delete j k xs, eq_iff j k, eq_iff x j, eq_iff x k)

set_add_filled : (j : String) (xs : List String) → is_empty (set_add j xs) ≡ false
set_add_filled j [] = refl
set_add_filled j (x ∷ xs) = ground arith

-- A set with one element more that has not one element was not empty.
filled_before :
    (j : String) (xs : List String) → is_singleton (set_add j xs) ≡ false → is_empty xs ≡ false
filled_before j [] e = ground (arith, e)
filled_before j (x ∷ xs) e = refl

none_of_empty : (k : String) (xs : List String) → is_empty xs ≡ true → has_socket k xs ≡ false
none_of_empty k [] e = refl
none_of_empty k (x ∷ xs) e = ground (arith, e)

a_socket : (xs : List String) → is_empty xs ≡ false → (k : String) × (has_socket k xs ≡ true)
a_socket [] e = ground (arith, e)
a_socket (x ∷ xs) e = (x, ground (arith, (eq_iff x x).1 refl))

some_of_filled : (o : Option (List String)) → is_empty (or_empty_set o) ≡ false → is_some o ≡ true
some_of_filled none e = ground (arith, e)
some_of_filled (some xs) e = refl

-- What a history leaves behind: the sets of sockets are those that are open, none is empty, and a
-- user is announced as online exactly where there is a set.
pub record IsTrue (es : List Event) (r : List Status × Active) : Type 0 where
  pub sockets :
      (user : ℕ) (socket : String)
      → has_socket socket (or_empty_set (lookup user r.1)) ≡ is_open user socket es
  pub filled : (user : ℕ) (xs : List String) → lookup user r.1 ≡ some xs → is_empty xs ≡ false
  pub told : (user : ℕ) → is_online user r.0 ≡ is_some (lookup user r.1)

connect-IsTrue :
    (user : ℕ) (socket : String) (es : List Event) (log : List Status) (a : Active)
    → IsTrue es (log, a)
    → IsTrue (opens user socket ∷ es) ((connect user socket a).0 ++ log, (connect user socket a).1)
unfolding connect
connect-IsTrue user socket es log a t =
    let xs = or_empty_set (lookup user a) in
    let new = set_add socket xs in
    record {
      sockets = λ u k.
          let l = lookup-insert user u new a in
          let s = any-set_add socket k xs in
          elim (Bool-cases (user == u)) [
            | inl same ↦
                let q : user ≡ u = ground (arith, same) in
                let r : has_socket k (or_empty_set (lookup user a)) ≡ is_open u k es =
                  subst (λ v. has_socket k (or_empty_set (lookup v a)) ≡ is_open u k es) (sym q)
                    (t.sockets u k) in
                rw (l, same) (s ∙ ap (λ b. (socket == k) || b) r)
            | inr other ↦ rw (l, other) (t.sockets u k)
          ];
      filled = λ u ys e.
          let l = lookup-insert user u new a in
          let f = set_add_filled socket xs in
          elim (Bool-cases (user == u)) [
            | inl same ↦
                let e' : some new ≡ some ys = rw (l, same) at e in
                let q : new ≡ ys = cc in subst (λ ys. is_empty ys ≡ false) q f
            | inr other ↦ t.filled u ys (rw (l, other) at e)
          ];
      told = λ u.
          let l = lookup-insert user u new a in
          elim (Bool-cases (user == u)) [
            | inr other ↦ rw (l, other) (ground (arith, other, t.told u))
            | inl same ↦ elim (Bool-cases (is_singleton new)) [
              | inl one ↦ rw (l, same, one) (ground (arith, same))
              | inr more ↦
                  let q : user ≡ u = ground (arith, same) in
                  let there : is_some (lookup user a) ≡ true =
                    some_of_filled _ (filled_before socket xs more) in
                  let o : is_online u log ≡ true =
                    subst (λ u. is_online u log ≡ true) q (t.told user ∙ there) in
                  rw (l, same, more) o
            ]
          ];
    }

disconnect-IsTrue :
    (user : ℕ) (socket : String) (es : List Event) (log : List Status) (a : Active)
    → IsTrue es (log, a)
    → IsTrue
        (closes user socket ∷ es)
        ((disconnect user socket a).0 ++ log, (disconnect user socket a).1)
unfolding disconnect
disconnect-IsTrue user socket es log a t = elim (Option-cases (lookup user a)) [
  | inl e ↦
      rw (e, disconnect)
        (record {
          sockets = λ u k. elim (Bool-cases (user == u)) [
            | inr other ↦ ground (arith, other, t.sockets u k)
            | inl same ↦
                let q : user ≡ u = ground (arith, same) in
                let n : lookup u a ≡ none = subst (λ u. lookup u a ≡ none) q e in
                ground (arith, same, n, t.sockets u k)
          ];
          filled = t.filled;
          told = t.told;
        })
  | inr (xs, e) ↦
      let left = set_delete socket xs in
      let mine : (k : String) → has_socket k xs ≡ is_open user k es =
        λ k. rw e at (t.sockets user k) in
      elim (Bool-cases (is_empty left)) [
        | inl gone ↦
            rw (e, disconnect, gone)
              (record {
                sockets = λ u k. elim (Bool-cases (user == u)) [
                  | inr other ↦ ground (arith, other, t.sockets u k, lookup-erase user u a)
                  | inl same ↦
                      let q : user ≡ u = ground (arith, same) in
                      let r : has_socket k xs ≡ is_open u k es =
                        subst (λ u. has_socket k xs ≡ is_open u k es) q (mine k) in
                      ground (
                        arith,
                        same,
                        r,
                        lookup-erase user u a,
                        any-set_delete socket k xs,
                        none_of_empty k left gone,
                      )
                ];
                filled = λ u ys f. t.filled u ys (ground (arith, lookup-erase user u a, f));
                told = λ u. ground (arith, t.told u, lookup-erase user u a);
              })
        | inr kept ↦
            rw (e, disconnect, kept)
              (record {
                sockets = λ u k. elim (Bool-cases (user == u)) [
                  | inr other ↦ ground (arith, other, t.sockets u k, lookup-insert user u left a)
                  | inl same ↦
                      let q : user ≡ u = ground (arith, same) in
                      let r : has_socket k xs ≡ is_open u k es =
                        subst (λ u. has_socket k xs ≡ is_open u k es) q (mine k) in
                      let l = lookup-insert user u left a in
                      rw (l, same) (any-set_delete socket k xs ∙ ap (λ b. not (socket == k) && b) r)
                ];
                filled = λ u ys f.
                    let l = lookup-insert user u left a in
                    elim (Bool-cases (user == u)) [
                      | inr other ↦ t.filled u ys (rw (l, other) at f)
                      | inl same ↦
                          let f' : some left ≡ some ys = rw (l, same) at f in
                          let q : left ≡ ys = cc in subst (λ ys. is_empty ys ≡ false) q kept
                    ];
                told = λ u. elim (Bool-cases (user == u)) [
                  | inr other ↦ ground (arith, other, t.told u, lookup-insert user u left a)
                  | inl same ↦
                      let q : user ≡ u = ground (arith, same) in
                      let n : lookup u a ≡ some xs = subst (λ u. lookup u a ≡ some xs) q e in
                      ground (arith, same, n, t.told u, lookup-insert user u left a)
                ];
              })
      ]
]

after-IsTrue : (es : List Event) → IsTrue es (after es)
unfolding after step
after-IsTrue [] = record {
  sockets = λ u k. refl;
  filled = λ u xs e. ground (arith, e);
  told = λ u. refl;
}
after-IsTrue (opens user socket ∷ es) = connect-IsTrue user socket es _ _ (after-IsTrue es)
after-IsTrue (closes user socket ∷ es) = disconnect-IsTrue user socket es _ _ (after-IsTrue es)

-- After any history of connections and disconnections, the latest announcement of a user is that of
-- being online exactly where some socket of the user is open.
pub after-is_online :
    (user : ℕ) (es : List Event)
    → ((socket : String) → is_open user socket es ≡ true → is_online user (after es).0 ≡ true)
      × (is_online user (after es).0 ≡ true → (socket : String) × (is_open user socket es ≡ true))
after-is_online user es =
    let t = after-IsTrue es in
    elim (Option-cases (lookup user (after es).1)) [
      | inl e ↦ (
        λ socket h. ground (arith, e, h, t.sockets user socket),
        λ h. ground (arith, e, h, t.told user),
      )
      | inr (xs, e) ↦
          let (k, there) = a_socket xs (t.filled user xs e) in
          (
            λ socket h. ground (arith, e, t.told user),
            λ h. (k, ground (arith, e, there, t.sockets user k)),
          )
    ]
