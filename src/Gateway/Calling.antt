-- ===== src/Gateway/Calling.antt =====
-- What becomes of the calls of a user whose socket disconnects, and who can end a call.
use messenger_web_app.Prelude.{
  ℕ, ◌≡◌, refl, sym, ap, ◌∙◌, inl, inr, Bool, true, false, ◌&&◌, none, some, String, [], ◌∷◌, ◌==◌,
  nat_eq, string_eq, any, if◌then◌else◌, lookup, erase, lookup-erase, arith, subst, Bool-cases, In,
  Distinct,
}
use text.Mathlib.TextEquality.{eq_iff}
use messenger_web_app.Gateway.{
  CallTable, ActiveCall, Out, to_user, call_ended, has_part, hang_up, end_call,
}

-- Some entry of the calls with the id has the user in it.
abbrev is_ended : ℕ → String → CallTable → Bool
is_ended user id m = any (λ x. x.0 == id && has_part user x.1) m

lookup-hang_up :
    (user : ℕ) (id : String) (m calls : CallTable)
    → lookup id (hang_up user m calls).1 ≡ (if is_ended user id m then none else lookup id calls)
unfolding hang_up
lookup-hang_up user id [] calls = refl
lookup-hang_up user id ((j, call) ∷ m) calls =
    let i = lookup-hang_up user id m (if has_part user call then erase j calls else calls) in
    ground (arith, i, lookup-erase j id calls)

is_ended-lookup :
    (user : ℕ) (id : String) (m : CallTable)
    → Distinct m
    → is_ended user id m ≡ (elim (lookup id m) [ none ↦ false | some call ↦ has_part user call ])
is_ended-lookup user id [] d = refl
is_ended-lookup user id ((j, call) ∷ m) (n, d) =
    let i = is_ended-lookup user id m d in
    elim (Bool-cases (j == id)) [
      | inr other ↦ ground (arith, other, i)
      | inl same ↦
          let q : j ≡ id = (eq_iff j id).0 same in
          let n' : lookup id m ≡ none = subst (λ j. lookup j m ≡ none) q n in
          ground (arith, same, i, n')
    ]

-- What the other participant is told.
abbrev pub told : ℕ → ActiveCall → String → Out
told user call id =
    to_user (if call.caller_id == user then call.callee_id else call.caller_id) (call_ended id)

hang_up-In :
    (user : ℕ) (id : String) (call : ActiveCall) (m calls : CallTable)
    → lookup id m ≡ some call
    → has_part user call ≡ true
    → In (told user call id) (hang_up user m calls).0
unfolding hang_up
hang_up-In user id call [] calls e p = ground (arith, e)
hang_up-In user id call ((j, other) ∷ m) calls e p =
    let i = hang_up-In user id call m (if has_part user other then erase j calls else calls) in
    elim (Bool-cases (j == id)) [
      | inr different ↦
          let k = i (ground (arith, e, different)) p in
          elim (Bool-cases (has_part user other)) [
            | inl h ↦ rw h (inr (rw h at k))
            | inr h ↦ rw h (rw h at k)
          ]
      | inl same ↦
          let q : j ≡ id = (eq_iff j id).0 same in
          let z : some other ≡ some call = ground (arith, e, same) in
          let z' : call ≡ other = cc in
          let h : has_part user other ≡ true = subst (λ c. has_part user c ≡ true) z' p in
          rw h (inl (ap (λ c. told user c id) z' ∙ ap (told user other) (sym q)))
    ]

-- Where ids are distinct, a disconnection ends a call exactly when the user takes part in it, and then
-- tells the other participant.
pub hang_up-has_part :
    (user : ℕ) (calls : CallTable) (id : String) (call : ActiveCall)
    → Distinct calls
    → lookup id calls ≡ some call
    → (lookup id (hang_up user calls calls).1 ≡ (if has_part user call then none else some call))
      × (has_part user call ≡ true → In (told user call id) (hang_up user calls calls).0)
hang_up-has_part user calls id call d e =
    let i = is_ended-lookup user id calls d in
    let l = lookup-hang_up user id calls calls in
    (ground (arith, e, i, l), hang_up-In user id call calls calls e)

-- A user who takes no part in a call and names its id ends it: the call is gone, and only the caller
-- is told.
pub end_call-has_part :
    (user : ℕ) (calls : CallTable) (id : String) (call : ActiveCall)
    → lookup id calls ≡ some call
    → has_part user call ≡ false
    → ((end_call user id calls).0 ≡ to_user call.caller_id (call_ended id) ∷ [])
      × (lookup id (end_call user id calls).1 ≡ none)
unfolding end_call
end_call-has_part user calls id call e p =
    (ground (arith, e, p), ground (arith, e, lookup-erase id id calls, (eq_iff id id).1 refl))
