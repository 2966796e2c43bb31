-- ===== src/Prelude/Store.antt =====
-- The database client as the services use it: a table of rows of type `R`, reached through a state
-- of type `S` of its own. The client is not part of the repository, so it is a parameter: a record
-- of its queries with what its documentation promises of them. `rows` lists the rows by the order
-- in which they were created; a query without `orderBy` may return any row that fits.
pub mod Listed
use messenger_web_app.Prelude.{
  suc, leb, ◌≤◌, ◌<◌, count, length, inl, inr, ◌⊎◌, ℕ, ◌+◌, ◌≡◌, refl, Bool, true, false, not,
  Option, none, some, List, [], ◌∷◌, ◌++◌, map, arith, if◌then◌else◌, filter, All, In,
}

abbrev pub Finds : {R : Type 0} → (R → Bool) → List R → Option R → Type 0
Finds p xs none = All (λ r. p r ≡ false) xs
Finds p xs (some r) = (p r ≡ true) × In r xs

abbrev pub rewrite : {R : Type 0} → (R → Bool) → (R → R) → R → R
rewrite p f r = if p r then f r else r

abbrev pub Ascending : {R : Type 0} → (R → ℕ) → List R → Type 0
Ascending key [] = Unit {0}
Ascending key (x ∷ xs) = All (λ y. key x ≤ key y) xs × Ascending key xs

-- `ys` is `xs`, sorted by the key.
pub record Sorts {R : Type 0} (key : R → ℕ) (xs ys : List R) : Type 0 where
  pub same_length : length ys ≡ length xs
  pub no_others : All (λ y. In y xs) ys
  pub all_there : All (λ x. In x ys) xs
  pub ascending : Ascending key ys

pub record Table (R S : Type 0) : Type 0 where
  pub rows : S → List R
  -- The id that the next `create` gives.
  pub next_id : S → ℕ
  pub find_first : (R → Bool) → S → Option R
  -- `findMany` with `orderBy` the key, rising; and `count`.
  pub find_sorted : (R → ℕ) → (R → Bool) → S → List R
  pub count_where : (R → Bool) → S → ℕ
  pub create : (ℕ → R) → S → S
  pub update_where : (R → Bool) → (R → R) → S → S
  pub delete_where : (R → Bool) → S → S
  pub find_first_lem : (p : R → Bool) (s : S) → Finds p (rows s) (find_first p s)
  pub find_sorted_lem :
      (key : R → ℕ) (p : R → Bool) (s : S) → Sorts key (filter p (rows s)) (find_sorted key p s)
  pub count_where_lem : (p : R → Bool) (s : S) → count_where p s ≡ count p (rows s)
  pub rows-create : (f : ℕ → R) (s : S) → rows (create f s) ≡ rows s ++ f (next_id s) ∷ []
  pub rows-update_where :
      (p : R → Bool) (f : R → R) (s : S) → rows (update_where p f s) ≡ map (rewrite p f) (rows s)
  pub rows-delete_where :
      (p : R → Bool) (s : S) → rows (delete_where p s) ≡ filter (λ r. not (p r)) (rows s)
  pub next_id-create : (f : ℕ → R) (s : S) → next_id (create f s) ≡ next_id s + 1
  pub next_id-update_where :
      (p : R → Bool) (f : R → R) (s : S) → next_id (update_where p f s) ≡ next_id s
  pub next_id-delete_where : (p : R → Bool) (s : S) → next_id (delete_where p s) ≡ next_id s
