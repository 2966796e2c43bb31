-- ===== src/Prelude/Store/Listed.antt =====
-- A list with a counter of ids keeps the promises of the database client: they can be met, and the
-- services can be run.
use messenger_web_app.Prelude.{
  suc, leb, ◌≤◌, count, length, inl, inr, ℕ, ◌+◌, ◌≡◌, refl, Bool, not, Option, none, some, List,
  [], ◌∷◌, ◌++◌, map, arith, if◌then◌else◌, filter, All, In, Bool-cases,
}
use messenger_web_app.Prelude.Store.{Table, Finds, Ascending, Sorts, rewrite}

abbrev pub find : {R : Type 0} → (R → Bool) → List R → Option R
find p [] = none
find p (x ∷ xs) = if p x then some x else find p xs

pub find_lem : {R : Type 0} (p : R → Bool) (xs : List R) → Finds p xs (find p xs)
find_lem p [] = tt
find_lem p (x ∷ xs) = ground (arith, find_lem p xs)

-- Insertion sort.
unfoldable pub insert_by : {R : Type 0} → (R → ℕ) → R → List R → List R
insert_by key x [] = x ∷ []
insert_by key x (y ∷ ys) = if leb (key x) (key y) then x ∷ y ∷ ys else y ∷ insert_by key x ys

unfoldable pub sort_by : {R : Type 0} → (R → ℕ) → List R → List R
unfolding insert_by
sort_by key [] = []
sort_by key (x ∷ xs) = insert_by key x (sort_by key xs)

module _ {R : Type 0} (key : R → ℕ) where
  length-insert_by : (x : R) (ys : List R) → length (insert_by key x ys) ≡ suc (length ys)
  unfolding insert_by
  length-insert_by x [] = refl
  length-insert_by x (y ∷ ys) = ground (arith, length-insert_by x ys)

  In-insert_by : (x : R) (ys : List R) → In x (insert_by key x ys)
  unfolding insert_by
  In-insert_by x [] = inl refl
  In-insert_by x (y ∷ ys) = ground (arith, In-insert_by x ys)

  In-insert_by_old : (x z : R) (ys : List R) → In z ys → In z (insert_by key x ys)
  unfolding insert_by
  In-insert_by_old x z [] i = absurd i
  In-insert_by_old x z (y ∷ ys) (inl e) = ground arith
  In-insert_by_old x z (y ∷ ys) (inr i) = ground (arith, In-insert_by_old x z ys i)

  All-insert_by :
      (P : R → Type 0) (x : R) (ys : List R) → P x → All P ys → All P (insert_by key x ys)
  unfolding insert_by
  All-insert_by P x [] p a = (p, tt)
  All-insert_by P x (y ∷ ys) p a = ground (arith, All-insert_by P x ys p a.1)

  All-map_P : (P Q : R → Type 0) (xs : List R) → ((x : R) → P x → Q x) → All P xs → All Q xs
  All-map_P P Q [] f a = tt
  All-map_P P Q (x ∷ xs) f a = (f x a.0, All-map_P P Q xs f a.1)

  Ascending-insert_by :
      (x : R) (ys : List R) → Ascending key ys → Ascending key (insert_by key x ys)
  unfolding insert_by
  Ascending-insert_by x [] a = (tt, tt)
  Ascending-insert_by x (y ∷ ys) a = elim (Bool-cases (leb (key x) (key y))) [
    | inl e ↦ rw e (
      (
        ground arith,
        All-map_P (λ z. key y ≤ key z) (λ z. key x ≤ key z) ys (λ z h. ground arith) a.0,
      ),
      a,
    )
    | inr e ↦
        rw e
          (All-insert_by (λ z. key y ≤ key z) x ys (ground arith) a.0, Ascending-insert_by x ys a.1)
  ]

  pub sort_by-Sorts : (xs : List R) → Sorts key xs (sort_by key xs)
  unfolding sort_by
  sort_by-Sorts [] = record { same_length = refl; no_others = tt; all_there = tt; ascending = tt }
  sort_by-Sorts (x ∷ xs) =
      let h = sort_by-Sorts xs in
      let ys = sort_by key xs in
      record {
        same_length = omega (arith, length-insert_by x ys, h.same_length);
        no_others =
            All-insert_by (λ y. In y (x ∷ xs)) x ys (inl refl)
              (All-map_P (λ y. In y xs) (λ y. In y (x ∷ xs)) ys (λ y i. inr i) h.no_others);
        all_there = (
          In-insert_by x ys,
          All-map_P (λ y. In y ys) (λ y. In y (insert_by key x ys)) xs
              (λ y i. In-insert_by_old x y ys i) h.all_there,
        );
        ascending = Ascending-insert_by x ys h.ascending;
      }

abbrev pub listed : {R : Type 0} → Table R (List R × ℕ)
listed = record {
  rows = λ s. s.0;
  next_id = λ s. s.1;
  find_first = λ p s. find p s.0;
  find_sorted = λ key p s. sort_by key (filter p s.0);
  count_where = λ p s. count p s.0;
  create = λ f s. (s.0 ++ f s.1 ∷ [], s.1 + 1);
  update_where = λ p f s. (map (rewrite p f) s.0, s.1);
  delete_where = λ p s. (filter (λ r. not (p r)) s.0, s.1);
  find_first_lem = λ p s. find_lem p s.0;
  find_sorted_lem = λ key p s. sort_by-Sorts key (filter p s.0);
  count_where_lem = λ p s. refl;
  rows-create = λ f s. refl;
  rows-update_where = λ p f s. refl;
  rows-delete_where = λ p s. refl;
  next_id-create = λ f s. refl;
  next_id-update_where = λ p f s. refl;
  next_id-delete_where = λ p s. refl;
}
