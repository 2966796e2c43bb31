-- ===== src/Prelude/Rows.antt =====
-- Lemmas on the rows of a table: searches, filters and updates of lists of records, and ids.
use messenger_web_app.Prelude.{
  ℕ, ◌+◌, ◌≤◌, ◌<◌, ◌≡◌, ◌≢◌, refl, sym, ◌∙◌, inl, inr, Bool, true, false, not, ◌||◌, ◌==◌, nat_eq,
  count-filter-le, Option, none, some, List, [], ◌∷◌, ◌++◌, map, arith, filter, any, count, All, In,
  is_some, All-In, Bool-cases, Option-cases, String, ap,
}
use messenger_web_app.Prelude.Store.{Finds, Table}

module _ {R : Type 0} where
  -- None fits: the count is zero.
  pub count_none : (p : R → Bool) (xs : List R) → All (λ x. p x ≡ false) xs → count p xs ≡ 0
  count_none p [] h = refl
  count_none p (x ∷ xs) (e, h) = ground (arith, e, count_none p xs h)

  -- Deleting a row that is there, with what has its id, leaves one row less of its kind.
  pub count-filter_lt :
      (id_of : R → ℕ) (p : R → Bool) (r : R) (xs : List R)
      → In r xs
      → p r ≡ true
      → count p (filter (λ x. not (id_of x == id_of r)) xs) < count p xs
  count-filter_lt id_of p r [] i e = absurd i
  count-filter_lt id_of p r (x ∷ xs) (inl same) e =
      let gone : (id_of x == id_of r) ≡ true = rw (sym same) (ground arith) in
      let hit : p x ≡ true = rw (sym same) e in
      ground (arith, gone, hit, count-filter-le p (λ x. not (id_of x == id_of r)) xs)
  count-filter_lt id_of p r (x ∷ xs) (inr i) e = ground (arith, count-filter_lt id_of p r xs i e)

  -- A search finds a row exactly when one fits.
  pub Finds-any : (p : R → Bool) (xs : List R) (o : Option R) → Finds p xs o → is_some o ≡ any p xs
  Finds-any p [] none h = refl
  Finds-any p [] (some r) h = absurd h.1
  Finds-any p (x ∷ xs) none h = ground (arith, Finds-any p xs none h.1)
  Finds-any p (x ∷ xs) (some r) (hit, inl e) = ground (arith, (rw e at hit))
  Finds-any p (x ∷ xs) (some r) (hit, inr i) = ground (arith, Finds-any p xs (some r) (hit, i))

  pub any-In : (p : R → Bool) (xs : List R) → any p xs ≡ true → (x : R) × In x xs × (p x ≡ true)
  any-In p [] h = cc
  any-In p (x ∷ xs) h = elim (Bool-cases (p x)) [
    | inl e ↦ (x, inl refl, e)
    | inr e ↦ let (y, i, q) = any-In p xs (ground arith) in (y, inr i, q)
  ]

  pub In-any : (p : R → Bool) (x : R) (xs : List R) → In x xs → p x ≡ true → any p xs ≡ true
  In-any p x [] i h = absurd i
  In-any p x (y ∷ xs) (inl e) h = ground arith
  In-any p x (y ∷ xs) (inr i) h = ground (arith, In-any p x xs i h)

  pub any-append : (p : R → Bool) (xs ys : List R) → any p (xs ++ ys) ≡ any p xs || any p ys
  any-append p [] ys = refl
  any-append p (x ∷ xs) ys = ground (arith, any-append p xs ys)

  pub any_of_filter : (p q : R → Bool) (xs : List R) → any p (filter q xs) ≡ true → any p xs ≡ true
  any_of_filter p q [] h = h
  any_of_filter p q (x ∷ xs) h = ground (arith, any_of_filter p q xs)

  pub All-none : (p : R → Bool) (xs : List R) → any p xs ≡ false → All (λ r. p r ≡ false) xs
  All-none p [] h = tt
  All-none p (x ∷ xs) h = ground (arith, All-none p xs)

  pub none_of_All : (p : R → Bool) (xs : List R) → All (λ r. p r ≡ false) xs → any p xs ≡ false
  none_of_All p [] h = refl
  none_of_All p (x ∷ xs) h = ground (arith, none_of_All p xs h.1)

  pub In-filter : (q : R → Bool) (x : R) (xs : List R) → In x (filter q xs) → In x xs × (q x ≡ true)
  In-filter q x [] i = absurd i
  In-filter q x (y ∷ xs) i = ground (arith, In-filter q x xs)

  pub In-append_right : (x : R) (xs : List R) → In x (xs ++ x ∷ [])
  In-append_right x [] = inl refl
  In-append_right x (y ∷ xs) = inr (In-append_right x xs)

  pub is_some-find_first :
      {S : Type 0} (t : Table R S) (p : R → Bool) (s : S)
      → is_some (t.find_first p s) ≡ any p (t.rows s)
  is_some-find_first t p s = Finds-any p (t.rows s) (t.find_first p s) (t.find_first_lem p s)

module _ {R : Type 0} (id : R → ℕ) where
  -- The ids of a table: below the next one, and no two the same.
  abbrev pub Keyed : ℕ → List R → Type 0
  Keyed n [] = Unit
  Keyed n (r ∷ rs) = (id r < n) × All (λ g. id g ≢ id r) rs × Keyed n rs

  Keyed-below : (n : ℕ) (rs : List R) → Keyed n rs → All (λ g. id g < n) rs
  Keyed-below n [] k = tt
  Keyed-below n (r ∷ rs) k = (k.0, Keyed-below n rs k.2)

  All-append_one : (P : R → Type 0) (rs : List R) (r : R) → All P rs → P r → All P (rs ++ r ∷ [])
  All-append_one P [] r a p = (p, tt)
  All-append_one P (x ∷ rs) r a p = (a.0, All-append_one P rs r a.1 p)

  pub Keyed-create :
      (n : ℕ) (rs : List R) (r : R) → Keyed n rs → id r ≡ n → Keyed (n + 1) (rs ++ r ∷ [])
  Keyed-create n [] r k e = (omega arith, tt, tt)
  Keyed-create n (x ∷ rs) r k e = (
    omega arith,
    All-append_one (λ g. id g ≢ id x) rs r k.1 (omega (arith, k.0)),
    Keyed-create n rs r k.2 e,
  )

  All-filter_keep : (P : R → Type 0) (q : R → Bool) (rs : List R) → All P rs → All P (filter q rs)
  All-filter_keep P q [] a = tt
  All-filter_keep P q (x ∷ rs) a = ground (arith, All-filter_keep P q rs a.1)

  pub Keyed-filter : (n : ℕ) (q : R → Bool) (rs : List R) → Keyed n rs → Keyed n (filter q rs)
  Keyed-filter n q [] k = tt
  Keyed-filter n q (x ∷ rs) k =
      ground (arith, Keyed-filter n q rs k.2, All-filter_keep (λ g. id g ≢ id x) q rs k.1)

  All-map :
      (P : R → Type 0) (f : R → R) (rs : List R)
      → ((r : R) → P r → P (f r))
      → All P rs
      → All P (map f rs)
  All-map P f [] keep a = tt
  All-map P f (x ∷ rs) keep a = (keep x a.0, All-map P f rs keep a.1)

  pub Keyed-map :
      (n : ℕ) (f : R → R) (rs : List R)
      → ((r : R) → id (f r) ≡ id r)
      → Keyed n rs
      → Keyed n (map f rs)
  Keyed-map n f [] same k = tt
  Keyed-map n f (x ∷ rs) same k = (
    rw (same x) k.0,
    All-map (λ g. id g ≢ id (f x)) f rs (λ r ne. rw (same r) ne) (rw (same x) k.1),
    Keyed-map n f rs same k.2,
  )

  -- An id stands for one row.
  pub Keyed-unique :
      (n : ℕ) (x y : R) (rs : List R) → Keyed n rs → In x rs → In y rs → id x ≡ id y → x ≡ y
  Keyed-unique n x y [] k i j e = absurd i
  Keyed-unique n x y (r ∷ rs) k (inl p) (inl q) e = p ∙ sym q
  Keyed-unique n x y (r ∷ rs) k (inl p) (inr j) e =
      absurd (All-In (λ g. id g ≢ id r) y rs k.1 j (rw (← p) (sym e)))
  Keyed-unique n x y (r ∷ rs) k (inr i) (inl q) e =
      absurd (All-In (λ g. id g ≢ id r) x rs k.1 i (rw (← q) e))
  Keyed-unique n x y (r ∷ rs) k (inr i) (inr j) e = Keyed-unique n x y rs k.2 i j e

pub All-of_In : {R : Type 0} (P : R → Type 0) (xs : List R) → ((x : R) → In x xs → P x) → All P xs
All-of_In P [] h = tt
All-of_In P (x ∷ xs) h = (h x (inl refl), All-of_In P xs (λ y i. h y (inr i)))

pub any-map_of_In :
    {R : Type 0} (p : R → Bool) (u : R → R) (x : R) (xs : List R)
    → In x xs
    → p (u x) ≡ true
    → any p (map u xs) ≡ true
any-map_of_In p u x [] i h = absurd i
any-map_of_In p u x (y ∷ xs) (inl e) h = ground (arith, (rw e at h))
any-map_of_In p u x (y ∷ xs) (inr i) h = ground (arith, any-map_of_In p u x xs i h)

pub In-map :
    {R : Type 0} (u : R → R) (x : R) (xs : List R) → In x (map u xs) → (y : R) × In y xs × (x ≡ u y)
In-map u x [] i = absurd i
In-map u x (y ∷ xs) (inl e) = (y, inl refl, e)
In-map u x (y ∷ xs) (inr i) = let (z, j, e) = In-map u x xs i in (z, inr j, e)

pub In_map : {R : Type 0} (u : R → R) (x : R) (xs : List R) → In x xs → In (u x) (map u xs)
In_map u x [] i = absurd i
In_map u x (y ∷ xs) (inl e) = inl (ap u e)
In_map u x (y ∷ xs) (inr i) = inr (In_map u x xs i)

-- What a search finds, where a row that fits is known to be there.
pub find_known :
    {R S : Type 0} (t : Table R S) (p : R → Bool) (x : R) (s : S)
    → In x (t.rows s)
    → p x ≡ true
    → (y : R) × (t.find_first p s ≡ some y) × In y (t.rows s) × (p y ≡ true)
find_known t p x s i h = elim (Option-cases (t.find_first p s)) [
  | inl e ↦
      let nothing = rw e at (t.find_first_lem p s) in
      let no = All-In (λ r. p r ≡ false) x (t.rows s) nothing i in absurd (cc)
  | inr (y, e) ↦ let (hit, j) = rw e at (t.find_first_lem p s) in (y, e, j, hit)
]

-- A search fails where no row fits.
pub find_nothing :
    {R S : Type 0} (t : Table R S) (p : R → Bool) (s : S)
    → ((y : R) → In y (t.rows s) → p y ≡ false)
    → t.find_first p s ≡ none
find_nothing t p s h = elim (Option-cases (t.find_first p s)) [
  | inl e ↦ e
  | inr (y, e) ↦ let (hit, j) = rw e at (t.find_first_lem p s) in let no = h y j in absurd (cc)
]

module _ {R : Type 0} (key : R → String) where
  -- No two rows have the same text in a column.
  abbrev pub Apart : List R → Type 0
  Apart [] = Unit
  Apart (r ∷ rs) = All (λ g. key g ≢ key r) rs × Apart rs

  pub Apart-unique : (x y : R) (rs : List R) → Apart rs → In x rs → In y rs → key x ≡ key y → x ≡ y
  Apart-unique x y [] k i j e = absurd i
  Apart-unique x y (r ∷ rs) k (inl p) (inl q) e = p ∙ sym q
  Apart-unique x y (r ∷ rs) k (inl p) (inr j) e =
      absurd (All-In (λ g. key g ≢ key r) y rs k.0 j (rw (← p) (sym e)))
  Apart-unique x y (r ∷ rs) k (inr i) (inl q) e =
      absurd (All-In (λ g. key g ≢ key r) x rs k.0 i (rw (← q) e))
  Apart-unique x y (r ∷ rs) k (inr i) (inr j) e = Apart-unique x y rs k.1 i j e

module _ {R : Type 0} (p : R → Bool) where
  pub In-count : (x : R) (xs : List R) → In x xs → p x ≡ true → 0 < count p xs
  In-count x [] i h = absurd i
  In-count x (y ∷ xs) (inl e) h = ground arith
  In-count x (y ∷ xs) (inr i) h = ground (arith, In-count x xs i h)

  -- Where at most one row fits, two that fit are one.
  pub count_unique :
      (x y : R) (xs : List R) → count p xs ≤ 1 → In x xs → In y xs → p x ≡ true → p y ≡ true → x ≡ y
  count_unique x y [] k i j h g = absurd i
  count_unique x y (z ∷ xs) k (inl e) (inl f) h g = e ∙ sym f
  count_unique x y (z ∷ xs) k (inl e) (inr j) h g =
      let more = In-count y xs j g in absurd (ground arith)
  count_unique x y (z ∷ xs) k (inr i) (inl f) h g =
      let more = In-count x xs i h in absurd (ground arith)
  count_unique x y (z ∷ xs) k (inr i) (inr j) h g =
      ground (arith, count_unique x y xs (ground arith) i j h g)
