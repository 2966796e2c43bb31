-- ===== src/Friends/Pairs.antt =====
-- Rows of the table of friendships: at most one for two users, whoever asked.
use messenger_web_app.Prelude.{
  ℕ, ◌≡◌, ◌≢◌, sym, ◌∙◌, inl, inr, Bool, true, false, not, List, [], ◌∷◌, ◌++◌, map, arith, filter,
  All, In, All-In, nat_eq, Bool-cases,
}
use messenger_web_app.Prelude.Rows.{In-filter, All-of_In}
use messenger_web_app.Friends.{Friendship, between, has_id, new_request}

abbrev pub Alone : List Friendship → Type 0
Alone [] = Unit
Alone (f ∷ fs) =
    (f.sender_id ≢ f.receiver_id)
    × All (λ g. between f.sender_id f.receiver_id g ≡ false) fs
    × Alone fs

pub between_comm : (a b : ℕ) (f : Friendship) → between a b f ≡ between b a f
between_comm a b f = ground arith

between_swap :
    (f g : Friendship)
    → between f.sender_id f.receiver_id g ≡ false
    → between g.sender_id g.receiver_id f ≡ false
between_swap f g h = ground arith

-- Two rows that join the same two users join one another's.
between_trans :
    (a b : ℕ) (f g : Friendship)
    → between a b f ≡ true
    → between a b g ≡ true
    → between f.sender_id f.receiver_id g ≡ true
between_trans a b f g p q = ground arith

All-create :
    (a b id : ℕ) (f : Friendship) (fs : List Friendship)
    → All (λ g. between f.sender_id f.receiver_id g ≡ false) fs
    → between a b f ≡ false
    → All (λ g. between f.sender_id f.receiver_id g ≡ false) (fs ++ new_request a b id ∷ [])
All-create a b id f [] h p = ground arith
All-create a b id f (g ∷ fs) h p = (h.0, All-create a b id f fs h.1 p)

pub Alone-create :
    (a b id : ℕ) (fs : List Friendship)
    → a ≢ b
    → All (λ g. between a b g ≡ false) fs
    → Alone fs
    → Alone (fs ++ new_request a b id ∷ [])
Alone-create a b id [] ne h k = (ne, tt, tt)
Alone-create a b id (f ∷ fs) ne h k =
    (k.0, All-create a b id f fs k.1 h.0, Alone-create a b id fs ne h.1 k.2)

All-filter-between :
    (a b : ℕ) (q : Friendship → Bool) (fs : List Friendship)
    → All (λ g. between a b g ≡ false) fs
    → All (λ g. between a b g ≡ false) (filter q fs)
All-filter-between a b q [] h = tt
All-filter-between a b q (f ∷ fs) h = ground (arith, All-filter-between a b q fs h.1)

pub Alone-filter : (q : Friendship → Bool) (fs : List Friendship) → Alone fs → Alone (filter q fs)
Alone-filter q [] k = tt
Alone-filter q (f ∷ fs) k =
    ground (arith, Alone-filter q fs k.2, All-filter-between f.sender_id f.receiver_id q fs k.1)

-- An update that keeps both users of every row.
abbrev pub KeepsUsers : (Friendship → Friendship) → Type 0
KeepsUsers u =
    (f : Friendship) → ((u f).sender_id ≡ f.sender_id) × ((u f).receiver_id ≡ f.receiver_id)

All-map-between :
    (a b : ℕ) (u : Friendship → Friendship) (fs : List Friendship)
    → KeepsUsers u
    → All (λ g. between a b g ≡ false) fs
    → All (λ g. between a b g ≡ false) (map u fs)
All-map-between a b u [] keep h = tt
All-map-between a b u (f ∷ fs) keep h =
    let (s, r) = keep f in (rw (s, r) h.0, All-map-between a b u fs keep h.1)

pub Alone-map :
    (u : Friendship → Friendship) (fs : List Friendship)
    → KeepsUsers u
    → Alone fs
    → Alone (map u fs)
Alone-map u [] keep k = tt
Alone-map u (f ∷ fs) keep k =
    let (s, r) = keep f in
    (
      rw (s, r) k.0,
      rw (s, r) (All-map-between f.sender_id f.receiver_id u fs keep k.1),
      Alone-map u fs keep k.2,
    )

pub Alone-unique :
    (a b : ℕ) (f g : Friendship) (fs : List Friendship)
    → Alone fs
    → In f fs
    → In g fs
    → between a b f ≡ true
    → between a b g ≡ true
    → f ≡ g
Alone-unique a b f g [] k i j p q = absurd i
Alone-unique a b f g (h ∷ fs) k (inl x) (inl y) p q = x ∙ sym y
Alone-unique a b f g (h ∷ fs) k (inl x) (inr j) p q =
    let apart = All-In (λ e. between h.sender_id h.receiver_id e ≡ false) g fs k.1 j in
    let joined = between_trans a b h g (rw x at p) q in cc
Alone-unique a b f g (h ∷ fs) k (inr i) (inl y) p q =
    let apart = All-In (λ e. between h.sender_id h.receiver_id e ≡ false) f fs k.1 i in
    let joined = between_trans a b h f (rw y at q) p in cc
Alone-unique a b f g (h ∷ fs) k (inr i) (inr j) p q = Alone-unique a b f g fs k.2 i j p q

-- Once the one row of two users is deleted, none is left.
pub none_after_delete :
    (a b : ℕ) (f : Friendship) (fs : List Friendship)
    → Alone fs
    → In f fs
    → between a b f ≡ true
    → All (λ g. between a b g ≡ false) (filter (λ g. not (has_id f.id g)) fs)
none_after_delete a b f fs k i p = All-of_In _ _ λ g j.
    let (j', other) = In-filter (λ g. not (has_id f.id g)) g fs j in
    elim (Bool-cases (between a b g)) [
      | inr apart ↦ apart
      | inl joined ↦ let same = Alone-unique a b f g fs k i j' p joined in ground arith
    ]
