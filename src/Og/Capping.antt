-- ===== src/Og/Capping.antt =====
-- og/guards/ssrf.guard.ts: the cap on the size of a response.
use messenger_web_app.Prelude.{
  ℕ, zero, suc, ◌+◌, ◌-◌, ◌≤◌, ◌<◌, ◌≡◌, refl, ap, List, [], ◌∷◌, ◌++◌, arith, length,
  length-append, min, ltb, Bool-cases, inl, inr, ◌⊎◌,
}
use native.Mathlib.Decide.{dec_lt}
use mathlib.Core.List.{append_assoc, append-nil}
use messenger_web_app.Prelude.Texts.{take, drop, replicate}
use messenger_web_app.Og.Fetching.{read_capped, fill, capped_body}

abbrev pub concat : List (List ℕ) → List ℕ
concat [] = []
concat (chunk ∷ rest) = chunk ++ concat rest

abbrev zeros : ℕ → List ℕ
zeros n = replicate n 0

length-replicate : (n : ℕ) → length (zeros n) ≡ n
length-replicate zero = omega arith
length-replicate (suc n) = omega (arith, length-replicate n)

take-append : (xs ys : List ℕ) → take (length xs) (xs ++ ys) ≡ xs
take-append [] ys = refl
take-append (x ∷ xs) ys = ap (λ (t : List ℕ). x ∷ t) (take-append xs ys)

drop-append : (xs ys : List ℕ) (n : ℕ) → drop (length xs + n) (xs ++ ys) ≡ drop n ys
drop-append [] ys n = let e : 0 + n ≡ n = omega arith in rw e
drop-append (x ∷ xs) ys n =
    let e : suc (length xs) + n ≡ suc (length xs + n) = omega arith in rw e (drop-append xs ys n)

drop-replicate : (n m : ℕ) → drop n (zeros m) ≡ zeros (m - n)
drop-replicate zero m = let e : m - 0 ≡ m = omega arith in rw e
drop-replicate (suc n) zero = let e : 0 - suc n ≡ 0 = omega arith in rw e
drop-replicate (suc n) (suc m) =
    let e : suc m - suc n ≡ m - n = omega arith in rw e (drop-replicate n m)

-- An array of zeros behind what was written so far.
fill-append :
    (p : List ℕ) (m : ℕ) (kept : List (List ℕ))
    → fill (p ++ zeros m) (length p) kept ≡ p ++ (concat kept ++ zeros (m - length (concat kept)))
unfolding fill
fill-append p m [] = let e : m - 0 ≡ m = omega arith in rw e
fill-append p m (chunk ∷ rest) =
    let body : take (length p) (p ++ zeros m)
          ++ chunk
          ++ drop (length p + length chunk) (p ++ zeros m)
        ≡ (p ++ chunk) ++ zeros (m - length chunk) =
      rw (
        take-append p (zeros m),
        drop-append p (zeros m) (length chunk),
        drop-replicate (length chunk) m,
      ) in
    let left : m - length chunk - length (concat rest) ≡ m - length (chunk ++ concat rest) =
      omega (arith, length-append chunk (concat rest)) in
    rw (body, ← length-append p chunk, fill-append (p ++ chunk) (m - length chunk) rest, left)
      (simp append_assoc)

concat-append : (xs ys : List (List ℕ)) → concat (xs ++ ys) ≡ concat xs ++ concat ys
concat-append [] ys = refl
concat-append (x ∷ xs) ys = rw (concat-append xs ys) (simp append_assoc)

concat_one :
    (kept : List (List ℕ)) (chunk : List ℕ) → concat (kept ++ chunk ∷ []) ≡ concat kept ++ chunk
concat_one kept chunk = rw (concat-append kept (chunk ∷ []), append-nil)

-- What the reading of the chunks keeps.
record Kept (max : ℕ) (r : List (List ℕ) × ℕ) (all : List ℕ) : Type 0 where
  within : length (concat r.0) ≤ max
  seen : length (concat r.0) ≤ r.1
  whole : length all ≤ max → (concat r.0 ≡ all) × (r.1 ≡ length all)

read_capped-Kept :
    (max : ℕ) (chunks kept : List (List ℕ)) (total : ℕ)
    → total ≡ length (concat kept)
    → total ≤ max
    → Kept max (read_capped max chunks kept total) (concat kept ++ concat chunks)
unfolding read_capped
read_capped-Kept max [] kept total e h = record {
  within = omega arith;
  seen = omega arith;
  whole = λ _. rw append-nil (refl, e);
}
read_capped-Kept max (chunk ∷ rest) kept total e h =
    elim (Bool-cases (ltb max (total + length chunk))) [
      | inl t ↦ rw t (record {
        within = omega arith;
        seen = omega arith;
        whole = λ k. absurd (
            ground (
              arith,
              length-append (concat kept) (chunk ++ concat rest),
              length-append chunk (concat rest),
            ));
      })
      | inr t ↦ rw t (
          let one = concat_one kept chunk in
          let ih : Kept max (read_capped max rest (kept ++ chunk ∷ []) (total + length chunk))
              (concat (kept ++ chunk ∷ []) ++ concat rest) =
            read_capped-Kept max rest (kept ++ chunk ∷ []) (total + length chunk)
              (rw one (omega (arith, length-append (concat kept) chunk))) (ground arith) in
          rw (← append_assoc (concat kept) chunk (concat rest), ← one) ih)
    ]

-- The body is never longer than the cap, and it is the chunks in their order unless they are longer
-- than the cap.
pub capped_body_lem :
    (max : ℕ) (chunks : List (List ℕ))
    → (length (capped_body max chunks) ≤ max)
      × ((capped_body max chunks ≡ concat chunks) ⊎ (max < length (concat chunks)))
unfolding capped_body
capped_body_lem max chunks =
    let r = read_capped max chunks [] 0 in
    let k : Kept max r (concat chunks) =
      read_capped-Kept max chunks [] 0 (omega arith) (omega arith) in
    let whole : length (concat chunks) ≤ max
        → (concat r.0 ≡ concat chunks) × (r.1 ≡ length (concat chunks)) =
      k.whole in
    rw (fill-append [] (min r.1 max) r.0) (
      omega (
        arith,
        k.within,
        k.seen,
        length-append (concat r.0) (zeros (min r.1 max - length (concat r.0))),
        length-replicate (min r.1 max - length (concat r.0)),
      ),
      elim (dec_lt max (length (concat chunks))) [
        | yes over ↦ inr over
        | no fits ↦
            let (same, seen) = whole (omega arith) in
            let none_left : min r.1 max - length (concat r.0) ≡ 0 =
              omega (arith, seen, ap length same) in
            inl (rw (none_left, append-nil) same)
      ],
    )
