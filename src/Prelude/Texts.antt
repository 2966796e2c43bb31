-- ===== src/Prelude/Texts.antt =====
-- Texts as lists of character codes, with the operations of JavaScript's strings that the code calls.
use Prim.Native.Char.{code}
use Prim.Native.Nat.{ℕ, zero, suc, ◌+◌, ◌-◌}
use Prim.Native.String.{String}
use mathlib.Core.Path.{◌≡◌, refl}
use native.Mathlib.Omega.{arith}
use mathlib.Core.Bool.{Bool, true, false, ◌&&◌, ◌||◌}
use mathlib.Core.List.{List, [], ◌∷◌, ◌++◌}
use messenger_web_app.Prelude.Lists.{length}
use messenger_web_app.Prelude.Tests.{if◌then◌else◌, leb, nat_beq}

abbrev pub Text : Type 0
Text = List ℕ

abbrev pub codes : String → Text
codes String.[] = []
codes (String.◌∷◌ c s) = code c ∷ codes s

abbrev pub text_eq : Text → Text → Bool
text_eq [] [] = true
text_eq [] (y ∷ ys) = false
text_eq (x ∷ xs) [] = false
text_eq (x ∷ xs) (y ∷ ys) = nat_beq x y && text_eq xs ys

pub text_eq_self : (s : Text) → text_eq s s ≡ true
text_eq_self [] = refl
text_eq_self (x ∷ s) = ground (arith, text_eq_self s)

pub text_eq→eq : (s t : Text) → text_eq s t ≡ true → s ≡ t
text_eq→eq [] [] h = refl
text_eq→eq [] (y ∷ t) h = cc
text_eq→eq (x ∷ s) [] h = cc
text_eq→eq (x ∷ s) (y ∷ t) h = ground (arith, text_eq→eq s t)

-- `startsWith`
abbrev pub starts_with : Text → Text → Bool
starts_with [] s = true
starts_with (p ∷ ps) [] = false
starts_with (p ∷ ps) (c ∷ s) = nat_beq p c && starts_with ps s

-- `s.slice(0, n)` and `s.slice(n)`
module _ {ℓ} {A : Type ℓ} where
  abbrev pub take : ℕ → List A → List A
  take zero xs = []
  take (suc n) [] = []
  take (suc n) (x ∷ xs) = x ∷ take n xs

  abbrev pub drop : ℕ → List A → List A
  drop zero xs = xs
  drop (suc n) [] = []
  drop (suc n) (x ∷ xs) = drop n xs

-- `split` at one character: the first part grows by what stands before the others.
abbrev pub put_first : ℕ → List Text → List Text
put_first c [] = (c ∷ []) ∷ []
put_first c (p ∷ ps) = (c ∷ p) ∷ ps

unfoldable pub split : ℕ → Text → List Text
split sep [] = [] ∷ []
split sep (c ∷ s) = if nat_beq c sep then [] ∷ split sep s else put_first c (split sep s)

abbrev pub is_digit : ℕ → Bool
is_digit c = leb 48 c && leb c 57

abbrev pub lower : ℕ → ℕ
lower c = if leb 65 c && leb c 90 then c + 32 else c

-- `includes`
unfoldable pub includes : Text → Text → Bool
includes s [] = text_eq s []
includes s (c ∷ t) = if starts_with s (c ∷ t) then true else includes s t

-- `padStart(n, '0')`
abbrev pub replicate {ℓ} : {A : Type ℓ} → ℕ → A → List A
replicate zero x = []
replicate (suc n) x = x ∷ replicate n x

abbrev pub pad_start : ℕ → Text → Text
pad_start n s = replicate (n - length s) 48 ++ s

-- The white space and line terminators of the language's definition, which `trim` takes off.
abbrev pub is_white : ℕ → Bool
is_white k =
    (leb 9 k && leb k 13)
    || nat_beq k 32
    || nat_beq k 160
    || nat_beq k 5760
    || (leb 8192 k && leb k 8202)
    || nat_beq k 8232
    || nat_beq k 8233
    || nat_beq k 8239
    || nat_beq k 8287
    || nat_beq k 12288
    || nat_beq k 65279

-- `trim`
unfoldable pub trim_front : Text → Text
trim_front [] = []
trim_front (c ∷ s) = if is_white c then trim_front s else c ∷ s

abbrev pub put_code : Bool → ℕ → Text → Text
put_code white c [] = if white then [] else c ∷ []
put_code white c (d ∷ s) = c ∷ d ∷ s

unfoldable pub trim_back : Text → Text
trim_back [] = []
trim_back (c ∷ s) = put_code (is_white c) c (trim_back s)

unfoldable pub trim_codes : Text → Text
unfolding trim_front trim_back
trim_codes s = trim_back (trim_front s)
