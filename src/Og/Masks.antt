-- ===== src/Og/Masks.antt =====
-- og/guards/ssrf.guard.ts: the bit operations of the guard as arithmetic, at every width.
use Prim.Native.Nat.{bit_and, bit_or, digits, max, bit_and-bitwise, bit_or-bitwise}
use messenger_web_app.Prelude.{
  ℕ, zero, suc, ◌+◌, ◌-◌, ◌*◌, ◌/◌, ◌^◌, ◌≤◌, ◌<◌, min, ◌≡◌, refl, ap, arith,
}
use native.Mathlib.Nat.{pow-suc, one-le-pow}

-- The native operations go over binary digits, lowest first, and stop when their first number is
-- used up; `n` is a number of digits that is enough. Here a mask of `b` ones keeps what fits it.
keep_low : (b n x : ℕ) → x ≤ n → x < 2 ^ b → digits (λ _. zero) min n x (2 ^ b - 1) ≡ x
keep_low b zero x l h = omega arith
keep_low b (suc n) zero l h = refl
keep_low zero (suc n) (suc x) l h = absurd (omega arith)
keep_low (suc b) (suc n) (suc x) l h =
    let low = keep_low b n (suc x / 2) (omega arith) (omega (arith, pow-suc 2 b)) in
    ground (arith, low, pow-suc 2 b, one-le-pow b 2)

-- Two doublings of one number.
double : (q k : ℕ) → q * 2 ^ suc k ≡ 2 * (q * 2 ^ k)
double q k = omega (arith, ap (λ (t : ℕ). q * t) (pow-suc 2 k))

-- The same `k` digits higher: what stands below the mask is cleared.
keep_high :
    (k b n q r x : ℕ)
    → x ≡ q * 2 ^ k + r
    → x ≤ n
    → q < 2 ^ b
    → r < 2 ^ k
    → digits (λ _. zero) min n x ((2 ^ b - 1) * 2 ^ k) ≡ q * 2 ^ k
keep_high zero b n q r x e l h k = ground (arith, keep_low b n x l (omega arith))
keep_high (suc k) b zero q r x e l h j = omega arith
keep_high (suc k) b (suc n) q r zero e l h j = omega arith
keep_high (suc k) b (suc n) q r (suc x) e l h j =
    let higher =
      keep_high k b n q (r / 2) (suc x / 2) (omega (arith, double q k)) (omega arith) h
        (omega (arith, pow-suc 2 k)) in
    ground (arith, higher, double q k, double (2 ^ b - 1) k)

-- A number `k` digits up and one that fits below it.
join_low : (k n q r x : ℕ) → x ≡ q * 2 ^ k → x ≤ n → r < 2 ^ k → digits (λ y. y) max n x r ≡ x + r
join_low k zero q r x e l h = omega arith
join_low k (suc n) q r zero e l h = omega arith
join_low zero (suc n) q r (suc x) e l h =
    let rest =
      join_low zero n (suc x / 2) 0 (suc x / 2) (omega arith) (omega arith) (omega arith) in
    ground (arith, rest)
join_low (suc k) (suc n) q r (suc x) e l h =
    let rest =
      join_low k n q (r / 2) (suc x / 2) (omega (arith, double q k)) (omega arith)
        (omega (arith, pow-suc 2 k)) in
    ground (arith, rest, double q k)

pub or_shifted : (k q r : ℕ) → r < 2 ^ k → bit_or (q * 2 ^ k) r ≡ q * 2 ^ k + r
or_shifted k q r h =
    rw (bit_or-bitwise (q * 2 ^ k) r) (join_low k _ q r (q * 2 ^ k) refl (omega arith) h)

pub and_mask :
    (k b q r : ℕ)
    → q < 2 ^ b
    → r < 2 ^ k
    → bit_and (q * 2 ^ k + r) ((2 ^ b - 1) * 2 ^ k) ≡ q * 2 ^ k
and_mask k b q r h l =
    rw (bit_and-bitwise (q * 2 ^ k + r) ((2 ^ b - 1) * 2 ^ k))
      (keep_high k b _ q r (q * 2 ^ k + r) refl (omega arith) h l)
