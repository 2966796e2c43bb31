-- ===== src/Og/Reserved.antt =====
-- og/guards/ssrf.guard.ts: `isPrivateIPv4` on the text of four octets, against the blocks read octet
-- by octet.
use Prim.Native.Nat.{bit_and}
use mathlib.Core.Bool.{or_assoc, or-false}
use messenger_web_app.Prelude.{
  ℕ, ◌+◌, ◌-◌, ◌*◌, ◌/◌, ◌%◌, ◌^◌, ◌<◌, ◌≡◌, Bool, true, ◌&&◌, ◌||◌, [], ◌∷◌, ◌++◌, ◌==◌, nat_eq,
  leb, any, arith,
}
use messenger_web_app.Prelude.Texts.{Text, text_eq_self, split}
use messenger_web_app.Og.Addresses.{
  parse_digits, parse_int, ipv4_to_int, show_octet, dotted, blocked_ipv4_cidrs, in_range,
  is_private_ipv4, is_ipv4, is_octet, add_octet,
}
use messenger_web_app.Og.Masks.{or_shifted, and_mask}

-- The blocks: this network, private networks, carrier-grade translation, loopback, link-local
-- addresses, assignments of protocols, documentation, benchmarks, and what is kept for the future.
unfoldable pub is_reserved : ℕ → ℕ → ℕ → ℕ → Bool
is_reserved a b c d =
    a == 0
    || a == 10
    || (a == 100 && leb 64 b && leb b 127)
    || a == 127
    || (a == 169 && b == 254)
    || (a == 172 && leb 16 b && leb b 31)
    || (a == 192 && b == 0 && c == 0)
    || (a == 192 && b == 0 && c == 2)
    || (a == 192 && b == 168)
    || (a == 198 && leb 18 b && leb b 19)
    || (a == 198 && b == 51 && c == 100)
    || (a == 203 && b == 0 && c == 113)
    || leb 240 a

pub parse-show : (n : ℕ) → n < 256 → parse_int (show_octet n) ≡ n
unfolding parse_digits show_octet
parse-show n h = ground arith

split-show_octet :
    (n : ℕ) (s : Text)
    → n < 256
    → split b'.' (show_octet n ++ b'.' ∷ s) ≡ show_octet n ∷ split b'.' s
unfolding split show_octet
split-show_octet n s h = ground arith

split-show_octet_last : (n : ℕ) → n < 256 → split b'.' (show_octet n) ≡ show_octet n ∷ []
unfolding split show_octet
split-show_octet_last n h = ground arith

pub split-dotted :
    (a b c d : ℕ)
    → a < 256
    → b < 256
    → c < 256
    → d < 256
    → split b'.' (dotted a b c d) ≡ show_octet a ∷ show_octet b ∷ show_octet c ∷ show_octet d ∷ []
unfolding dotted
split-dotted a b c d ha hb hc hd = rw (
  split-show_octet a _ ha,
  split-show_octet b _ hb,
  split-show_octet c _ hc,
  split-show_octet_last d hd,
)

add_octet-show : (acc n : ℕ) → acc < 2 ^ 24 → n < 256 → add_octet acc (show_octet n) ≡ acc * 256 + n
add_octet-show acc n h k = ground (arith, parse-show n k, or_shifted 8 acc n (omega arith))

pub ipv4_to_int-dotted :
    (a b c d : ℕ)
    → a < 256
    → b < 256
    → c < 256
    → d < 256
    → ipv4_to_int (dotted a b c d) ≡ ((a * 256 + b) * 256 + c) * 256 + d
unfolding ipv4_to_int
ipv4_to_int-dotted a b c d ha hb hc hd =
    rw
      (
        split-dotted a b c d ha hb hc hd,
        add_octet-show 0 a (omega arith) ha,
        add_octet-show (0 * 256 + a) b (omega arith) hb,
        add_octet-show ((0 * 256 + a) * 256 + b) c (omega arith) hc,
        add_octet-show (((0 * 256 + a) * 256 + b) * 256 + c) d (omega arith) hd,
      )
      (omega arith)

keep_of :
    (k b q r : ℕ) {x : ℕ}
    → x ≡ q * 2 ^ k + r
    → q < 2 ^ b
    → r < 2 ^ k
    → bit_and x ((2 ^ b - 1) * 2 ^ k) ≡ q * 2 ^ k
keep_of k b q r e h l = rw e (and_mask k b q r h l)

-- An address behind the mask of each width in the table.
module _ (a b c d x : ℕ) (ha : a < 256) (hb : b < 256) (hc : c < 256) (hd : d < 256)
    (e : x ≡ ((a * 256 + b) * 256 + c) * 256 + d) where
  mask_4 : bit_and x 4026531840 ≡ (a / 16) * 2 ^ 28
  mask_4 =
      keep_of 28 4 (a / 16) (((a % 16 * 256 + b) * 256 + c) * 256 + d) (omega arith) (omega arith)
        (omega arith)

  mask_8 : bit_and x 4278190080 ≡ (a) * 2 ^ 24
  mask_8 = keep_of 24 8 (a) ((b * 256 + c) * 256 + d) (omega arith) (omega arith) (omega arith)

  mask_10 : bit_and x 4290772992 ≡ (a * 4 + b / 64) * 2 ^ 22
  mask_10 =
      keep_of 22 10 (a * 4 + b / 64) ((b % 64 * 256 + c) * 256 + d) (omega arith) (omega arith)
        (omega arith)

  mask_12 : bit_and x 4293918720 ≡ (a * 16 + b / 16) * 2 ^ 20
  mask_12 =
      keep_of 20 12 (a * 16 + b / 16) ((b % 16 * 256 + c) * 256 + d) (omega arith) (omega arith)
        (omega arith)

  mask_15 : bit_and x 4294836224 ≡ (a * 128 + b / 2) * 2 ^ 17
  mask_15 =
      keep_of 17 15 (a * 128 + b / 2) ((b % 2 * 256 + c) * 256 + d) (omega arith) (omega arith)
        (omega arith)

  mask_16 : bit_and x 4294901760 ≡ (a * 256 + b) * 2 ^ 16
  mask_16 = keep_of 16 16 (a * 256 + b) (c * 256 + d) (omega arith) (omega arith) (omega arith)

  mask_24 : bit_and x 4294967040 ≡ ((a * 256 + b) * 256 + c) * 2 ^ 8
  mask_24 = keep_of 8 24 ((a * 256 + b) * 256 + c) (d) (omega arith) (omega arith) (omega arith)

  at_0 : in_range x (record { base = 0; mask = 4278190080 }) ≡ (a == 0)
  at_0 = ground (arith, mask_8)

  at_10 : in_range x (record { base = 167772160; mask = 4278190080 }) ≡ (a == 10)
  at_10 = ground (arith, mask_8)

  at_100 :
      in_range x (record { base = 1681915904; mask = 4290772992 })
      ≡ (a == 100 && leb 64 b && leb b 127)
  at_100 = ground (arith, mask_10)

  at_127 : in_range x (record { base = 2130706432; mask = 4278190080 }) ≡ (a == 127)
  at_127 = ground (arith, mask_8)

  at_169 : in_range x (record { base = 2851995648; mask = 4294901760 }) ≡ (a == 169 && b == 254)
  at_169 = ground (arith, mask_16)

  at_172 :
      in_range x (record { base = 2886729728; mask = 4293918720 })
      ≡ (a == 172 && leb 16 b && leb b 31)
  at_172 = ground (arith, mask_12)

  at_192_0 :
      in_range x (record { base = 3221225472; mask = 4294967040 }) ≡ (a == 192 && b == 0 && c == 0)
  at_192_0 = ground (arith, mask_24)

  at_192_2 :
      in_range x (record { base = 3221225984; mask = 4294967040 }) ≡ (a == 192 && b == 0 && c == 2)
  at_192_2 = ground (arith, mask_24)

  at_192_168 : in_range x (record { base = 3232235520; mask = 4294901760 }) ≡ (a == 192 && b == 168)
  at_192_168 = ground (arith, mask_16)

  at_198_18 :
      in_range x (record { base = 3323068416; mask = 4294836224 })
      ≡ (a == 198 && leb 18 b && leb b 19)
  at_198_18 = ground (arith, mask_15)

  at_198_51 :
      in_range x (record { base = 3325256704; mask = 4294967040 })
      ≡ (a == 198 && b == 51 && c == 100)
  at_198_51 = ground (arith, mask_24)

  at_203 :
      in_range x (record { base = 3405803776; mask = 4294967040 })
      ≡ (a == 203 && b == 0 && c == 113)
  at_203 = ground (arith, mask_24)

  at_240 : in_range x (record { base = 4026531840; mask = 4026531840 }) ≡ (leb 240 a)
  at_240 = ground (arith, mask_4)

  pub in_blocks : any (in_range x) blocked_ipv4_cidrs ≡ is_reserved a b c d
  unfolding blocked_ipv4_cidrs is_reserved
  in_blocks =
      rw
        (
          at_0, at_10, at_100, at_127, at_169, at_172, at_192_0, at_192_2, at_192_168, at_198_18,
          at_198_51, at_203, at_240,
        )
        (simp (or_assoc, or-false))

-- isPrivateIPv4 holds of the text of four octets exactly where they lie in one of the blocks.
pub is_private_ipv4-dotted :
    (a b c d : ℕ)
    → a < 256
    → b < 256
    → c < 256
    → d < 256
    → is_private_ipv4 (dotted a b c d) ≡ is_reserved a b c d
unfolding is_private_ipv4
is_private_ipv4-dotted a b c d ha hb hc hd =
    in_blocks a b c d _ ha hb hc hd (ipv4_to_int-dotted a b c d ha hb hc hd)

is_octet-show : (n : ℕ) → n < 256 → is_octet (show_octet n) ≡ true
unfolding show_octet parse_digits
is_octet-show n h = ground (arith, text_eq_self (show_octet n), parse-show n h)

pub is_ipv4-dotted :
    (a b c d : ℕ) → a < 256 → b < 256 → c < 256 → d < 256 → is_ipv4 (dotted a b c d) ≡ true
unfolding is_ipv4
is_ipv4-dotted a b c d ha hb hc hd = rw (
  split-dotted a b c d ha hb hc hd,
  is_octet-show a ha,
  is_octet-show b hb,
  is_octet-show c hc,
  is_octet-show d hd,
)
