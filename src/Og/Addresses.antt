-- ===== src/Og/Addresses.antt =====
-- og/guards/ssrf.guard.ts: which addresses count as internal. A text is the list of its character
-- codes, and a number of 32 bits is its bit pattern.
use Prim.Native.Nat.{bit_and, bit_or}
use messenger_web_app.Prelude.{
  ℕ, ◌+◌, ◌-◌, ◌*◌, ◌/◌, ◌%◌, ◌^◌, Bool, true, false, ◌&&◌, ◌||◌, Option, none, some, List, [], ◌∷◌,
  ◌++◌, ◌==◌, nat_eq, leb, map, any, length, if◌then◌else◌,
}
use messenger_web_app.Prelude.Texts.{
  Text, codes, text_eq, starts_with, take, drop, split, is_digit, lower, pad_start,
}

-- `parseInt(s, 10)` of digits; what has none is not a number, which a shift or an `|` reads as 0.
unfoldable pub parse_digits : ℕ → Text → ℕ
parse_digits acc [] = acc
parse_digits acc (c ∷ s) = if is_digit c then parse_digits (acc * 10 + (c - 48)) s else acc

abbrev pub parse_int : Text → ℕ
parse_int s = parse_digits 0 s

abbrev pub word : ℕ
word = 2 ^ 32

-- `(acc << 8) | parseInt(octet, 10)`
abbrev pub add_octet : ℕ → Text → ℕ
add_octet acc octet = bit_or (acc * 2 ^ 8 % word) (parse_int octet % word)

unfoldable pub fold_octets : ℕ → List Text → ℕ
unfolding parse_digits
fold_octets acc [] = acc
fold_octets acc (o ∷ os) = fold_octets (add_octet acc o) os

unfoldable pub ipv4_to_int : Text → ℕ
unfolding fold_octets split
ipv4_to_int ip = fold_octets 0 (split b'.' ip)

pub record Range : Type 0 where
  pub base : ℕ
  pub mask : ℕ

abbrev pub mask_of : ℕ → ℕ
mask_of bits = if bits == 0 then 0 else (word - 1) * 2 ^ ((32 - bits) % 32) % word

abbrev pub range_of : List Text → Range
range_of (ip ∷ prefix ∷ _) =
    let mask = mask_of (parse_int prefix) in
    record { base = bit_and (ipv4_to_int ip) mask; mask = mask }
range_of _ = record { base = 0; mask = 0 }

-- The prefix is a number of bits up to 32 in all the texts below.
unfoldable pub cidr_to_range : Text → Range
unfolding ipv4_to_int parse_digits split
cidr_to_range cidr = range_of (split b'/' cidr)

unfoldable pub blocked_ipv4_cidrs : List Range
unfolding cidr_to_range
blocked_ipv4_cidrs = map cidr_to_range (
    codes "0.0.0.0/8"
    ∷ codes "10.0.0.0/8"
    ∷ codes "100.64.0.0/10"
    ∷ codes "127.0.0.0/8"
    ∷ codes "169.254.0.0/16"
    ∷ codes "172.16.0.0/12"
    ∷ codes "192.0.0.0/24"
    ∷ codes "192.0.2.0/24"
    ∷ codes "192.168.0.0/16"
    ∷ codes "198.18.0.0/15"
    ∷ codes "198.51.100.0/24"
    ∷ codes "203.0.113.0/24"
    ∷ codes "240.0.0.0/4"
    ∷ [])

abbrev pub in_range : ℕ → Range → Bool
in_range n r = bit_and n r.mask == r.base

unfoldable pub is_private_ipv4 : Text → Bool
unfolding ipv4_to_int blocked_ipv4_cidrs
is_private_ipv4 ip = any (in_range (ipv4_to_int ip)) blocked_ipv4_cidrs

-- The decimal text of an octet, and four octets joined by dots.
unfoldable pub show_octet : ℕ → Text
show_octet n =
    if leb 100 n
    then (n / 100 + 48) ∷ (n / 10 % 10 + 48) ∷ (n % 10 + 48) ∷ []
    else (if leb 10 n then (n / 10 + 48) ∷ (n % 10 + 48) ∷ [] else (n + 48) ∷ [])

unfoldable pub dotted : ℕ → ℕ → ℕ → ℕ → Text
unfolding show_octet
dotted a b c d =
    show_octet a ++ b'.' ∷ (show_octet b ++ b'.' ∷ (show_octet c ++ b'.' ∷ show_octet d))

-- `net.isIPv4`: four numbers up to 255 without leading zeros.
abbrev pub all_digits : Text → Bool
all_digits [] = true
all_digits (c ∷ s) = is_digit c && all_digits s

abbrev pub is_octet : Text → Bool
is_octet s = text_eq s (show_octet (parse_int s)) && all_digits s && leb (parse_int s) 255

abbrev pub four_octets : List Text → Bool
four_octets (a ∷ b ∷ c ∷ d ∷ []) = is_octet a && is_octet b && is_octet c && is_octet d
four_octets _ = false

unfoldable pub is_ipv4 : Text → Bool
unfolding split parse_digits show_octet
is_ipv4 s = four_octets (split b'.' s)

abbrev pub hex_value : ℕ → Option ℕ
hex_value c =
    if is_digit c
    then some (c - 48)
    else (if leb 97 c && leb c 102
        then some (c - 87)
        else (if leb 65 c && leb c 70 then some (c - 55) else none))

-- `parseInt(s, 16)`, 0 where there is no digit.
unfoldable pub parse_hex : ℕ → Text → ℕ
parse_hex acc [] = acc
parse_hex acc (c ∷ s) = elim (hex_value c) [ none ↦ acc | some v ↦ parse_hex (acc * 16 + v) s ]

abbrev pub is_hex_digit : ℕ → Bool
is_hex_digit c = is_digit c || (leb 97 c && leb c 102)

abbrev pub all_hex_digits : Text → Bool
all_hex_digits [] = true
all_hex_digits (c ∷ s) = is_hex_digit c && all_hex_digits s

-- `[0-9a-f]{1,4}`
abbrev pub is_hex_group : Text → Bool
is_hex_group s = all_hex_digits s && leb 1 (length s) && leb (length s) 4

abbrev pub of_groups : ℕ → ℕ → Text
of_groups a b = dotted (a / 256 % 256) (a % 256) (b / 256 % 256) (b % 256)

-- What follows `::ffff:`, with its parts between colons.
abbrev pub mapped : Text → List Text → Bool
mapped v4 (a ∷ b ∷ []) =
    if is_ipv4 v4
    then is_private_ipv4 v4
    else (if is_hex_group a && is_hex_group b
        then is_private_ipv4 (of_groups (parse_hex 0 a) (parse_hex 0 b))
        else true)
mapped v4 _ = if is_ipv4 v4 then is_private_ipv4 v4 else true

abbrev pub hex_pairs : Text → Text
hex_pairs h =
    dotted (parse_hex 0 (take 2 h)) (parse_hex 0 (take 2 (drop 2 h)))
      (parse_hex 0 (take 2 (drop 4 h))) (parse_hex 0 (take 2 (drop 6 h)))

-- An address that begins with `2002:` holds another in its second and third part.
abbrev pub six_to_four : List Text → Bool
six_to_four (_ ∷ p ∷ q ∷ _) =
    let hex = pad_start 4 p ++ pad_start 4 q in
    if length hex == 8 then is_private_ipv4 (hex_pairs hex) else false
six_to_four _ = false

-- `^f[cd]` and `^fe[89ab]`
abbrev pub is_local : Text → Bool
is_local (f ∷ c ∷ _) = f == 102 && (c == 99 || c == 100)
is_local _ = false

abbrev pub is_link_local : Text → Bool
is_link_local (f ∷ e ∷ c ∷ _) = f == 102 && e == 101 && (c == 56 || c == 57 || c == 97 || c == 98)
is_link_local _ = false

abbrev pub head_part : List Text → Text
head_part [] = []
head_part (p ∷ _) = p

-- The address in small letters, without its zone.
unfoldable pub is_private_normalized : Text → Bool
unfolding is_private_ipv4 is_ipv4 dotted parse_hex split
is_private_normalized s =
    if text_eq s (codes "::1") || text_eq s (codes "::") || is_local s || is_link_local s
    then true
    else (if starts_with (codes "::ffff:") s
        then mapped (drop 7 s) (split b':' (drop 7 s))
        else (if starts_with (codes "64:ff9b::") s
            then true
            else (if starts_with (codes "2002:") s then six_to_four (split b':' s) else false)))

unfoldable pub is_private_ipv6 : Text → Bool
unfolding is_private_normalized split
is_private_ipv6 ip = is_private_normalized (head_part (split b'%' (map lower ip)))
