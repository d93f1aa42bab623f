-- ===== src/Proxy/Address.antt =====
-- isIpAllowed of backend/src/services/proxyService.ts. A number of 32 bits is a natural number below
-- 2 ^ 32; `x & mask`, where the mask has 32 - e ones and then e zeros, is x less its remainder by 2 ^ e.
use mathlib.Core.Option
use cluster_gate.Prelude.{
  plus, minus, ℕ, none, some, [], ◌∷◌, ◌-◌, Signed, String, Option, List, ◌^◌, ◌*◌, strip_prefix,
  split_at, Bool, ◌%◌, parse_int, some_of, str_eq, ◌==◌, ◌||◌, has_char, ◌&&◌, if◌then◌else◌, ◌+◌,
  leb,
}

abbrev word : ℕ
word = 2 ^ 32

abbrev plus_octet : ℕ → Signed → ℕ
plus_octet base (plus n) = (base + n) % word
plus_octet base (minus n) = (base + (word - n % word)) % word

-- `(acc << 8) + parseInt(octet)`; `none` is NaN, which `<<` takes for 0.
abbrev pub next_octet : Option ℕ → String → Option ℕ
next_octet acc octet = Option.map (plus_octet (Option.get_or acc 0 * 256 % word)) (parse_int octet)

unfoldable pub octets : Option ℕ → List String → Option ℕ
octets acc [] = acc
octets acc (s ∷ ss) = octets (next_octet acc s) ss

unfoldable pub ip_to_num : String → ℕ
unfolding octets
ip_to_num ip = Option.get_or (octets (some 0) (split_at 46 ip)) 0

-- How many zeros the mask `~(2 ** (32 - bits) - 1)` ends in, in the arithmetic of the doubles: NaN,
-- and more than 32 bits, give no zeros; below 0 bits there are 32, until 2 ** 54 - 1 is rounded.
unfoldable pub host_bits : Option Signed → ℕ
host_bits none = 0
host_bits (some (plus b)) = 32 - b
host_bits (some (minus k)) = if leb k 21 then 32 else 0

abbrev pub masked : ℕ → ℕ → ℕ
masked e x = x - x % 2 ^ e

abbrev range_of : List String → String
range_of [] = ""
range_of (r ∷ rs) = r

abbrev bits_of : List String → Option Signed
bits_of [] = none
bits_of (r ∷ []) = none
bits_of (r ∷ b ∷ bs) = parse_int b

unfoldable pub ip_in_cidr : String → String → Bool
unfolding ip_to_num host_bits
ip_in_cidr ip cidr =
    let parts = split_at 47 cidr in
    let e = host_bits (bits_of parts) in
    masked e (ip_to_num ip) == masked e (ip_to_num (range_of parts))

abbrev pub entry_admits : String → String → Bool
entry_admits ip entry = str_eq entry ip || has_char 47 entry && ip_in_cidr ip entry

-- `clientIp.replace(/^::ffff:/, '')`
abbrev pub without_mapping : String → String
without_mapping ip = elim (strip_prefix "::ffff:" ip) [ none ↦ ip | some rest ↦ rest ]

unfoldable pub is_ip_allowed : String → List String → Bool
unfolding ip_in_cidr
is_ip_allowed client_ip allowlist = some_of (entry_admits (without_mapping client_ip)) allowlist
