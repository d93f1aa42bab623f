-- ===== src/Targets/Metadata.antt =====
-- backend/src/lib/security.ts: the addresses of cloud metadata endpoints, and the check of a
-- target's URL against them.
use cluster_gate.Prelude.{
  ℕ, none, some, true, false, [], ◌∷◌, zero, suc, digits, Signed, split_at, Bool, trim_start,
  String, List, strip_prefix, before, leb, has_char, ◌==◌, ◌&&◌, ◌-◌, Option, ◌%◌, if◌then◌else◌,
  text_in, ltb, is_nil_text, ◌||◌, plus, minus,
}
use cluster_gate.Targets.{Platform, Numeral, nan, infinite, negative, whole, fraction}
use cluster_gate.Targets.Hosts.{unbracket, embedded_ipv4}
use mathlib.Core.Option

unfoldable pub blocked_hostnames : List String
blocked_hostnames =
    "metadata.google.internal" ∷ "metadata.gke.internal" ∷ "169.254.169.254" ∷ "169.254.170.2" ∷ []

unfoldable pub blocked_metadata_ips : List String
blocked_metadata_ips = "100.100.100.200" ∷ []

-- The negation of `Number.isNaN(p) || p < 0 || p > 255`.
abbrev is_octet : Numeral → Bool
is_octet nan = false
is_octet infinite = false
is_octet negative = false
is_octet (whole n) = leb n 255
is_octet (fraction n) = ltb n 255

abbrev is_whole : ℕ → Numeral → Bool
is_whole k (whole n) = n == k
is_whole k _ = false

module _ (os : Platform) where
  unfoldable pub is_link_local : List String → Bool
  is_link_local (a ∷ b ∷ c ∷ d ∷ []) =
      is_octet (os.number a)
      && is_octet (os.number b)
      && is_octet (os.number c)
      && is_octet (os.number d)
      && is_whole 169 (os.number a)
      && is_whole 254 (os.number b)
  is_link_local _ = false

  -- toLowerCase, and the removal of brackets and of the zone
  unfoldable pub bare_address : String → String
  unfolding unbracket before
  bare_address ip = before 37 (unbracket (os.lower ip))

-- parseInt(s, 16)
abbrev pub hex_digits : String → Option ℕ
unfolding digits strip_prefix
hex_digits s = elim (strip_prefix "0x" s) [
  | some h ↦ digits 16 none h
  | none ↦ elim (strip_prefix "0X" s) [ some h ↦ digits 16 none h | none ↦ digits 16 none s ]
]

parse_hex : String → Option Signed
unfolding trim_start strip_prefix
parse_hex s =
    let t = trim_start s in
    elim (strip_prefix "-" t) [
      | some u ↦ Option.map minus (hex_digits u)
      | none ↦ elim (strip_prefix "+" t) [
        | some u ↦ Option.map plus (hex_digits u)
        | none ↦ Option.map plus (hex_digits t)
      ]
    ]

-- The low sixteen bits of a number, which are all that the masks below keep.
abbrev low16 : Signed → ℕ
low16 (plus n) = n % 65536
low16 (minus n) = (65536 - n % 65536) % 65536

-- fe80::/10 and fc00::/7
abbrev is_reserved_hextet : ℕ → Bool
is_reserved_hextet n = n - n % 64 == 65152 || n - n % 512 == 64512

abbrev first_part : List String → String
first_part [] = ""
first_part (w ∷ ws) = w

pub hextet : String → Option Signed
unfolding parse_hex split_at
hextet addr =
    let w = first_part (split_at 58 addr) in if is_nil_text w then parse_hex "0" else parse_hex w

module _ (os : Platform) where
  -- The body of isMetadataIp, with what it calls for an embedded address.
  unfoldable pub metadata_test : (String → Bool) → String → Bool
  unfolding bare_address is_link_local embedded_ipv4 hextet has_char split_at blocked_metadata_ips
      text_in
  metadata_test again ip =
      let addr = bare_address os ip in
      if text_in addr blocked_metadata_ips
      then true
      else if has_char 58 addr
      then elim (embedded_ipv4 addr) [
        | some ip4 ↦ again ip4
        | none ↦ elim (hextet addr) [ none ↦ false | some first ↦ is_reserved_hextet (low16 first) ]
      ]
      else is_link_local os (split_at 46 addr)

  -- isMetadataIp and isMetadataIpv6 call each other; the fuel is the number of calls.
  unfoldable pub is_metadata_within : ℕ → String → Bool
  unfolding metadata_test
  is_metadata_within zero ip = false
  is_metadata_within (suc fuel) ip = metadata_test (is_metadata_within fuel) ip

  unfoldable pub is_metadata_ip : String → Bool
  unfolding is_metadata_within
  is_metadata_ip ip = is_metadata_within 2 ip
