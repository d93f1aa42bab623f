-- ===== src/Targets/Hosts.antt =====
-- backend/src/lib/targetDenylist.ts: hosts in their normal form, and the IPv4 address inside a
-- mapped IPv6 address.
use cluster_gate.Prelude.{
  ℕ, none, some, true, false, [], ◌∷◌, suc, strip_prefix, split_at, String, trim, Bool, List, ◌||◌,
  digits, if◌then◌else◌, leb, has_char, str_append, Option, str_eq, before, ◌/◌, ltb, ◌&&◌, ◌%◌,
  get_elem?,
}
use cluster_gate.Targets.{Platform}
use Prim.Native.Char.{code}
use mathlib.Core.Option

-- What comes before the suffix, where the text ends with it.
unfoldable pub strip_suffix : String → String → Option String
strip_suffix p String.[] = if str_eq "" p then some "" else none
strip_suffix p (String.◌∷◌ c s) =
    let rest = strip_suffix p s in
    if str_eq (String.◌∷◌ c s) p then some "" else Option.map (String.◌∷◌ c) rest

abbrev pub ends_with : String → String → Bool
ends_with p s = elim (strip_suffix p s) [ none ↦ false | some r ↦ true ]

unfoldable pub all_chars : (ℕ → Bool) → String → Bool
all_chars p String.[] = true
all_chars p (String.◌∷◌ c s) = let rest = all_chars p s in p (code c) && rest

unfoldable pub text_length : String → ℕ
text_length String.[] = 0
text_length (String.◌∷◌ c s) = suc (text_length s)

abbrev pub is_digit : ℕ → Bool
is_digit c = leb 48 c && leb c 57

abbrev is_hex_digit : ℕ → Bool
is_hex_digit c = is_digit c || (leb 97 c && leb c 102)

-- A group of between one and that many characters of a class.
unfoldable pub is_group : (ℕ → Bool) → ℕ → String → Bool
unfolding all_chars text_length
is_group p most s = leb 1 (text_length s) && leb (text_length s) most && all_chars p s

unfoldable pub digit_texts : List String
digit_texts = "0" ∷ "1" ∷ "2" ∷ "3" ∷ "4" ∷ "5" ∷ "6" ∷ "7" ∷ "8" ∷ "9" ∷ []

unfoldable pub digit_text : ℕ → String
unfolding digit_texts
digit_text n = Option.get_or (get_elem? digit_texts n) ""

-- A template string, by its parts.
unfoldable pub template : List String → String
template [] = ""
template (w ∷ ws) = str_append w (template ws)

-- The digits of a number below 1000.
unfoldable pub octet_text : ℕ → String
unfolding digit_text template
octet_text n =
    if ltb n 10
    then digit_text n
    else if ltb n 100
    then template (digit_text (n / 10) ∷ digit_text (n % 10) ∷ [])
    else template (digit_text (n / 100) ∷ digit_text (n / 10 % 10) ∷ digit_text (n % 10) ∷ [])

-- Two groups of sixteen bits as a dotted address.
unfoldable pub dotted_quad : ℕ → ℕ → String
unfolding octet_text template
dotted_quad hi lo = template (
    octet_text (hi / 256)
    ∷ "."
    ∷ octet_text (hi % 256)
    ∷ "."
    ∷ octet_text (lo / 256)
    ∷ "."
    ∷ octet_text (lo % 256)
    ∷ [])

-- The two regular expressions `^::ffff:(...)$`: the embedded address, where one of them matches.
unfoldable pub is_quad : List String → Bool
unfolding is_group
is_quad (a ∷ b ∷ c ∷ d ∷ []) =
    is_group is_digit 3 a && is_group is_digit 3 b && is_group is_digit 3 c && is_group is_digit 3 d
is_quad _ = false

unfoldable pub mapped_hex : List String → Option String
unfolding is_group digits dotted_quad
mapped_hex (h ∷ l ∷ []) =
    if is_group is_hex_digit 4 h && is_group is_hex_digit 4 l
    then some
        (dotted_quad (Option.get_or (digits 16 none h) 0) (Option.get_or (digits 16 none l) 0))
    else none
mapped_hex _ = none

unfoldable pub embedded_ipv4 : String → Option String
unfolding strip_prefix split_at is_quad mapped_hex
embedded_ipv4 a = elim (strip_prefix "::ffff:" a) [
  | none ↦ none
  | some r ↦ if is_quad (split_at 46 r) then some r else mapped_hex (split_at 58 r)
]

-- `if (h.startsWith('[') && h.endsWith(']')) h = h.slice(1, -1)`
unfoldable pub unbracket : String → String
unfolding strip_prefix strip_suffix
unbracket h = elim (strip_prefix "[" h) [
  | none ↦ h
  | some r ↦ elim (strip_suffix "]" r) [ none ↦ h | some inner ↦ inner ]
]

-- What normalizeHost does after trimming and toLowerCase.
unfoldable pub without_ends : String → String
unfolding unbracket has_char before strip_suffix
without_ends lowered =
    let h = unbracket lowered in
    let h = if has_char 58 h then before 37 h else h in Option.get_or (strip_suffix "." h) h

module _ (os : Platform) where
  unfoldable pub normalize_host : String → String
  unfolding trim without_ends
  normalize_host host = without_ends (os.lower (trim host))

  unfoldable pub unmap_ip : String → String
  unfolding normalize_host embedded_ipv4
  unmap_ip addr = let a = normalize_host addr in Option.get_or (embedded_ipv4 a) a
