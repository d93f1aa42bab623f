-- ===== src/Prelude/Scan.antt =====
-- Reading texts from the left: prefixes, splitting at a character, and JavaScript's parseInt.
use Prim.Native.Nat.{ℕ, suc, ◌+◌, ◌-◌, ◌*◌}
use Prim.Native.Char.{Char, code}
use Prim.Native.String.{String}
use mathlib.Core.Bool.{Bool, true, false, ◌&&◌, ◌||◌}
use mathlib.Core.Option.{Option, none, some}
use mathlib.Core.List.{List, [], ◌∷◌}
use cluster_gate.Prelude.Tests.{if◌then◌else◌, leb, ◌==◌}
use mathlib.Core.Path.{◌≡◌, refl}
use native.Mathlib.Omega.{arith}
use mathlib.Core.Option

-- What follows the prefix, where the text starts with it.
unfoldable pub strip_prefix : String → String → Option String
strip_prefix String.[] s = some s
strip_prefix (String.◌∷◌ c p) String.[] = none
strip_prefix (String.◌∷◌ c p) (String.◌∷◌ d s) =
    let rest = strip_prefix p s in if code c == code d then rest else none

abbrev pub starts_with : String → String → Bool
starts_with p s = elim (strip_prefix p s) [ none ↦ false | some r ↦ true ]

abbrev pub before_first : Char → List String → List String
before_first c [] = []
before_first c (w ∷ ws) = String.◌∷◌ c w ∷ ws

-- `s.split(d)` at one character, given by its code.
unfoldable pub split_at : ℕ → String → List String
split_at d String.[] = "" ∷ []
split_at d (String.◌∷◌ c s) =
    let rest = split_at d s in if code c == d then "" ∷ rest else before_first c rest

unfoldable pub has_char : ℕ → String → Bool
has_char d String.[] = false
has_char d (String.◌∷◌ c s) = let rest = has_char d s in if code c == d then true else rest

pub split_at-without : (d : ℕ) (s : String) → has_char d s ≡ false → split_at d s ≡ s ∷ []
unfolding has_char split_at
split_at-without d String.[] h = refl
split_at-without d (String.◌∷◌ c s) h = ground (arith, split_at-without d s)

-- The value of a digit, in bases up to 16.
unfoldable pub digit_value : ℕ → Option ℕ
digit_value c =
    if leb 48 c && leb c 57
    then some (c - 48)
    else if leb 97 c && leb c 102
    then some (c - 87)
    else if leb 65 c && leb c 70
    then some (c - 55)
    else none

abbrev in_base : ℕ → Option ℕ → Option ℕ
in_base base none = none
in_base base (some v) = if leb (suc v) base then some v else none

-- The digits that come first, after those already read.
unfoldable pub digits : ℕ → Option ℕ → String → Option ℕ
unfolding digit_value
digits base acc String.[] = acc
digits base acc (String.◌∷◌ c s) =
    let v = in_base base (digit_value (code c)) in
    let rest = digits base (some (Option.get_or acc 0 * base + Option.get_or v 0)) s in
    elim v [ none ↦ acc | some n ↦ rest ]

pub data Signed : Type 0 where
  plus minus : ℕ → Signed

-- An optional `0x`, and the digits.
unfoldable pub unsigned : String → Option ℕ
unfolding digits strip_prefix
unsigned s = elim (strip_prefix "0x" s) [
  | some h ↦ digits 16 none h
  | none ↦ elim (strip_prefix "0X" s) [ some h ↦ digits 16 none h | none ↦ digits 10 none s ]
]

unfoldable pub is_blank : ℕ → Bool
is_blank c = c == 32 || (leb 9 c && leb c 13) || c == 160 || c == 65279

unfoldable pub trim_start : String → String
trim_start String.[] = ""
trim_start (String.◌∷◌ c s) =
    let rest = trim_start s in if is_blank (code c) then rest else String.◌∷◌ c s

-- `parseInt(s)`, where `none` is NaN. Numbers from 2^53 on are not rounded; of the spaces beyond
-- ASCII only two are skipped.
unfoldable pub parse_int : String → Option Signed
unfolding unsigned trim_start strip_prefix
parse_int s =
    let t = trim_start s in
    elim (strip_prefix "-" t) [
      | some u ↦ Option.map minus (unsigned u)
      | none ↦ elim (strip_prefix "+" t) [
        | some u ↦ Option.map plus (unsigned u)
        | none ↦ Option.map plus (unsigned t)
      ]
    ]

abbrev pub is_nil_text : String → Bool
is_nil_text String.[] = true
is_nil_text (String.◌∷◌ c s) = false

unfoldable pub trim_end : String → String
trim_end String.[] = ""
trim_end (String.◌∷◌ c s) =
    let rest = trim_end s in if is_nil_text rest && is_blank (code c) then "" else String.◌∷◌ c rest

-- `s.trim()`
unfoldable pub trim : String → String
unfolding trim_start trim_end
trim s = trim_end (trim_start s)

-- What comes before the first such character, or the whole.
unfoldable pub before : ℕ → String → String
before d String.[] = ""
before d (String.◌∷◌ c s) = let rest = before d s in if code c == d then "" else String.◌∷◌ c rest
