-- ===== src/Session/Lifetime.antt =====
-- sessionService.tokenLifetimeMs: the lifetime of a session from the text of JWT_EXPIRES_IN.
use mathlib.Core.Option
use cluster_gate.Prelude.{
  ℕ, none, some, true, String, Option, Bool, leb, ◌&&◌, if◌then◌else◌, ◌==◌, ◌||◌, ◌*◌, ◌+◌, ◌-◌,
}
use Prim.Native.Char.{code}

-- The white space that `trim` takes away.
abbrev is_space : ℕ → Bool
is_space c =
    (leb 9 c && leb c 13)
    || c == 32
    || c == 160
    || c == 5760
    || (leb 8192 c && leb c 8202)
    || c == 8232
    || c == 8233
    || c == 8239
    || c == 8287
    || c == 12288
    || c == 65279

blank : String → Bool
blank String.[] = true
blank (String.◌∷◌ c s) = is_space (code c) && blank s

-- { s: 1000, m: 60_000, h: 3_600_000, d: 86_400_000 }[m[2]]
unit_ms : ℕ → Option ℕ
unit_ms c =
    if c == 115
    then some 1000
    else if c == 109
    then some 60000
    else if c == 104
    then some 3600000
    else if c == 100
    then some 86400000
    else none

-- The unit, where nothing but white space follows it.
with_unit : ℕ → ℕ → String → Option ℕ
unfolding unit_ms blank
with_unit n c rest = if blank rest then Option.map (λ u. n * u) (unit_ms c) else none

-- /^(\d+)([smhd])$/ on the trimmed text; `n` is what the digits so far come to, if there are any.
matched : Option ℕ → String → Option ℕ
unfolding with_unit
matched n String.[] = none
matched n (String.◌∷◌ c s) =
    let d = code c in
    let next = matched (some (Option.get_or n 0 * 10 + (d - 48))) s in
    let start = matched none s in
    if leb 48 d && leb d 57
    then next
    else elim n [ none ↦ if is_space d then start else none | some v ↦ with_unit v d s ]

unfoldable pub token_lifetime_ms : String → ℕ
unfolding matched
token_lifetime_ms v = Option.get_or (matched none v) (7 * 24 * 60 * 60 * 1000)
