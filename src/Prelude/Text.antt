-- ===== src/Prelude/Text.antt =====
-- Texts as the services read them: JavaScript's truthiness of a nullable text, and its slice.
use Prim.Native.Nat.{ℕ, zero, suc, ◌+◌, ◌-◌, ◌/◌, ◌%◌}
use Prim.Native.String.{String}
use mathlib.Core.Option.{Option, none, some}
use text.Mathlib.Text.{◌==◌ as str_eq}
use cluster_gate.Prelude.Tests.{if◌then◌else◌, ltb}
use Prim.Native.Char.{code}
use mathlib.Core.List.{List, [], ◌∷◌}

-- A nullable text in a condition: null and the empty text count as false.
abbrev pub present : Option String → Option String
present none = none
present (some s) = if str_eq s "" then none else some s

-- `s.slice(0, n)`, in characters.
abbrev pub clip : ℕ → String → String
clip zero s = ""
clip (suc n) String.[] = ""
clip (suc n) (String.◌∷◌ c s) = String.◌∷◌ c (clip n s)

-- The UTF-16 code units of a text: its `length` and a regular expression without the flag u see these.
unfoldable pub utf16 : String → List ℕ
utf16 String.[] = []
utf16 (String.◌∷◌ c s) =
    let n = code c in
    if ltb n 65536 then n ∷ utf16 s else (55296 + (n - 65536) / 1024) ∷ (56320 + n % 1024) ∷ utf16 s
