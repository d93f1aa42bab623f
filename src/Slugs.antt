-- ===== src/Slugs.antt =====
-- backend/src/lib/slug.ts: names as parts of a URL.
mod Bounds
mod Tests
use cluster_gate.Prelude.{
  ℕ, none, some, true, false, [], suc, String, Bool, strip_prefix, if◌then◌else◌, Option, leb, ◌&&◌,
  present, is_nil_text, ◌||◌, ◌==◌, clip,
}
use Prim.Native.Char.{Char, char, code}

abbrev pub dash : Char
dash = char 45 tt

abbrev pub is_slug_char : ℕ → Bool
is_slug_char c = (leb 48 c && leb c 57) || (leb 97 c && leb c 122)

-- Each run of other characters becomes one dash.
unfoldable pub dashed : Bool → String → String
dashed after_dash String.[] = ""
dashed after_dash (String.◌∷◌ c s) =
    let kept = dashed false s in
    let other = dashed true s in
    if is_slug_char (code c)
    then String.◌∷◌ c kept
    else if after_dash
    then other
    else String.◌∷◌ dash other

-- A text without one dash at its end.
unfoldable pub undashed_end : String → String
undashed_end String.[] = ""
undashed_end (String.◌∷◌ c s) =
    let rest = undashed_end s in if is_nil_text s && code c == 45 then "" else String.◌∷◌ c rest

abbrev pub undashed : String → String
undashed s = undashed_end (elim (strip_prefix "-" s) [ none ↦ s | some r ↦ r ])

-- `fold` is toLowerCase, the decomposition NFKD and the removal of the diacritics.
unfoldable pub slugify : (String → String) → Option String → Option String
unfolding dashed undashed_end strip_prefix
slugify fold input = elim (present input) [
  | none ↦ none
  | some s ↦ present (some (clip 64 (undashed (dashed false (fold s)))))
]

unfoldable pub all_slug_chars : String → Bool
all_slug_chars String.[] = true
all_slug_chars (String.◌∷◌ c s) = let rest = all_slug_chars s in is_slug_char (code c) && rest

unfoldable pub text_size : String → ℕ
text_size String.[] = 0
text_size (String.◌∷◌ c s) = suc (text_size s)

abbrev pub is_between : ℕ → ℕ → String → Bool
is_between low high s = leb low (text_size s) && leb (text_size s) high

-- The regular expression `^c[a-z0-9]{20,30}$`.
unfoldable pub looks_like_cuid : String → Bool
unfolding all_slug_chars strip_prefix text_size
looks_like_cuid value = elim (strip_prefix "c" value) [
  | none ↦ false
  | some s ↦ is_between 20 30 s && all_slug_chars s
]
