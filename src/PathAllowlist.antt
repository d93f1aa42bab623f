-- ===== src/PathAllowlist.antt =====
-- backend/src/lib/pathAllowlist.ts: which paths below a wildcard route are forwarded. A text is the
-- list of its UTF-16 code units.
pub mod Decode
pub mod Match
pub mod Covers
pub mod Safe
mod Tests
use cluster_gate.Prelude.{
  ℕ, none, some, true, false, [], ◌∷◌, suc, Bool, Option, ◌==◌, if◌then◌else◌, List, leb, ltb, ◌||◌,
  ◌&&◌, not, length,
}

abbrev pub Text : Type 0
Text = List ℕ

-- The white space of `trim` and of `\s`.
pub is_space : ℕ → Bool
is_space c =
    (leb 9 c && leb c 13)
    || c == 32
    || c == 160
    || c == 5760
    || (leb 8192 c && leb c 8202)
    || c == 8232
    || c == 8233
    || c == 8239
    || c == 8287
    || c == 12288
    || c == 65279

-- '/', '.', '*' and '\\'
abbrev pub slash : ℕ
slash = 47

abbrev pub dot : Text
dot = 46 ∷ []

abbrev pub dots : Text
dots = 46 ∷ 46 ∷ []

abbrev pub star : Text
star = 42 ∷ []

abbrev pub backslash : ℕ
backslash = 92

unfoldable pub same_text : Text → Text → Bool
same_text [] [] = true
same_text [] (y ∷ ys) = false
same_text (x ∷ xs) [] = false
same_text (x ∷ xs) (y ∷ ys) = x == y && same_text xs ys

unfoldable pub contains : ℕ → Text → Bool
contains c [] = false
contains c (x ∷ xs) = x == c || contains c xs

module _ {ℓ} {A : Type ℓ} where
  abbrev pub is_nil : List A → Bool
  is_nil [] = true
  is_nil (x ∷ xs) = false

  pub any : (A → Bool) → List A → Bool
  any p [] = false
  any p (x ∷ xs) = p x || any p xs

  -- Without the longest end of which every element passes.
  drop_trailing : (A → Bool) → List A → List A
  drop_trailing p [] = []
  drop_trailing p (x ∷ xs) =
      let rest = drop_trailing p xs in if p x && is_nil rest then [] else x ∷ rest

drop_leading : (ℕ → Bool) → Text → Text
drop_leading p [] = []
drop_leading p (c ∷ cs) = let rest = drop_leading p cs in if p c then rest else c ∷ cs

cons_first : ℕ → List Text → List Text
cons_first c [] = (c ∷ []) ∷ []
cons_first c (s ∷ ss) = (c ∷ s) ∷ ss

-- `split('/')`: the empty text has one empty part.
unfoldable pub split : Text → List Text
unfolding cons_first
split [] = [] ∷ []
split (c ∷ cs) = if c == slash then [] ∷ split cs else cons_first c (split cs)

-- The rest after the slash, of a text that begins with one.
with_slash : Text → Text
with_slash [] = []
with_slash (c ∷ cs) = if c == slash then cs else c ∷ cs

-- normalizePathPattern, without the slash that its result begins with: the loop that takes the
-- slashes off the end stops at that one.
unfoldable pub normalized : Text → Text
unfolding drop_trailing drop_leading with_slash is_space
normalized pattern =
    drop_trailing (λ c. c == slash)
      (with_slash (drop_trailing is_space (drop_leading is_space pattern)))

pub data PatternError : Type 0 where
  too_long forbidden_character empty_segment dot_segment partial_wildcard : PatternError

abbrev forbidden : ℕ → Bool
forbidden c = is_space c || c == 63 || c == 35 || c == backslash

-- The loop over the segments.
check_segments : List Text → Option PatternError
check_segments [] = none
check_segments (s ∷ ss) =
    let rest = check_segments ss in
    if same_text s dot || same_text s dots
    then some dot_segment
    else if contains 42 s && not (same_text s star)
    then some partial_wildcard
    else rest

-- What is said of a pattern, `none` where it is valid.
unfoldable pub validate_path_pattern : Text → Option PatternError
unfolding check_segments normalized any
validate_path_pattern pattern =
    let p = normalized pattern in
    let segments = split p in
    if ltb 500 (suc (length p))
    then some too_long
    else if any forbidden p
    then some forbidden_character
    else if not (is_nil p) && any is_nil segments
    then some empty_segment
    else check_segments segments
