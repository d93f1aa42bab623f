-- ===== src/Slugs/Bounds.antt =====
-- The form of a slug.
use cluster_gate.Prelude.{
  ℕ, some, true, false, zero, suc, refl, Bool, strip_prefix, String, clip, arith, Option, ◌&&◌, ◌≡◌,
  ◌≤◌, ◌<◌, ◌||◌, ◌==◌, inl, inr, present, Option-cases,
}
use mathlib.Core.Path.{subst}
use Prim.Native.Char.{code}
use cluster_gate.Slugs.{dashed, slugify, text_size, undashed_end, undashed, is_slug_char}

abbrev is_slug_or_dash : ℕ → Bool
is_slug_or_dash c = is_slug_char c || c == 45

unfoldable pub all_of : (ℕ → Bool) → String → Bool
all_of p String.[] = true
all_of p (String.◌∷◌ c s) = let rest = all_of p s in p (code c) && rest

-- Letters, digits and dashes only.
abbrev pub IsSlugText : String → Type 0
IsSlugText s = all_of is_slug_or_dash s ≡ true

dashed-IsSlugText : (after_dash : Bool) (s : String) → IsSlugText (dashed after_dash s)
unfolding dashed all_of
dashed-IsSlugText after_dash String.[] = refl
dashed-IsSlugText after_dash (String.◌∷◌ c s) =
    ground (arith, dashed-IsSlugText true s, dashed-IsSlugText false s)

undashed_end-IsSlugText : (s : String) → IsSlugText s → IsSlugText (undashed_end s)
unfolding undashed_end all_of
undashed_end-IsSlugText String.[] h = refl
undashed_end-IsSlugText (String.◌∷◌ c s) h = ground (arith, undashed_end-IsSlugText s)

strip_prefix-IsSlugText : (s r : String) → strip_prefix "-" s ≡ some r → IsSlugText s → IsSlugText r
unfolding all_of strip_prefix
strip_prefix-IsSlugText String.[] r e h = absurd (ground arith)
strip_prefix-IsSlugText (String.◌∷◌ c s) r e h =
    let same : s ≡ r = ground arith in subst IsSlugText same (ground arith)

undashed-IsSlugText : (s : String) → IsSlugText s → IsSlugText (undashed s)
undashed-IsSlugText s h = elim (Option-cases (strip_prefix "-" s)) [
  | inl other ↦ rw (undashed, other) (undashed_end-IsSlugText s h)
  | inr (r, e) ↦ rw (undashed, e) (undashed_end-IsSlugText r (strip_prefix-IsSlugText s r e h))
]

clip-IsSlugText : (n : ℕ) (s : String) → IsSlugText s → IsSlugText (clip n s)
unfolding all_of
clip-IsSlugText zero s h = refl
clip-IsSlugText (suc n) String.[] h = refl
clip-IsSlugText (suc n) (String.◌∷◌ c s) h = ground (arith, clip-IsSlugText n s)

clip-size : (n : ℕ) (s : String) → text_size (clip n s) ≤ n
unfolding text_size
clip-size zero s = omega arith
clip-size (suc n) String.[] = omega arith
clip-size (suc n) (String.◌∷◌ c s) = omega (arith, clip-size n s)

present-nonempty : (v s : String) → present (some v) ≡ some s → (v ≡ s) × (0 < text_size s)
unfolding text_size
present-nonempty String.[] s h = absurd (ground arith)
present-nonempty (String.◌∷◌ c v) s h =
    let same : String.◌∷◌ c v ≡ s = ground arith in
    (same, subst (λ x. 0 < text_size x) same (omega arith))

-- A slug has between one and 64 characters, which are lower-case letters, digits and dashes,
-- whatever toLowerCase and the normalization of Unicode do.
pub slugify-IsSlugText :
    (fold : String → String) (input : Option String) (s : String)
    → slugify fold input ≡ some s
    → IsSlugText s × (0 < text_size s) × (text_size s ≤ 64)
unfolding slugify text_size
slugify-IsSlugText fold input s h = elim (Option-cases (present input)) [
  | inl empty ↦ absurd (ground (arith, empty))
  | inr (name, e) ↦
      let raw = undashed (dashed false (fold name)) in
      let (same, some_char) = present-nonempty (clip 64 raw) s (ground (arith, e)) in
      let form = undashed-IsSlugText _ (dashed-IsSlugText false (fold name)) in
      (
        subst IsSlugText same (clip-IsSlugText 64 raw form),
        some_char,
        subst (λ x. text_size x ≤ 64) same (clip-size 64 raw),
      )
]
