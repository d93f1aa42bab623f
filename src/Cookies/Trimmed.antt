-- ===== src/Cookies/Trimmed.antt =====
-- Texts without spaces at their ends, and the splitting of a joined text.
use cluster_gate.Prelude.{
  ℕ, true, false, [], ◌∷◌, refl, inl, inr, trim_end, trim, trim_start, String, has_char, split_at,
  ◌≡◌, All, List, Bool, ◌==◌, arith, ap, Bool-cases, is_nil_text, str_append, ◌∙◌, ◌&&◌,
  before_first, is_blank,
}
use text.Mathlib.TextLemmas.{nil-append, cons-append}
use Prim.Native.Char.{Char, code}

abbrev first_is_blank : String → Bool
first_is_blank String.[] = false
first_is_blank (String.◌∷◌ c s) = is_blank (code c)

trim_start-first : (s : String) → first_is_blank (trim_start s) ≡ false
unfolding trim_start
trim_start-first String.[] = refl
trim_start-first (String.◌∷◌ c s) = ground (arith, trim_start-first s)

trim_start-same : (s : String) → first_is_blank s ≡ false → trim_start s ≡ s
unfolding trim_start
trim_start-same String.[] h = refl
trim_start-same (String.◌∷◌ c s) h = ground arith

trim_end-first : (s : String) → first_is_blank s ≡ false → first_is_blank (trim_end s) ≡ false
unfolding trim_end
trim_end-first String.[] h = refl
trim_end-first (String.◌∷◌ c s) h = ground arith

trim_end-again : (s : String) → trim_end (trim_end s) ≡ trim_end s
unfolding trim_end
trim_end-again String.[] = refl
trim_end-again (String.◌∷◌ c s) =
    elim (Bool-cases (is_nil_text (trim_end s) && is_blank (code c))) [
      | inl gone ↦ rw gone refl
      | inr kept ↦ rw kept (rw (trim_end-again s) (rw kept refl))
    ]

pub trim-again : (s : String) → trim (trim s) ≡ trim s
unfolding trim
trim-again s =
    ap trim_end (
      trim_start-same (trim_end (trim_start s))
        (trim_end-first (trim_start s) (trim_start-first s)))
    ∙ trim_end-again (trim_start s)

trim_start-has_char :
    (d : ℕ) (s : String) → has_char d s ≡ false → has_char d (trim_start s) ≡ false
unfolding trim_start has_char
trim_start-has_char d String.[] h = refl
trim_start-has_char d (String.◌∷◌ c s) h = ground (arith, trim_start-has_char d s)

trim_end-has_char : (d : ℕ) (s : String) → has_char d s ≡ false → has_char d (trim_end s) ≡ false
unfolding trim_end has_char
trim_end-has_char d String.[] h = refl
trim_end-has_char d (String.◌∷◌ c s) h = ground (arith, trim_end-has_char d s)

-- A part of a header as it is kept.
abbrev pub IsPart : String → Type 0
IsPart p = (has_char 59 p ≡ false) × (trim p ≡ p)

pub trim-IsPart : (s : String) → has_char 59 s ≡ false → IsPart (trim s)
unfolding trim
trim-IsPart s h = (trim_end-has_char 59 (trim_start s) (trim_start-has_char 59 s h), trim-again s)

pub split_at-append :
    (d : ℕ) (p s : String) (c : Char)
    → has_char d p ≡ false
    → (code c == d) ≡ true
    → split_at d (str_append p (String.◌∷◌ c s)) ≡ p ∷ split_at d s
unfolding split_at has_char
split_at-append d String.[] s c h e = ap (split_at d) (nil-append (String.◌∷◌ c s)) ∙ rw e refl
split_at-append d (String.◌∷◌ x p) s c h e =
    ap (split_at d) (cons-append x p (String.◌∷◌ c s)) ∙ ground (arith, split_at-append d p s c)

has_char-head :
    (d : ℕ) (c : Char) (ws : List String)
    → (code c == d) ≡ false
    → All (λ w. has_char d w ≡ false) ws
    → All (λ w. has_char d w ≡ false) (before_first c ws)
unfolding has_char
has_char-head d c [] e h = tt
has_char-head d c (w ∷ ws) e (h, hs) = (rw e h, hs)

pub split_at-parts : (d : ℕ) (s : String) → All (λ w. has_char d w ≡ false) (split_at d s)
unfolding split_at has_char
split_at-parts d String.[] = (refl, tt)
split_at-parts d (String.◌∷◌ c s) = elim (Bool-cases (code c == d)) [
  | inl here ↦ rw here (refl, split_at-parts d s)
  | inr past ↦ rw past (has_char-head d c (split_at d s) past (split_at-parts d s))
]
