-- ===== src/PathAllowlist/Covers.antt =====
-- What a pattern covers, and that the matching by lengths and positions decides it.
use mathlib.Core.Path.{subst}
use cluster_gate.Prelude.{
  true, [], ◌∷◌, refl, List, ◌≡◌, ◌⊎◌, ◌↔◌, arith, false, Bool, ◌||◌, ◌&&◌, length, ◌==◌, inl, inr,
  Bool-cases, sym, ◌∙◌,
}
use cluster_gate.PathAllowlist.{Text, same_text, star}
use cluster_gate.PathAllowlist.Match.{matches_pattern, every_matches}

abbrev pub SegmentMatches : Text → Text → Type 0
SegmentMatches p s = (p ≡ star) ⊎ (p ≡ s)

-- A pattern covers a path segment by segment, and a star at its end covers whatever is left.
pub data Covers : List Text → List Text → Type 0 where
  done : Covers [] []
  below : (segments : List Text) → Covers (star ∷ []) segments
  step :
      {p s : Text} {ps ss : List Text}
      → SegmentMatches p s
      → Covers ps ss
      → Covers (p ∷ ps) (s ∷ ss)

pub same_text_iff : (xs ys : Text) → (same_text xs ys ≡ true) ↔ (xs ≡ ys)
unfolding same_text
same_text_iff [] [] = (λ h. refl, λ h. refl)
same_text_iff [] (y ∷ ys) = ground arith
same_text_iff (x ∷ xs) [] = ground arith
same_text_iff (x ∷ xs) (y ∷ ys) = ground (arith, same_text_iff xs ys)

fits : Text → Text → Bool
fits p s = same_text p star || same_text p s

fits_iff : (p s : Text) → (fits p s ≡ true) ↔ SegmentMatches p s
unfolding fits
fits_iff p s = ground (arith, same_text_iff p star, same_text_iff p s)

matches_pattern-cons :
    (p q s : Text) (ps ss : List Text)
    → matches_pattern (s ∷ ss) (p ∷ q ∷ ps) ≡ (fits p s && matches_pattern ss (q ∷ ps))
unfolding matches_pattern fits
matches_pattern-cons p q s ps ss = ground arith

matches_pattern-last :
    (p : Text) (ss : List Text)
    → matches_pattern ss (p ∷ [])
      ≡ (same_text p star || (length ss == 1 && every_matches (p ∷ []) ss))
unfolding matches_pattern
matches_pattern-last p ss = ground arith

matches_pattern-short : (p q : Text) (ps : List Text) → matches_pattern [] (p ∷ q ∷ ps) ≡ false
unfolding matches_pattern
matches_pattern-short p q ps = ground arith

matches_pattern-step :
    (p s : Text) (ps ss : List Text)
    → SegmentMatches p s
    → matches_pattern ss ps ≡ true
    → matches_pattern (s ∷ ss) (p ∷ ps) ≡ true
unfolding matches_pattern fits
matches_pattern-step p s [] [] m h =
    rw (matches_pattern-last p (s ∷ [])) (ground (arith, (fits_iff p s).1 m))
matches_pattern-step p s [] (x ∷ ss) m h = absurd (ground arith)
matches_pattern-step p s (q ∷ ps) ss m h =
    rw (matches_pattern-cons p q s ps ss, (fits_iff p s).1 m) h

Covers→matches : {ps ss : List Text} → Covers ps ss → matches_pattern ss ps ≡ true
unfolding matches_pattern same_text
Covers→matches done = refl
Covers→matches (below segments) = rw (matches_pattern-last star segments)
Covers→matches (step {p} {s} {ps} {ss} m c) = matches_pattern-step p s ps ss m (Covers→matches c)

last→Covers :
    (p : Text) (ss : List Text)
    → same_text p star ≡ false
    → matches_pattern ss (p ∷ []) ≡ true
    → Covers (p ∷ []) ss
unfolding matches_pattern
last→Covers p [] other h = absurd (ground arith)
last→Covers p (s ∷ []) other h = step (inr ((same_text_iff p s).0 (ground arith))) done
last→Covers p (s ∷ t ∷ ss) other h = absurd (ground arith)

matches→Covers : (ps ss : List Text) → matches_pattern ss ps ≡ true → Covers ps ss
unfolding matches_pattern
matches→Covers [] [] h = done
matches→Covers [] (s ∷ ss) h = absurd (ground arith)
matches→Covers (p ∷ []) ss h = elim (Bool-cases (same_text p star)) [
  | inl same ↦ subst (λ x. Covers (x ∷ []) ss) (sym ((same_text_iff p star).0 same)) (below ss)
  | inr other ↦ last→Covers p ss other h
]
matches→Covers (p ∷ q ∷ ps) [] h = absurd (ground (arith, matches_pattern-short p q ps, h))
matches→Covers (p ∷ q ∷ ps) (s ∷ ss) h =
    let both : (fits p s && matches_pattern ss (q ∷ ps)) ≡ true =
      sym (matches_pattern-cons p q s ps ss) ∙ h in
    step ((fits_iff p s).0 (ground arith)) (matches→Covers (q ∷ ps) ss (ground arith))

-- A path's segments match those of a pattern exactly if the pattern covers them.
pub matches_pattern_iff :
    (segments pattern : List Text)
    → (matches_pattern segments pattern ≡ true) ↔ Covers pattern segments
matches_pattern_iff segments pattern = (matches→Covers pattern segments, Covers→matches)
