-- ===== src/Cookies/Stripped.antt =====
-- What the target reads in the stripped header.
use mathlib.Core.Option
use cluster_gate.Prelude.{
  some, true, false, [], ◌∷◌, refl, inl, inr, trim, List, String, All, split_at, not, trim_start,
  has_char, ◌≡◌, trim_end, is_blank, is_nil_text, filter_by-All, filter_by, map, ap, before_first,
  split_at-without, Bool-cases, ◌∙◌, filter_by-same, str_eq, none, Option, ◌⊎◌, filter_by-holds,
  sym, eq_iff,
}
use cluster_gate.Cookies.{cookies, join_from, strip_cookies, join, is_own, space, semicolon}
use cluster_gate.Cookies.Trimmed.{IsPart, split_at-parts, trim-IsPart, split_at-append}

trim-space : (ws : List String) → map trim (before_first space ws) ≡ map trim ws
unfolding trim trim_start is_blank
trim-space [] = refl
trim-space (w ∷ ws) = refl

-- The parts that were joined are those that are read again.
join_from-parts :
    (p : String) (ps : List String)
    → IsPart p
    → All IsPart ps
    → map trim (split_at 59 (join_from p ps)) ≡ p ∷ ps
unfolding join_from split_at
join_from-parts p [] (whole, trimmed) h =
    ap (map trim) (split_at-without 59 p whole) ∙ rw trimmed refl
join_from-parts p (q ∷ qs) (whole, trimmed) (hq, hs) =
    let rest = join_from q qs in
    ap (map trim) (split_at-append 59 p (String.◌∷◌ space rest) semicolon whole refl)
    ∙ ap (λ t. trim p ∷ t) (trim-space (split_at 59 rest) ∙ join_from-parts q qs hq hs)
    ∙ rw trimmed refl

map-IsPart : (ws : List String) → All (λ w. has_char 59 w ≡ false) ws → All IsPart (map trim ws)
map-IsPart [] h = tt
map-IsPart (w ∷ ws) (h, hs) = (trim-IsPart w h, map-IsPart ws hs)

cookies-IsPart : (h : String) → All IsPart (cookies h)
unfolding cookies
cookies-IsPart h =
    filter_by-All (λ p. not (is_nil_text p)) IsPart (map trim (split_at 59 h))
      (map-IsPart (split_at 59 h) (split_at-parts 59 h))

cookies-full : (h : String) → All (λ p. not (is_nil_text p) ≡ true) (cookies h)
unfolding cookies
cookies-full h = filter_by-holds (λ p. not (is_nil_text p)) (map trim (split_at 59 h))

cookies-empty : cookies "" ≡ []
unfolding cookies split_at trim trim_start trim_end filter_by
cookies-empty = refl

-- Parts that are joined are read as they were.
join-cookies :
    (ps : List String)
    → All IsPart ps
    → All (λ p. not (is_nil_text p) ≡ true) ps
    → cookies (Option.get_or (join ps) "") ≡ ps
unfolding cookies
join-cookies [] h full = cookies-empty
join-cookies (p ∷ ps) (hp, hs) full =
    ap (filter_by (λ q. not (is_nil_text q))) (join_from-parts p ps hp hs)
    ∙ filter_by-same (λ q. not (is_nil_text q)) (p ∷ ps) full

module _ (lower : String → String) where
  strip_cookies-some :
      (h : String)
      → (strip_cookies lower (some h) ≡ join (filter_by (λ p. not (is_own lower p)) (cookies h)))
        ⊎ ((strip_cookies lower (some h) ≡ none) × (h ≡ ""))
  unfolding strip_cookies
  strip_cookies-some h = elim (Bool-cases (str_eq h "")) [
    | inr there ↦ inl (rw (strip_cookies, there))
    | inl empty ↦ inr (rw (strip_cookies, empty), (eq_iff h "").0 empty)
  ]

  -- The target reads in the stripped header exactly the cookies of the request's, in their order and
  -- unchanged, less the gateway's own; where the header is dropped, there are none.
  pub strip_cookies-reads :
      (h : String)
      → cookies (Option.get_or (strip_cookies lower (some h)) "")
        ≡ filter_by (λ p. not (is_own lower p)) (cookies h)
  unfolding filter_by
  strip_cookies-reads h =
      let kept = filter_by (λ p. not (is_own lower p)) (cookies h) in
      let reads : cookies (Option.get_or (join kept) "") ≡ kept =
        join-cookies kept
          (filter_by-All (λ p. not (is_own lower p)) IsPart (cookies h) (cookies-IsPart h))
          (filter_by-All (λ p. not (is_own lower p)) (λ p. not (is_nil_text p) ≡ true) (cookies h)
            (cookies-full h)) in
      let read : Option String → List String = λ o. cookies (Option.get_or o "") in
      elim (strip_cookies-some h) [
        | inl stripped ↦ ap read stripped ∙ reads
        | inr (dropped, empty) ↦
            ap read dropped
            ∙ cookies-empty
            ∙ sym (
                ap (λ t. filter_by (λ p. not (is_own lower p)) (cookies t)) empty
                ∙ ap (filter_by (λ p. not (is_own lower p))) cookies-empty)
      ]
