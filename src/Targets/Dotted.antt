-- ===== src/Targets/Dotted.antt =====
-- Dotted addresses, and that what stands inside an IPv6 address is one.
use cluster_gate.Prelude.{
  ℕ, true, [], ◌∷◌, refl, inl, inr, String, Bool, split_at, All, ◌≡◌, arith, str_append, ◌||◌, ◌==◌,
  Bool-cases, List, some, zero, suc, get_elem?, Option-cases, ltb, ◌/◌, ◌%◌, strip_prefix, none,
  digits, false, has_char, before,
}
use cluster_gate.Targets.Hosts.{
  all_chars, digit_text, is_digit, digit_texts, octet_text, embedded_ipv4, dotted_quad, template,
  is_quad, mapped_hex, unbracket,
}
use Prim.Native.Char.{code}
use text.Mathlib.TextLemmas.{nil-append, cons-append}
use mathlib.Core.Path.{subst}
use mathlib.Core.Option

abbrev pub is_dotted_char : ℕ → Bool
is_dotted_char c = is_digit c || c == 46

abbrev pub IsDotted : String → Type 0
IsDotted s = all_chars is_dotted_char s ≡ true

module _ (p q : ℕ → Bool) where
  all_chars-imp :
      (s : String)
      → ((c : ℕ) → p c ≡ true → q c ≡ true)
      → all_chars p s ≡ true
      → all_chars q s ≡ true
  unfolding all_chars
  all_chars-imp String.[] f h = refl
  all_chars-imp (String.◌∷◌ c s) f h = ground (arith, f (code c), all_chars-imp s f)

all_chars-append :
    (p : ℕ → Bool) (s t : String)
    → all_chars p s ≡ true
    → all_chars p t ≡ true
    → all_chars p (str_append s t) ≡ true
unfolding all_chars
all_chars-append p String.[] t hs ht = rw (nil-append t) ht
all_chars-append p (String.◌∷◌ c s) t hs ht =
    rw (cons-append c s t) (ground (arith, all_chars-append p s t))

split_at-cons : (d : ℕ) (s : String) → (w : String) × (ws : List String) × (split_at d s ≡ w ∷ ws)
unfolding split_at
split_at-cons d String.[] = ("", [], refl)
split_at-cons d (String.◌∷◌ c s) =
    let (w, ws, e) = split_at-cons d s in
    elim (Bool-cases (code c == d)) [
      | inl here ↦ ("", split_at d s, rw here refl)
      | inr past ↦ (String.◌∷◌ c w, ws, rw (past, e) refl)
    ]

split_at-IsDotted :
    (s : String) → All (λ w. all_chars is_digit w ≡ true) (split_at 46 s) → IsDotted s
unfolding split_at all_chars
split_at-IsDotted String.[] h = refl
split_at-IsDotted (String.◌∷◌ c s) h =
    let (w, ws, e) = split_at-cons 46 s in
    elim (Bool-cases (code c == 46)) [
      | inl here ↦ ground (arith, split_at-IsDotted s (rw here at h).1)
      | inr past ↦
          let parts = rw (past, e) at h in
          let rest = split_at-IsDotted s (rw e (ground (arith, parts.0), parts.1)) in
          ground (arith, parts.0, rest)
    ]

get_elem?-All :
    (P : String → Type 0) (ws : List String) (n : ℕ)
    → P ""
    → All P ws
    → P (Option.get_or (get_elem? ws n) "")
get_elem?-All P [] n e h = e
get_elem?-All P (w ∷ ws) zero e h = h.0
get_elem?-All P (w ∷ ws) (suc n) e h = get_elem?-All P ws n e h.1

template-IsDotted : (ws : List String) → All IsDotted ws → IsDotted (template ws)
unfolding template all_chars
template-IsDotted [] h = refl
template-IsDotted (w ∷ ws) h =
    all_chars-append is_dotted_char w (template ws) h.0 (template-IsDotted ws h.1)

stop : IsDotted "."
unfolding all_chars
stop = refl

digit_text-IsDotted : (n : ℕ) → IsDotted (digit_text n)
unfolding digit_text digit_texts all_chars
digit_text-IsDotted n = get_elem?-All IsDotted digit_texts n refl all
  where
    all : All IsDotted digit_texts
    all = (refl, (refl, (refl, (refl, (refl, (refl, (refl, (refl, (refl, (refl, tt))))))))))

octet_text-IsDotted : (n : ℕ) → IsDotted (octet_text n)
unfolding octet_text
octet_text-IsDotted n =
    let d = digit_text-IsDotted in
    elim (Bool-cases (ltb n 10)) [
      | inl one ↦ rw one (d n)
      | inr more ↦ elim (Bool-cases (ltb n 100)) [
        | inl two ↦
            let parts = digit_text (n / 10) ∷ digit_text (n % 10) ∷ [] in
            rw (more, two) (template-IsDotted parts (d (n / 10), (d (n % 10), tt)))
        | inr three ↦
            let parts =
              digit_text (n / 100) ∷ digit_text (n / 10 % 10) ∷ digit_text (n % 10) ∷ [] in
            rw (more, three)
              (template-IsDotted parts (d (n / 100), (d (n / 10 % 10), (d (n % 10), tt))))
      ]
    ]

dotted_quad-IsDotted : (hi lo : ℕ) → IsDotted (dotted_quad hi lo)
unfolding dotted_quad
dotted_quad-IsDotted hi lo =
    let o = octet_text-IsDotted in
    let parts =
      octet_text (hi / 256)
      ∷ "."
      ∷ octet_text (hi % 256)
      ∷ "."
      ∷ octet_text (lo / 256)
      ∷ "."
      ∷ octet_text (lo % 256)
      ∷ [] in
    template-IsDotted parts
      (o (hi / 256), (stop, (o (hi % 256), (stop, (o (lo / 256), (stop, (o (lo % 256), tt)))))))

mapped_hex-IsDotted : (ws : List String) (d : String) → mapped_hex ws ≡ some d → IsDotted d
unfolding mapped_hex
mapped_hex-IsDotted [] d h = absurd (ground arith)
mapped_hex-IsDotted (w ∷ []) d h = absurd (ground arith)
mapped_hex-IsDotted (w ∷ v ∷ []) d h =
    let hi = Option.get_or (digits 16 none w) 0 in
    let lo = Option.get_or (digits 16 none v) 0 in
    let same : dotted_quad hi lo ≡ d = ground arith in
    subst IsDotted same (dotted_quad-IsDotted hi lo)
mapped_hex-IsDotted (w ∷ v ∷ u ∷ ws) d h = absurd (ground arith)

is_quad-All : (ws : List String) → is_quad ws ≡ true → All (λ w. all_chars is_digit w ≡ true) ws
unfolding is_quad
is_quad-All [] h = absurd (ground arith)
is_quad-All (a ∷ []) h = absurd (ground arith)
is_quad-All (a ∷ b ∷ []) h = absurd (ground arith)
is_quad-All (a ∷ b ∷ c ∷ []) h = absurd (ground arith)
is_quad-All (a ∷ b ∷ c ∷ d ∷ []) h =
    (ground arith, (ground arith, (ground arith, (ground arith, tt))))
is_quad-All (a ∷ b ∷ c ∷ d ∷ e ∷ ws) h = absurd (ground arith)

pub embedded_ipv4-IsDotted : (s d : String) → embedded_ipv4 s ≡ some d → IsDotted d
unfolding embedded_ipv4
embedded_ipv4-IsDotted s d h = elim (Option-cases (strip_prefix "::ffff:" s)) [
  | inl other ↦ absurd (ground (arith, other))
  | inr (r, e) ↦ elim (Bool-cases (is_quad (split_at 46 r))) [
    | inl quad ↦
        let same : r ≡ d = ground (arith, e, quad) in
        subst IsDotted same (split_at-IsDotted r (is_quad-All (split_at 46 r) quad))
    | inr other ↦ mapped_hex-IsDotted (split_at 58 r) d (ground (arith, e, other))
  ]
]

pub IsDotted-has_char :
    (d : ℕ) (s : String) → is_dotted_char d ≡ false → IsDotted s → has_char d s ≡ false
unfolding has_char all_chars
IsDotted-has_char d String.[] e h = refl
IsDotted-has_char d (String.◌∷◌ c s) e h = ground (arith, IsDotted-has_char d s)

pub before-same : (d : ℕ) (s : String) → has_char d s ≡ false → before d s ≡ s
unfolding has_char before
before-same d String.[] h = refl
before-same d (String.◌∷◌ c s) h = ground (arith, before-same d s)

pub unbracket-same : (s : String) → IsDotted s → unbracket s ≡ s
unfolding unbracket strip_prefix all_chars
unbracket-same String.[] h = refl
unbracket-same (String.◌∷◌ c s) h = ground arith
