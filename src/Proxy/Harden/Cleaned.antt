-- ===== src/Proxy/Harden/Cleaned.antt =====
-- What the cleaning of Set-Cookie leaves.
use cluster_gate.Prelude.{
  before, trim, filter_by, ◌++◌, if◌then◌else◌, count_by, All, not, ◌≤◌, [], ◌∷◌, inl, inr, String,
  List, ◌≡◌, Bool-cases, find_first, refl, eq_iff, true, false, Bool, str_eq, arith, ap, sym, ◌∙◌,
}
use cluster_gate.Proxy.Headers.{HeaderValue}
use cluster_gate.Proxy.Harden.{
  cookie_name, kept_cookies, is_reserved, put_cookies, clean_cookies, is_named, is_dropped, values,
}
use mathlib.Core.List.{append-nil}
use cluster_gate.Proxy.Harden.Names.{is_own_name, unprefixed-is_own_name}
use cluster_gate.Proxy.Fields.{set_header, is_key}

filter_by-same_test :
    (p q : String → Bool) (xs : List String)
    → ((x : String) → p x ≡ q x)
    → filter_by p xs ≡ filter_by q xs
unfolding filter_by
filter_by-same_test p q [] same = refl
filter_by-same_test p q (x ∷ xs) same = ground (arith, same x, filter_by-same_test p q xs same)

module _ (lower : String → String) where
  -- A header that neither widens a worker's scope nor shares the page's browsing context.
  abbrev pub IsAllowed : String × HeaderValue → Type 0
  IsAllowed p =
      (str_eq (lower p.0) "service-worker-allowed" ≡ false)
      × (str_eq (lower p.0) "cross-origin-opener-policy" ≡ false)

  -- A cookie that is set under a name of the gateway: what stands before the first equals sign of its
  -- first part.
  unfoldable pub sets_own : String → Bool
  unfolding before trim
  sets_own c = is_own_name (lower (trim (before 61 (before 59 c))))

  -- The cookies that a response sets.
  unfoldable pub set_cookies : List (String × HeaderValue) → List String
  set_cookies [] = []
  set_cookies (p ∷ hs) =
      let rest = set_cookies hs in
      if is_named lower "set-cookie" p then values p.1 ++ rest else rest

  is_reserved-sets_own : (c : String) → is_reserved lower c ≡ sets_own c
  unfolding cookie_name sets_own
  is_reserved-sets_own c = unprefixed-is_own_name (lower (trim (before 61 (before 59 c))))

  kept_cookies-filter_by :
      (v : HeaderValue) → kept_cookies lower v ≡ filter_by (λ c. not (sets_own c)) (values v)
  kept_cookies-filter_by v =
      filter_by-same_test (λ c. not (is_reserved lower c)) (λ c. not (sets_own c)) (values v)
        (λ c. ap not (is_reserved-sets_own c))

  put_cookies-IsAllowed :
      (p : String × HeaderValue) (cs : List String) (hs : List (String × HeaderValue))
      → IsAllowed p
      → All IsAllowed hs
      → All IsAllowed (put_cookies p.0 cs hs)
  put_cookies-IsAllowed p [] hs here h = h
  put_cookies-IsAllowed p (c ∷ cs) hs here h = (here, h)

  pub clean_cookies-IsAllowed :
      (hs : List (String × HeaderValue)) → All IsAllowed hs → All IsAllowed (clean_cookies lower hs)
  unfolding clean_cookies
  clean_cookies-IsAllowed [] h = tt
  clean_cookies-IsAllowed (p ∷ hs) (here, h) = elim (Bool-cases (is_named lower "set-cookie" p)) [
    | inl is ↦ rw is (put_cookies-IsAllowed p (kept_cookies lower p.1) hs here h)
    | inr other ↦ rw other (here, clean_cookies-IsAllowed hs h)
  ]

  set_cookies-unnamed :
      (hs : List (String × HeaderValue))
      → count_by (is_named lower "set-cookie") hs ≤ 0
      → set_cookies hs ≡ []
  unfolding set_cookies count_by
  set_cookies-unnamed [] h = refl
  set_cookies-unnamed (p ∷ hs) h = elim (Bool-cases (is_named lower "set-cookie" p)) [
    | inl is ↦ absurd (ground arith)
    | inr other ↦ rw other (set_cookies-unnamed hs (ground arith))
  ]

  set_cookies-put_cookies :
      (key : String) (cs : List String) (hs : List (String × HeaderValue))
      → str_eq (lower key) "set-cookie" ≡ true
      → set_cookies (put_cookies key cs hs) ≡ cs ++ set_cookies hs
  unfolding set_cookies
  set_cookies-put_cookies key [] hs is = refl
  set_cookies-put_cookies key (c ∷ cs) hs is = rw is refl

  pub set_cookies-clean_cookies :
      (hs : List (String × HeaderValue))
      → count_by (is_named lower "set-cookie") hs ≤ 1
      → set_cookies (clean_cookies lower hs) ≡ filter_by (λ c. not (sets_own c)) (set_cookies hs)
  unfolding set_cookies clean_cookies count_by
  set_cookies-clean_cookies [] once = unfold filter_by in refl
  set_cookies-clean_cookies (p ∷ hs) once = elim (Bool-cases (is_named lower "set-cookie" p)) [
    | inl is ↦
        let nothing = set_cookies-unnamed hs (ground arith) in
        rw is (
          set_cookies-put_cookies p.0 (kept_cookies lower p.1) hs is
          ∙ ap (λ l. kept_cookies lower p.1 ++ l) nothing
          ∙ append-nil (kept_cookies lower p.1)
          ∙ kept_cookies-filter_by p.1
          ∙ ap (filter_by (λ c. not (sets_own c)))
              (sym (append-nil (values p.1)) ∙ ap (λ l. values p.1 ++ l) (sym nothing)))
    | inr other ↦ rw other (rw other (set_cookies-clean_cookies hs (ground arith)))
  ]

  pub set_cookies-filter_by :
      (q : String × HeaderValue → Bool) (hs : List (String × HeaderValue))
      → ((p : String × HeaderValue) → is_named lower "set-cookie" p ≡ true → q p ≡ true)
      → set_cookies (filter_by q hs) ≡ set_cookies hs
  unfolding set_cookies filter_by
  set_cookies-filter_by q [] keeps = refl
  set_cookies-filter_by q (p ∷ hs) keeps = elim (Bool-cases (q p)) [
    | inl stays ↦ rw stays (
        ap (λ l. if is_named lower "set-cookie" p then values p.1 ++ l else l)
          (set_cookies-filter_by q hs keeps))
    | inr goes ↦
        let other : is_named lower "set-cookie" p ≡ false = ground (arith, keeps p) in
        rw (goes, other) (set_cookies-filter_by q hs keeps)
  ]

  pub set_cookies-set_header :
      (name : String) (v : HeaderValue) (hs : List (String × HeaderValue))
      → str_eq (lower name) "set-cookie" ≡ false
      → set_cookies (set_header name v hs) ≡ set_cookies hs
  unfolding set_cookies set_header
  set_cookies-set_header name v [] other = rw other refl
  set_cookies-set_header name v (p ∷ hs) other = elim (Bool-cases (is_key name p)) [
    | inl here ↦
        let e : p.0 ≡ name = (eq_iff p.0 name).0 here in
        let not_p : is_named lower "set-cookie" p ≡ false =
          ap (λ n. str_eq (lower n) "set-cookie") e ∙ other in
        rw here (rw (other, not_p) refl)
    | inr there ↦ rw there (
        ap (λ l. if is_named lower "set-cookie" p then values p.1 ++ l else l)
          (set_cookies-set_header name v hs other))
  ]

  pub named-other :
      (k name : String) (p : String × HeaderValue)
      → is_named lower name p ≡ true
      → str_eq (lower k) name ≡ false
      → is_key k p ≡ false
  named-other k name p is other = elim (Bool-cases (is_key k p)) [
    | inr differs ↦ differs
    | inl same ↦
        let e : p.0 ≡ k = (eq_iff p.0 k).0 same in
        let clash : str_eq (lower k) name ≡ true = ap (λ n. str_eq (lower n) name) (sym e) ∙ is in
        absurd (ground arith)
  ]

  find_first-put_cookies :
      (k key : String) (cs : List String) (hs : List (String × HeaderValue))
      → str_eq key k ≡ false
      → find_first (is_key k) (put_cookies key cs hs) ≡ find_first (is_key k) hs
  unfolding find_first
  find_first-put_cookies k key [] hs other = refl
  find_first-put_cookies k key (c ∷ cs) hs other = rw other refl

  pub find_first-clean_cookies :
      (k : String) (hs : List (String × HeaderValue))
      → str_eq (lower k) "set-cookie" ≡ false
      → find_first (is_key k) (clean_cookies lower hs) ≡ find_first (is_key k) hs
  unfolding clean_cookies find_first
  find_first-clean_cookies k [] other = refl
  find_first-clean_cookies k (p ∷ hs) other = elim (Bool-cases (is_named lower "set-cookie" p)) [
    | inl is ↦
        let not_k = named-other k "set-cookie" p is other in
        rw is (rw not_k (find_first-put_cookies k p.0 (kept_cookies lower p.1) hs not_k))
    | inr is_not ↦ rw is_not (ground (arith, find_first-clean_cookies k hs other))
  ]

  -- The keys whose headers are left alone.
  abbrev pub IsOther : String → Type 0
  IsOther key =
      (str_eq (lower key) "service-worker-allowed" ≡ false)
      × (str_eq (lower key) "cross-origin-opener-policy" ≡ false)
      × (str_eq (lower key) "set-cookie" ≡ false)
      × (str_eq (lower key) "content-security-policy" ≡ false)

  pub other-stays :
      (k : String) (p : String × HeaderValue)
      → IsOther k
      → is_key k p ≡ true
      → not (is_dropped lower p) ≡ true
  other-stays k p (sw, coop, _, _) same =
      let e : p.0 ≡ k = (eq_iff p.0 k).0 same in
      let a : is_named lower "service-worker-allowed" p ≡ false =
        ap (λ n. str_eq (lower n) "service-worker-allowed") e ∙ sw in
      let b : is_named lower "cross-origin-opener-policy" p ≡ false =
        ap (λ n. str_eq (lower n) "cross-origin-opener-policy") e ∙ coop in
      rw a (rw b refl)
