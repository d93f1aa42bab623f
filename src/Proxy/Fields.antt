-- ===== src/Proxy/Fields.antt =====
-- JavaScript objects whose keys are the names of headers: lists of names and values, in their order.
use mathlib.Core.Option
use cluster_gate.Prelude.{
  List, some, true, false, [], ◌∷◌, refl, inl, inr, String, find_first, ◌≡◌, Bool, All, filter_by,
  if◌then◌else◌, str_eq, not, Bool-cases, eq_iff, ap, arith, sym, ◌∙◌, none, Option,
}

module _ {A : Type 0} where
  abbrev pub is_key : String → String × A → Bool
  is_key key p = str_eq p.0 key

  -- `headers[name] = value`: in place where the key is there, else at the end.
  unfoldable pub set_header : String → A → List (String × A) → List (String × A)
  set_header name value [] = (name, value) ∷ []
  set_header name value (p ∷ headers) =
      let rest = set_header name value headers in
      if is_key name p then (name, value) ∷ headers else p ∷ rest

  abbrev pub delete_header : String → List (String × A) → List (String × A)
  delete_header name headers = filter_by (λ p. not (is_key name p)) headers

  module _ (Q : String × A → Type 0) where
    pub set_header-All :
        (name : String) (v : A) (hs : List (String × A))
        → Q (name, v)
        → All Q hs
        → All Q (set_header name v hs)
    unfolding set_header
    set_header-All name v [] q h = (q, tt)
    set_header-All name v (p ∷ hs) q h = elim (Bool-cases (is_key name p)) [
      | inl here ↦ rw here (q, h.1)
      | inr there ↦ rw there (h.0, set_header-All name v hs q h.1)
    ]

  pub find_first-set_header :
      (name : String) (v : A) (hs : List (String × A))
      → find_first (is_key name) (set_header name v hs) ≡ some (name, v)
  unfolding set_header find_first
  find_first-set_header name v [] = rw ((eq_iff name name).1 refl) refl
  find_first-set_header name v (p ∷ hs) = elim (Bool-cases (is_key name p)) [
    | inl here ↦ rw here (rw ((eq_iff name name).1 refl) refl)
    | inr there ↦ rw there (rw there (find_first-set_header name v hs))
  ]

  pub find_first-filter_by :
      (p q : String × A → Bool) (hs : List (String × A))
      → ((x : String × A) → p x ≡ true → q x ≡ true)
      → find_first p (filter_by q hs) ≡ find_first p hs
  unfolding find_first filter_by
  find_first-filter_by p q [] keeps = refl
  find_first-filter_by p q (x ∷ hs) keeps = elim (Bool-cases (q x)) [
    | inl stays ↦ rw stays (ground (arith, find_first-filter_by p q hs keeps))
    | inr goes ↦
        let other : p x ≡ false = ground (arith, keeps x) in
        rw (goes, other) (find_first-filter_by p q hs keeps)
  ]

  pub find_first-set_header_other :
      (k name : String) (v : A) (hs : List (String × A))
      → str_eq name k ≡ false
      → find_first (is_key k) (set_header name v hs) ≡ find_first (is_key k) hs
  unfolding set_header find_first
  find_first-set_header_other k name v [] other = rw other refl
  find_first-set_header_other k name v (p ∷ hs) other = elim (Bool-cases (is_key name p)) [
    | inl here ↦
        let same : p.0 ≡ name = (eq_iff p.0 name).0 here in
        let not_k : str_eq p.0 k ≡ false = rw same other in rw here (rw other (rw not_k refl))
    | inr there ↦ rw there (ground (arith, find_first-set_header_other k name v hs other))
  ]

  pub keys-differ :
      (k key : String)
      → str_eq key k ≡ false
      → (x : String × A) → is_key k x ≡ true
      → not (is_key key x) ≡ true
  keys-differ k key differs x here = elim (Bool-cases (is_key key x)) [
    | inr other ↦ rw other refl
    | inl both ↦
        let clash : str_eq key k ≡ true =
          ap (λ n. str_eq n k) (sym ((eq_iff x.0 key).0 both)) ∙ here in
        absurd (ground arith)
  ]

  -- `headers[key]`
  abbrev pub value_of : String → List (String × A) → Option A
  value_of key headers = Option.map (λ p. p.1) (find_first (is_key key) headers)

  unfoldable pub set_all : List (String × A) → List (String × A) → List (String × A)
  unfolding set_header
  set_all [] headers = headers
  set_all ((name, value) ∷ ps) headers = set_all ps (set_header name value headers)

  -- The value that the last pair with a name gives.
  unfoldable pub last_of : String → List (String × A) → Option A
  unfolding Option.or_else
  last_of key [] = none
  last_of key ((name, value) ∷ ps) =
      Option.or_else (last_of key ps) (if str_eq name key then some value else none)

  value_of-set_header :
      (k name : String) (v : A) (hs : List (String × A))
      → value_of k (set_header name v hs)
        ≡ Option.or_else (if str_eq name k then some v else none) (value_of k hs)
  unfolding Option.or_else
  value_of-set_header k name v hs = elim (Bool-cases (str_eq name k)) [
    | inl same ↦
        let e : name ≡ k = (eq_iff name k).0 same in
        rw same (
          ap (Option.map (λ p. p.1)) (
            ap (λ n. find_first (is_key n) (set_header name v hs)) (sym e)
            ∙ find_first-set_header name v hs))
    | inr other ↦
        rw other (ap (Option.map (λ p. p.1)) (find_first-set_header_other k name v hs other))
  ]

  or_else_assoc :
      (a b c : Option A)
      → Option.or_else a (Option.or_else b c) ≡ Option.or_else (Option.or_else a b) c
  unfolding Option.or_else
  or_else_assoc none b c = refl
  or_else_assoc (some a) b c = refl

  pub value_of-set_all :
      (k : String) (ps hs : List (String × A))
      → value_of k (set_all ps hs) ≡ Option.or_else (last_of k ps) (value_of k hs)
  unfolding set_all last_of Option.or_else
  value_of-set_all k [] hs = refl
  value_of-set_all k ((name, value) ∷ ps) hs =
      value_of-set_all k ps (set_header name value hs)
      ∙ ap (Option.or_else (last_of k ps)) (value_of-set_header k name value hs)
      ∙ or_else_assoc (last_of k ps) (if str_eq name k then some value else none) (value_of k hs)

  find_first-no_key :
      (k : String) (hs : List (String × A)) → find_first (is_key k) (delete_header k hs) ≡ none
  unfolding find_first filter_by
  find_first-no_key k [] = refl
  find_first-no_key k (p ∷ hs) = elim (Bool-cases (is_key k p)) [
    | inl here ↦ rw here (find_first-no_key k hs)
    | inr there ↦ rw there (rw there (find_first-no_key k hs))
  ]

  pub value_of-delete_header :
      (k name : String) (hs : List (String × A))
      → value_of k (delete_header name hs) ≡ (if str_eq name k then none else value_of k hs)
  value_of-delete_header k name hs = elim (Bool-cases (str_eq name k)) [
    | inl same ↦
        let e : name ≡ k = (eq_iff name k).0 same in
        rw same (
          ap (Option.map (λ p. p.1))
            (ap (λ n. find_first (is_key k) (delete_header n hs)) e ∙ find_first-no_key k hs))
    | inr other ↦ rw other (
        ap (Option.map (λ p. p.1)) (
          find_first-filter_by (is_key k) (λ p. not (is_key name p)) hs (keys-differ k name other)))
  ]
