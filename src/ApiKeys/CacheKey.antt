-- ===== src/ApiKeys/CacheKey.antt =====
-- A cache key determines the route and the hash of the key, where hashes have no colon.
use cluster_gate.Prelude.{
  true, false, refl, String, Bool, str_append, ◌≡◌, ap, ◌==◌, ◌∙◌, arith, ◌||◌, sym,
}
use Prim.Native.Char.{Char, char, code}
use text.Mathlib.TextLemmas.{nil-append, cons-append}
use cluster_gate.ApiKeys.{cache_key}

unfoldable pub colon_in : String → Bool
colon_in String.[] = false
colon_in (String.◌∷◌ c s) = code c == 58 || colon_in s

-- What is relied on: a hexadecimal digest has no colon.
abbrev pub NoColon : String → Type 0
NoColon s = colon_in s ≡ false

abbrev colon : Char
colon = char 58 tt

colon-append : (t : String) → str_append ":" t ≡ String.◌∷◌ colon t
colon-append t = cons-append colon "" t ∙ ap (λ s. String.◌∷◌ colon s) (nil-append t)

colon_in-append : (s t : String) → colon_in (str_append s (String.◌∷◌ colon t)) ≡ true
unfolding colon_in
colon_in-append String.[] t = ap colon_in (nil-append (String.◌∷◌ colon t))
colon_in-append (String.◌∷◌ c s) t =
    ap colon_in (cons-append c s (String.◌∷◌ colon t)) ∙ ground (arith, colon_in-append s t)

cons-injective : (c d : Char) (s t : String) → String.◌∷◌ c s ≡ String.◌∷◌ d t → (c ≡ d) × (s ≡ t)
cons-injective c d s t e = (cc, cc)

split_at_colon :
    (r r' h h' : String)
    → NoColon h
    → NoColon h'
    → str_append r (String.◌∷◌ colon h) ≡ str_append r' (String.◌∷◌ colon h')
    → (r ≡ r') × (h ≡ h')
split_at_colon String.[] String.[] h h' n n' e =
    let e' = sym (nil-append (String.◌∷◌ colon h)) ∙ e ∙ nil-append (String.◌∷◌ colon h') in
    (refl, (cons-injective colon colon h h' e').1)
split_at_colon String.[] (String.◌∷◌ c r') h h' n n' e =
    let rest = str_append r' (String.◌∷◌ colon h') in
    let e' = sym (nil-append (String.◌∷◌ colon h)) ∙ e ∙ cons-append c r' (String.◌∷◌ colon h') in
    let m : colon_in h ≡ true =
      ap colon_in (cons-injective colon c h rest e').1 ∙ colon_in-append r' h' in
    cc
split_at_colon (String.◌∷◌ c r) String.[] h h' n n' e =
    let rest = str_append r (String.◌∷◌ colon h) in
    let e' = sym (cons-append c r (String.◌∷◌ colon h)) ∙ e ∙ nil-append (String.◌∷◌ colon h') in
    let m : colon_in h' ≡ true =
      ap colon_in (sym (cons-injective c colon rest h' e').1) ∙ colon_in-append r h in
    cc
split_at_colon (String.◌∷◌ c r) (String.◌∷◌ c' r') h h' n n' e =
    let e' =
      sym (cons-append c r (String.◌∷◌ colon h)) ∙ e ∙ cons-append c' r' (String.◌∷◌ colon h') in
    let (same, rest) =
      cons-injective c c' (str_append r (String.◌∷◌ colon h)) (str_append r' (String.◌∷◌ colon h'))
        e' in
    let (routes, hashes) = split_at_colon r r' h h' n n' rest in (cc, hashes)

pub cache_key-injective :
    (r r' h h' : String)
    → NoColon h
    → NoColon h'
    → cache_key r h ≡ cache_key r' h'
    → (r ≡ r') × (h ≡ h')
unfolding cache_key
cache_key-injective r r' h h' n n' e =
    split_at_colon r r' h h' n n'
      (ap (str_append r) (sym (colon-append h)) ∙ e ∙ ap (str_append r') (colon-append h'))
