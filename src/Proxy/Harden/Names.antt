-- ===== src/Proxy/Harden/Names.antt =====
-- The names of the gateway's own cookies.
use cluster_gate.Prelude.{
  strip_prefix, starts_with, ◌||◌, some, none, Option-cases, inl, inr, String, ◌≡◌, refl, false,
  Bool, arith,
}
use cluster_gate.Proxy.Harden.{unprefixed}

-- The name of a cookie of the gateway, with a prefix that its browser strips.
abbrev own_behind : String → String → Bool
own_behind prefix name = elim (strip_prefix prefix name) [
  | none ↦ false
  | some rest ↦ starts_with "cg_" rest
]

abbrev pub is_own_name : String → Bool
is_own_name name =
    starts_with "cg_" name || own_behind "__host-" name || own_behind "__secure-" name

host-alone :
    (n rest : String)
    → strip_prefix "__host-" n ≡ some rest
    → (strip_prefix "cg_" n ≡ none) × (strip_prefix "__secure-" n ≡ none)
unfolding strip_prefix
host-alone String.[] rest h = absurd (ground arith)
host-alone (String.◌∷◌ a String.[]) rest h = absurd (ground arith)
host-alone (String.◌∷◌ a (String.◌∷◌ b String.[])) rest h = absurd (ground arith)
host-alone (String.◌∷◌ a (String.◌∷◌ b (String.◌∷◌ c n))) rest h = (ground arith, ground arith)

secure-alone :
    (n rest : String) → strip_prefix "__secure-" n ≡ some rest → strip_prefix "cg_" n ≡ none
unfolding strip_prefix
secure-alone String.[] rest h = refl
secure-alone (String.◌∷◌ a n) rest h = ground arith

pub unprefixed-is_own_name : (n : String) → starts_with "cg_" (unprefixed n) ≡ is_own_name n
unprefixed-is_own_name n = elim (Option-cases (strip_prefix "__host-" n)) [
  | inr (rest, host) ↦
      let (a, b) = host-alone n rest host in
      rw (unprefixed, is_own_name, own_behind, starts_with, host, a, b) (ground arith)
  | inl no_host ↦ elim (Option-cases (strip_prefix "__secure-" n)) [
    | inr (rest, secure) ↦
        rw
          (
            unprefixed,
            is_own_name,
            own_behind,
            starts_with,
            no_host,
            secure,
            secure-alone n rest secure,
          )
          (ground arith)
    | inl bare ↦ rw (unprefixed, is_own_name, own_behind, starts_with, no_host, bare) (ground arith)
  ]
]
