-- ===== src/Cookies.antt =====
-- backend/src/lib/cookies.ts: the removal of the gateway's own cookies from a Cookie header.
pub mod Trimmed
pub mod Stripped
mod Tests
use cluster_gate.Prelude.{
  none, some, [], ◌∷◌, String, trim, List, split_at, Option, str_append, before, strip_prefix,
  filter_by, present, Bool, not, is_nil_text, starts_with, map,
}
use Prim.Native.Char.{Char, char}

abbrev pub semicolon : Char
semicolon = char 59 tt

abbrev pub space : Char
space = char 32 tt

-- `kept.join('; ')`
unfoldable pub join_from : String → List String → String
join_from p [] = p
join_from p (q ∷ qs) = str_append p (String.◌∷◌ semicolon (String.◌∷◌ space (join_from q qs)))

abbrev pub join : List String → Option String
join [] = none
join (p ∷ ps) = some (join_from p ps)

-- The parts of a header that are not empty.
unfoldable pub cookies : String → List String
unfolding trim split_at
cookies h = filter_by (λ p. not (is_nil_text p)) (map trim (split_at 59 h))

-- `s.toLowerCase()` is a parameter: it follows the tables of Unicode.
module _ (lower : String → String) where
  unfoldable pub is_own : String → Bool
  unfolding before trim strip_prefix
  is_own part = starts_with "cg_" (lower (trim (before 61 part)))

  unfoldable pub strip_cookies : Option String → Option String
  unfolding cookies is_own
  strip_cookies header = elim (present header) [
    | none ↦ none
    | some h ↦ join (filter_by (λ p. not (is_own p)) (cookies h))
  ]
