-- ===== src/PathAllowlist/Tests.antt =====
-- Paths and patterns at concrete texts.
use cluster_gate.Prelude.{true, false, [], ◌∷◌, refl, ◌≡◌}
use Prim.Native.Char.{code}
use Prim.Native.String.{String}
use cluster_gate.PathAllowlist.Match.{is_path_allowed}
use cluster_gate.PathAllowlist.{Text, contains, split, same_text}
use cluster_gate.PathAllowlist.Decode.{safe_decode}

codes : String → Text
codes String.[] = []
codes (String.◌∷◌ c s) = code c ∷ codes s

matching :
    (is_path_allowed (codes "/foo2/a/b") (codes "/foo1" ∷ codes " foo2/*/ " ∷ []) ≡ true)
    × (is_path_allowed (codes "/foo2/a/b") (codes "/foo1" ∷ codes " foo2/* " ∷ []) ≡ true)
    × (is_path_allowed (codes "/foo1/") (codes "/foo1" ∷ []) ≡ true)
    × (is_path_allowed (codes "/users/7/edit") (codes "/users/*/edit" ∷ []) ≡ true)
    × (is_path_allowed (codes "/foo1/../foo3") (codes "/foo1/*" ∷ []) ≡ false)
    × (is_path_allowed (codes "/foo1%2F..%2Ffoo3") (codes "/*" ∷ []) ≡ false)
    × (is_path_allowed (codes "/f%C3%A9") (codes "/fé" ∷ []) ≡ true)
    × (is_path_allowed (codes "/f%C0%AF") (codes "/*" ∷ []) ≡ false)
unfolding codes is_path_allowed safe_decode contains split same_text
matching = (refl, refl, refl, refl, refl, refl, refl, refl)

-- A star that is written as an escape passes the validation of patterns, and is a wildcard then.
encoded_star : is_path_allowed (codes "/api/any/thing") (codes "/api/%2A" ∷ []) ≡ true
unfolding codes is_path_allowed safe_decode contains split same_text
encoded_star = refl
