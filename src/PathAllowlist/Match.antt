-- ===== src/PathAllowlist/Match.antt =====
-- pathAllowlist.isPathAllowed and routeSubPath: the segments of a request path, those of a pattern,
use mathlib.Core.Option
-- and whether they match.
use cluster_gate.Prelude.{
  none, some, true, false, [], ◌∷◌, List, Option, if◌then◌else◌, Bool, not, ◌&&◌, ◌==◌, ltb, ◌||◌,
  length, ◌++◌, drop,
}
use cluster_gate.PathAllowlist.{
  Text, validate_path_pattern, normalized, any, slash, is_nil, same_text, star, split, dot, dots,
  contains, backslash,
}
use cluster_gate.PathAllowlist.Decode.{safe_decode}

-- A segment that an upstream could not read as more than one, or as a step in the tree.
unfoldable pub is_ambiguous : Text → Bool
is_ambiguous s = same_text s dot || same_text s dots || contains slash s || contains backslash s

-- The loop over the raw segments.
unfoldable pub decode_segments : List Text → Option (List Text)
unfolding is_ambiguous
decode_segments [] = some []
decode_segments (s ∷ ss) =
    let rest = decode_segments ss in
    if is_nil s then none else elim (safe_decode s) [
      | none ↦ none
      | some d ↦ if is_ambiguous d then none else Option.map (λ r. d ∷ r) rest
    ]

-- `raw.slice(0, -1)` where the last segment is empty.
pub without_last_empty : List Text → List Text
without_last_empty [] = []
without_last_empty (s ∷ ss) =
    let rest = without_last_empty ss in if is_nil s && is_nil ss then [] else s ∷ rest

unfoldable pub request_segments : Text → Option (List Text)
unfolding decode_segments without_last_empty
request_segments [] = none
request_segments (c ∷ cs) =
    if not (c == slash) || contains backslash (c ∷ cs)
    then none
    else decode_segments (without_last_empty (split cs))

-- `safeDecode(s) ?? s`
unfoldable pub decoded_or_raw : List Text → List Text
decoded_or_raw [] = []
decoded_or_raw (s ∷ ss) = Option.get_or (safe_decode s) s ∷ decoded_or_raw ss

unfoldable pub pattern_segments : Text → List Text
unfolding normalized decoded_or_raw
pattern_segments pattern =
    let p = normalized pattern in if is_nil p then [] else decoded_or_raw (split p)

-- `fixed.every(…)`, for a list of segments that is no shorter.
pub every_matches : List Text → List Text → Bool
every_matches [] segments = true
every_matches (p ∷ ps) [] = false
every_matches (p ∷ ps) (s ∷ ss) = (same_text p star || same_text p s) && every_matches ps ss

ends_in_star : List Text → Bool
ends_in_star [] = false
ends_in_star (p ∷ ps) = if is_nil ps then same_text p star else ends_in_star ps

without_last : List Text → List Text
without_last [] = []
without_last (p ∷ ps) = let rest = without_last ps in if is_nil ps then [] else p ∷ rest

unfoldable pub matches_pattern : List Text → List Text → Bool
unfolding every_matches ends_in_star without_last
matches_pattern segments pattern =
    let fixed = without_last pattern in
    if ends_in_star pattern
    then not (ltb (length segments) (length fixed)) && every_matches fixed segments
    else (length segments == length pattern && every_matches pattern segments)

unfoldable pub or_root : Text → Text
or_root [] = slash ∷ []
or_root (c ∷ cs) = c ∷ cs

unfoldable pub entry_allows : List Text → Text → Bool
unfolding matches_pattern pattern_segments validate_path_pattern
entry_allows segments entry = elim (validate_path_pattern entry) [
  | none ↦ matches_pattern segments (pattern_segments entry)
  | some e ↦ false
]

unfoldable pub is_path_allowed : Text → List Text → Bool
unfolding entry_allows request_segments or_root any
is_path_allowed sub_path [] = true
is_path_allowed sub_path (entry ∷ entries) = elim (request_segments (or_root sub_path)) [
  | none ↦ false
  | some segments ↦ any (entry_allows segments) (entry ∷ entries)
]

unfoldable pub starts_with : Text → Text → Bool
starts_with [] t = true
starts_with (p ∷ ps) [] = false
starts_with (p ∷ ps) (c ∷ cs) = p == c && starts_with ps cs

-- `publicPath.endsWith('/*') ? publicPath.slice(0, -2) : publicPath`
unfoldable pub base_of : Text → Text
base_of [] = []
base_of (c ∷ cs) =
    let rest = base_of cs in if same_text (c ∷ cs) (slash ∷ star) then [] else c ∷ rest

unfoldable pub route_sub_path : Text → Text → Text
unfolding base_of starts_with or_root
route_sub_path public_path request_path =
    let base = base_of public_path in
    if not (same_text base (slash ∷ []))
      && (same_text request_path base || starts_with (base ++ slash ∷ []) request_path)
    then or_root (drop (length base) request_path)
    else request_path
