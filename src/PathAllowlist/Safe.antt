-- ===== src/PathAllowlist/Safe.antt =====
-- The segments that a request path is matched by are no steps in the tree.
use cluster_gate.Prelude.{false, ◌≢◌, ◌≡◌, none, List}
use cluster_gate.PathAllowlist.{Text, dot, dots, contains, slash, backslash, validate_path_pattern}
use cluster_gate.PathAllowlist.Match.{pattern_segments}
use cluster_gate.PathAllowlist.Covers.{Covers}

-- Nothing that an upstream could take for a step in the tree or for several segments.
abbrev pub IsPlain : Text → Type 0
IsPlain s = (s ≢ dot) × (s ≢ dots) × (contains slash s ≡ false) × (contains backslash s ≡ false)

-- A valid pattern that covers the segments.
abbrev pub Allows : List Text → Text → Type 0
Allows segments entry =
    (validate_path_pattern entry ≡ none) × Covers (pattern_segments entry) segments
