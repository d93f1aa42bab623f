-- ===== src/Proxy/Dispatch/Rooted.antt =====
-- A request stays on the host of its target.
use mathlib.Core.Path.{subst}
use cluster_gate.Prelude.{
  All, some, true, false, [], ◌∷◌, List, Option, Bool, ◌&&◌, ◌==◌, ◌++◌, drop, length, find_first,
  ◌≡◌, refl, inl, inr, Bool-cases, Option-cases, arith, ap, sym, ◌∙◌, find_first-holds,
}
use cluster_gate.PathAllowlist.{Text, slash, same_text}
use cluster_gate.PathAllowlist.Covers.{same_text_iff}
use cluster_gate.PathAllowlist.Match.{starts_with, base_of, or_root}
use cluster_gate.Proxy.Dispatch.{
  suffix_path, covers_path, full_target_url, target_path, rewritten, Regexes, PublicRoute,
  without_last_slash, RewriteRule, applies, allows_method, proxy_handler, proxied, find_route,
  route_path,
}

abbrev is_rooted : Text → Bool
is_rooted [] = false
is_rooted (c ∷ cs) = c == slash

-- What is left of a path behind a base that it lies under.
drop-is_rooted :
    (base path : Text)
    → starts_with (base ++ slash ∷ []) path ≡ true
    → (starts_with base path ≡ true) × (is_rooted (drop (length base) path) ≡ true)
unfolding starts_with
drop-is_rooted [] [] h = absurd (ground arith)
drop-is_rooted [] (c ∷ cs) h = (refl, ground arith)
drop-is_rooted (b ∷ bs) [] h = absurd (ground arith)
drop-is_rooted (b ∷ bs) (c ∷ cs) h = ground (arith, drop-is_rooted bs cs)

drop_self : (path : Text) → (starts_with path path ≡ true) × (drop (length path) path ≡ [])
unfolding starts_with
drop_self [] = (refl, refl)
drop_self (c ∷ cs) = ground (arith, drop_self cs)

or_root-is_rooted : (t : Text) → is_rooted t ≡ true → is_rooted (or_root t) ≡ true
unfolding or_root
or_root-is_rooted [] h = absurd (ground arith)
or_root-is_rooted (c ∷ cs) h = h

base_of-mount : (q : Text) → base_of (slash ∷ 114 ∷ slash ∷ q) ≡ slash ∷ 114 ∷ base_of (slash ∷ q)
unfolding base_of same_text
base_of-mount q = refl

below-is_rooted :
    (r path : Text)
    → is_rooted path ≡ true
    → same_text r (slash ∷ []) ≡ false
    → covers_path path r ≡ true
    → (starts_with r path ≡ true) × (is_rooted (or_root (drop (length r) path)) ≡ true)
unfolding starts_with or_root
below-is_rooted [] path rooted other covers = (refl, or_root-is_rooted path rooted)
below-is_rooted (c ∷ cs) path rooted other covers = elim (Bool-cases (same_text path (c ∷ cs))) [
  | inl same ↦
      let e : path ≡ c ∷ cs = (same_text_iff path (c ∷ cs)).0 same in
      let (starts, nothing) = drop_self (c ∷ cs) in rw e (starts, rw nothing refl)
  | inr longer ↦
      let (starts, rest) = drop-is_rooted (c ∷ cs) path (ground arith) in
      (starts, or_root-is_rooted (drop (length (c ∷ cs)) path) rest)
]

suffix_path-below :
    (p r path : Text)
    → base_of p ≡ slash ∷ 114 ∷ r
    → starts_with r path ≡ true
    → suffix_path p (slash ∷ 114 ∷ path) ≡ or_root (drop (length r) path)
unfolding suffix_path starts_with same_text
suffix_path-below p r path base starts = rw (suffix_path, base) (rw starts refl)

suffix_path-is_rooted :
    (q path : Text)
    → is_rooted path ≡ true
    → same_text (base_of (slash ∷ q)) (slash ∷ []) ≡ false
    → covers_path path (base_of (slash ∷ q)) ≡ true
    → is_rooted (suffix_path (slash ∷ 114 ∷ slash ∷ q) (slash ∷ 114 ∷ path)) ≡ true
suffix_path-is_rooted q path rooted other covers =
    let r = base_of (slash ∷ q) in
    let (starts, rest) = below-is_rooted r path rooted other covers in
    ap is_rooted (suffix_path-below (slash ∷ 114 ∷ slash ∷ q) r path (base_of-mount q) starts)
    ∙ rest

find_first-All :
    {A : Type 0} (P : A → Type 0) (p : A → Bool) (xs : List A) (x : A)
    → find_first p xs ≡ some x
    → All P xs
    → P x
unfolding find_first
find_first-All P p [] x e h = absurd (ground arith)
find_first-All P p (y ∷ xs) x e (here, h) = elim (Bool-cases (p y)) [
  | inl mine ↦ let same : y ≡ x = ground arith in subst P same here
  | inr other ↦ find_first-All P p xs x (ground (arith, other)) h
]

handler-found :
    (routes : List PublicRoute) (method path : Text) (origin : Option Text) (r : PublicRoute)
    → (proxy_handler routes method origin path).0 ≡ proxied r
    → (find_route path routes ≡ some r)
      × (allows_method method r ≡ true)
      × (r.maintenance_mode ≡ false)
unfolding proxy_handler
handler-found routes method path origin r e = elim (Option-cases (find_route path routes)) [
  | inl nothing ↦ let h = rw (proxy_handler, nothing) at e in absurd (ground arith)
  | inr (f, found) ↦
      let h = rw (proxy_handler, found) at e in
      let same : f ≡ r = ground arith in
      let allowed : allows_method method f ≡ true = ground arith in
      let runs : f.maintenance_mode ≡ false = ground arith in
      (
        found ∙ ap some same,
        ap (allows_method method) (sym same) ∙ allowed,
        ap (λ x. x.maintenance_mode) (sym same) ∙ runs,
      )
]

found-covers :
    (routes : List PublicRoute) (path q : Text) (r : PublicRoute)
    → find_route path routes ≡ some r
    → r.public_path ≡ slash ∷ 114 ∷ slash ∷ q
    → (r.is_served ≡ true)
      × (covers_path path (route_path r.public_path) ≡ true)
      × (covers_path path (base_of (slash ∷ q)) ≡ true)
unfolding find_route starts_with
found-covers routes path q r found public =
    let holds =
      find_first-holds (λ r. r.is_served && covers_path path (route_path r.public_path)) routes r
        found in
    let below : route_path r.public_path ≡ base_of (slash ∷ q) = ap route_path public in
    let served : r.is_served ≡ true = ground arith in
    let covers : covers_path path (route_path r.public_path) ≡ true = ground arith in
    (served, covers, ap (covers_path path) (sym below) ∙ covers)

abbrev pub IsProxied : Regexes → Text → Text → Text → PublicRoute → Type 0
IsProxied regexes method path target_url r =
    (r.is_served ≡ true)
    × (allows_method method r ≡ true)
    × (r.maintenance_mode ≡ false)
    × (covers_path path (route_path r.public_path) ≡ true)
    × (rest : Text) × (full_target_url regexes r target_url path
        ≡ without_last_slash target_url ++ slash ∷ rest)

-- A rewrite rule that leaves a slash at the start of a path.
abbrev pub KeepsRoot : Regexes → RewriteRule → Type 0
KeepsRoot regexes rule = (t : Text) → is_rooted t ≡ true → is_rooted (regexes.replace rule t) ≡ true

module _ (regexes : Regexes) where
  rewritten-is_rooted :
      (rules : List RewriteRule) (t : Text)
      → All (KeepsRoot regexes) rules
      → is_rooted t ≡ true
      → is_rooted (rewritten regexes rules t) ≡ true
  unfolding rewritten
  rewritten-is_rooted rules t keep h = elim (Option-cases (find_first (applies regexes t) rules)) [
    | inl nothing ↦ rw (rewritten, nothing) h
    | inr (rule, e) ↦
        rw (rewritten, e)
          (find_first-All (KeepsRoot regexes) (applies regexes t) rules rule e keep t h)
  ]

  target_path-is_rooted :
      (r : PublicRoute) (t : Text)
      → All (KeepsRoot regexes) r.rewrite_rules
      → is_rooted (suffix_path r.public_path t) ≡ true
      → is_rooted (target_path regexes r t) ≡ true
  unfolding target_path
  target_path-is_rooted r t keep h = elim (Bool-cases r.strip_prefix) [
    | inl cut ↦ rw (target_path, cut) refl
    | inr kept ↦
        rw (target_path, kept)
          (rewritten-is_rooted r.rewrite_rules (suffix_path r.public_path t) keep h)
  ]

  rooted-slash : (t : Text) → is_rooted t ≡ true → (rest : Text) × (t ≡ slash ∷ rest)
  rooted-slash [] h = absurd (ground arith)
  rooted-slash (c ∷ cs) h = (cs, ap (λ n. n ∷ cs) (ground arith))

  -- A route that a request is passed on for is served, allows the method, is not in maintenance and covers
  -- the path, and the URL that is called, less its query, is the target's without a slash at its end,
  -- followed by a slash and a path: the request stays on the target's host. The route's public path
  -- starts with /r/ and is neither /r/ nor /r//*, the path that Express hands on starts with a slash,
  -- and each rewrite rule of this route leaves a slash at the start of a path.
  pub proxy_handler-IsProxied :
      (routes : List PublicRoute) (method path target_url q : Text) (origin : Option Text)
      (r : PublicRoute)
      → r.public_path ≡ slash ∷ 114 ∷ slash ∷ q
      → same_text (base_of (slash ∷ q)) (slash ∷ []) ≡ false
      → is_rooted path ≡ true
      → All (KeepsRoot regexes) r.rewrite_rules
      → (proxy_handler routes method origin path).0 ≡ proxied r
      → IsProxied regexes method path target_url r
  unfolding full_target_url
  proxy_handler-IsProxied routes method path target_url q origin r public not_root rooted keep e =
      let (found, allowed, runs) = handler-found routes method path origin r e in
      let (served, covers, below) = found-covers routes path q r found public in
      let suffix =
        ap (λ p. is_rooted (suffix_path p (slash ∷ 114 ∷ path))) public
        ∙ suffix_path-is_rooted q path rooted not_root below in
      let (rest, url) =
        rooted-slash (target_path regexes r (slash ∷ 114 ∷ path))
          (target_path-is_rooted r (slash ∷ 114 ∷ path) keep suffix) in
      (served, allowed, runs, covers, rest, ap (λ t. without_last_slash target_url ++ t) url)
