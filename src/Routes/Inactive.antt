-- ===== src/Routes/Inactive.antt =====
-- Archived routes take no traffic, and a route with a slug cannot be copied.
use cluster_gate.Prelude.{
  some, true, false, [], ◌∷◌, inl, inr, find_first, update_first, All, List, exec, Bool, map, ◌≡◌,
  Bool-cases, arith, ◌⊎◌, ◌&&◌, not, some_of, All-append, M, AppError, ensure, String, ◌>>=◌,
  Option, bind-keeps, Option-cases, str_append, pure, bad_request, present, ℕ, ◌>>◌,
  find_first-holds,
}
use cluster_gate.Routes.{
  Route, RouteTables, Services, insert_route, write_route, is_live, is_unique, is_route,
  insert_version, has_path, is_live_route,
}
use mathlib.Core.Path.{subst}
use cluster_gate.Routes.Save.{create_route, free_soft_deleted_public_path, assert_target, with_slug}
use cluster_gate.Targets.Access.{assert_route_target_allowed}
use cluster_gate.Routes.Names.{archive_tag}

-- A route is live or inactive.
abbrev pub IsQuiet : Route → Type 0
IsQuiet r = (is_live r ≡ true) ⊎ (r.is_active ≡ false)

abbrev pub AllQuiet : RouteTables → Type 0
AllQuiet s = All IsQuiet s.routes

All-update_first :
    {A : Type 0} (P : A → Type 0) (p : A → Bool) (f : A → A) (xs : List A)
    → ((x : A) → P (f x))
    → All P xs
    → All P (update_first p f xs)
unfolding update_first
All-update_first P p f [] new h = tt
All-update_first P p f (x ∷ xs) new (here, h) = elim (Bool-cases (p x)) [
  | inl mine ↦ rw mine (new x, h)
  | inr other ↦ rw other (here, All-update_first P p f xs new h)
]

pub All-map :
    {A : Type 0} (P : A → Type 0) (f : A → A) (xs : List A)
    → ((x : A) → P x → P (f x))
    → All P xs
    → All P (map f xs)
All-map P f [] keeps h = tt
All-map P f (x ∷ xs) keeps (here, h) = (keeps x here, All-map P f xs keeps h)

find_first-All :
    {A : Type 0} (P : A → Type 0) (p : A → Bool) (xs : List A) (x : A)
    → find_first p xs ≡ some x
    → All P xs
    → P x
unfolding find_first
find_first-All P p [] x e h = absurd (ground arith)
find_first-All P p (y ∷ xs) x e (here, h) = elim (Bool-cases (p y)) [
  | inl mine ↦ let same : y ≡ x = ground arith in subst P same here
  | inr other ↦ find_first-All P p xs x (ground (arith, other)) h
]

pub write_route-AllQuiet :
    (r : Route) (s : RouteTables) → IsQuiet r → AllQuiet s → AllQuiet (exec (write_route r) s)
unfolding write_route
write_route-AllQuiet r s quiet h = elim (Bool-cases (is_unique r s.routes)) [
  | inl free ↦
      rw (exec, write_route, free)
        (All-update_first IsQuiet (is_route r.id) (λ old. r) s.routes (λ old. quiet) h)
  | inr taken ↦ rw (exec, write_route, taken) h
]

pub insert_route-AllQuiet :
    (r : Route) (s : RouteTables) → IsQuiet r → AllQuiet s → AllQuiet (exec (insert_route r) s)
unfolding insert_route
insert_route-AllQuiet r s quiet h =
    elim (Bool-cases (is_unique r s.routes && not (some_of (is_route r.id) s.routes))) [
      | inl free ↦
          rw (exec, insert_route, free) (All-append IsQuiet s.routes (r ∷ []) h (quiet, tt))
      | inr taken ↦ rw (exec, insert_route, taken) h
    ]

-- A computation that keeps every route live or inactive.
unfoldable pub Keeps : {A : Type 0} → M RouteTables A → Type 0
Keeps m = (s : RouteTables) → AllQuiet s → AllQuiet (exec m s)

pub Keeps-bind :
    {A B : Type 0} (m : M RouteTables A) (f : A → M RouteTables B)
    → Keeps m
    → ((a : A) → Keeps (f a))
    → Keeps (m >>= f)
unfolding Keeps
Keeps-bind m f first later s h = bind-keeps AllQuiet m f s (first s h) (λ a t q. later a t q)

pub ensure-Keeps : (b : Bool) (e : AppError) → Keeps (ensure b e)
unfolding Keeps
ensure-Keeps true e s h = h
ensure-Keeps false e s h = h

pub pure-Keeps : {A : Type 0} (a : A) → Keeps {A = A} (pure a)
unfolding Keeps
pure-Keeps a s h = h

pub live_found :
    (id : String) (routes : List Route) (r : Route)
    → find_first (is_live_route id) routes ≡ some r
    → is_live r ≡ true
live_found id routes r e = ground (arith, find_first-holds (is_live_route id) routes r e)

pub write_route-Keeps : (r : Route) → IsQuiet r → Keeps (write_route r)
unfolding Keeps
write_route-Keeps r quiet s h = write_route-AllQuiet r s quiet h

pub free_soft_deleted_public_path-Keeps :
    (path : String) → Keeps (free_soft_deleted_public_path path)
unfolding free_soft_deleted_public_path Keeps
free_soft_deleted_public_path-Keeps path s h =
    elim (Option-cases (find_first (λ r. has_path path r && not (is_live r)) s.routes)) [
      | inl nothing ↦ rw (exec, free_soft_deleted_public_path, nothing) h
      | inr (stale, e) ↦
          let quiet = find_first-All IsQuiet _ s.routes stale e h in
          rw (exec, free_soft_deleted_public_path, e)
            (bind-keeps AllQuiet
              (write_route (record stale {
                public_path = str_append stale.public_path (str_append archive_tag stale.id);
              }))
              (λ a. pure tt) s (write_route-AllQuiet _ s quiet h) (λ a t kept. kept))
    ]

version-Keeps : (n : ℕ) (r : Route) → Keeps (insert_version n r >> pure r)
unfolding Keeps insert_version
version-Keeps n r s h = h

pub numbered-Keeps :
    (r : Route)
    → IsQuiet r
    → Keeps (write_route r >>= λ new. insert_version new.version new >> pure new)
numbered-Keeps r quiet =
    Keeps-bind _ _ (write_route-Keeps r quiet) (λ new. version-Keeps new.version new)

pub checked-Keeps : (m k : M RouteTables (Unit {0})) → Keeps m → Keeps k → Keeps (m >> k)
checked-Keeps m k first later = Keeps-bind _ _ first (λ x. later)

module _ (host : Services) where
  pub assert_target-Keeps :
      (url : String) (org : Option String) → Keeps (assert_target host url org)
  unfolding assert_target Keeps
  assert_target-Keeps url org s h =
      elim (Option-cases (
        assert_route_target_allowed host.platform host.policies host.deny_list host.cluster_domain
          url org)) [
            | inl fine ↦ rw (exec, assert_target, fine) h
            | inr (e, bad) ↦ rw (exec, assert_target, bad) h
          ]

  with_slug-IsQuiet :
      (r : Route) (routes : List Route) → IsQuiet r → IsQuiet (with_slug host r routes)
  unfolding with_slug
  with_slug-IsQuiet r routes h = elim (Option-cases (present r.slug)) [
    | inl derived ↦ rw (with_slug, derived) h
    | inr (v, given) ↦ rw (with_slug, given) h
  ]

  insert_new-Keeps :
      (r : Route) → IsQuiet r → Keeps (λ s. insert_route (with_slug host r s.routes) s)
  unfolding Keeps
  insert_new-Keeps r quiet s h =
      insert_route-AllQuiet (with_slug host r s.routes) s (with_slug-IsQuiet r s.routes quiet) h

  pub create_route-Keeps : (r : Route) → is_live r ≡ true → Keeps (create_route host r)
  unfolding create_route
  create_route-Keeps r live =
      Keeps-bind _ _
        (Keeps-bind _ _
          (Keeps-bind _ _
            (Keeps-bind _ _
              (Keeps-bind _ _ (assert_target-Keeps _ _)
                (λ a. free_soft_deleted_public_path-Keeps _))
              (λ a. ensure-Keeps _ bad_request))
            (λ a. ensure-Keeps _ bad_request))
          (λ a. insert_new-Keeps _ (inl live)))
        (λ new. version-Keeps 1 new)
