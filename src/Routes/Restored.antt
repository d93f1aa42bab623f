-- ===== src/Routes/Restored.antt =====
-- A route that is restored is the one that was archived, and a route with a slug is never copied.
use cluster_gate.Prelude.{
  ℕ, none, some, true, false, [], ◌∷◌, refl, inl, inr, Bool, some_of, String, List, ◌≡◌, arith,
  ◌||◌, Option-cases, Bool-cases, is_nil_text, ok, throw, find_first, str_eq, result, conflict,
  eq_iff,
}
use cluster_gate.Routes.{
  Route, clashes, has_path, shares_slug, has_slug, write_route, insert_route, is_unique,
  RouteTables, is_live_route, is_archived_route, draft,
}
use cluster_gate.Routes.Archive.{
  restored_slug, restored_path, archived, is_taken, restore_route, duplicate_route, copy_of,
}
use cluster_gate.Routes.Archived.{is_plain, unmangle_archive-mangle_for_archive}

some_of-imp :
    {A : Type 0} (p q : A → Bool) (xs : List A)
    → ((x : A) → p x ≡ true → q x ≡ true)
    → some_of q xs ≡ false
    → some_of p xs ≡ false
unfolding some_of
some_of-imp p q [] f h = refl
some_of-imp p q (x ∷ xs) f h = ground (arith, f x, some_of-imp p q xs f)

is_taken-free :
    (r : Route) (held : Route → Bool) (routes : List Route)
    → ((x : Route) → held x ≡ true → (has_path r.public_path x || shares_slug r.slug x) ≡ true)
    → some_of (clashes r) routes ≡ false
    → is_taken held r.id routes ≡ false
is_taken-free r held routes f free =
    some_of-imp _ (clashes r) routes (λ x h. ground (arith, f x, h)) free

restored_path-archived :
    (now : ℕ) (r : Route) (routes : List Route)
    → is_plain r.public_path ≡ true
    → some_of (clashes r) routes ≡ false
    → restored_path (archived now r) routes ≡ r.public_path
unfolding restored_path
restored_path-archived now r routes plain free =
    let taken = is_taken-free r (has_path r.public_path) routes (λ x h. ground (arith, h)) free in
    rw (restored_path, unmangle_archive-mangle_for_archive r.id r.public_path plain, taken) refl

restored_slug-archived :
    (now : ℕ) (r : Route) (routes : List Route)
    → ((v : String) → r.slug ≡ some v → is_plain v ≡ true)
    → some_of (clashes r) routes ≡ false
    → restored_slug (archived now r) routes ≡ r.slug
unfolding restored_slug
restored_slug-archived now r routes plain free = elim (Option-cases r.slug) [
  | inl absent ↦ rw (restored_slug, absent) refl
  | inr (v, e) ↦
      let taken = is_taken-free r (has_slug v) routes (λ x h. ground (arith, e, h)) free in
      let back = unmangle_archive-mangle_for_archive r.id v (plain v e) in
      elim (Bool-cases (is_nil_text v)) [
        | inl empty ↦ rw (restored_slug, e, back, empty) refl
        | inr full ↦ rw (restored_slug, e, back, full, taken) refl
      ]
]

-- An archived route whose path and slug hold no two underscores in a row and end in none is restored
-- with them, as an inactive draft, whatever happened in the meantime, where no other route has
-- either of them.
pub restore_route-archived :
    (now : ℕ) (r : Route) (s : RouteTables)
    → find_first (is_archived_route r.id) s.routes ≡ some (archived now r)
    → is_plain r.public_path ≡ true
    → ((v : String) → r.slug ≡ some v → is_plain v ≡ true)
    → some_of (clashes r) s.routes ≡ false
    → result (restore_route r.id) s
      ≡ ok (record r { deleted_at = none; is_active = false; status = draft })
unfolding restore_route write_route is_unique
restore_route-archived now r s found plain plain_slug free =
    let path = restored_path-archived now r s.routes plain free in
    let slug = restored_slug-archived now r s.routes plain_slug free in
    rw (result, restore_route, found, path, slug) (rw (write_route, is_unique, free) refl)

some_of-found :
    {A : Type 0} (p q : A → Bool) (xs : List A) (x : A)
    → find_first p xs ≡ some x
    → q x ≡ true
    → some_of q xs ≡ true
unfolding find_first some_of
some_of-found p q [] x e h = absurd (ground arith)
some_of-found p q (y ∷ xs) x e h = elim (Bool-cases (p y)) [
  | inl mine ↦ let same : y ≡ x = ground arith in ground (arith, same, h)
  | inr other ↦ ground (arith, some_of-found p q xs x (ground (arith, other)) h)
]

-- A live route that has a slug is never duplicated, where the id drawn for the copy is another one:
-- the copy has the slug as well, and the unique column refuses it.
pub duplicate_route-slug :
    (new_id id v : String) (r : Route) (s : RouteTables)
    → find_first (is_live_route id) s.routes ≡ some r
    → r.slug ≡ some v
    → str_eq r.id new_id ≡ false
    → duplicate_route new_id id s ≡ (throw conflict, s)
unfolding duplicate_route insert_route is_unique copy_of
duplicate_route-slug new_id id v r s found slug new =
    let own = (eq_iff v v).1 refl in
    let taken : some_of (clashes (copy_of new_id r s.routes)) s.routes ≡ true =
      some_of-found (is_live_route id) (clashes (copy_of new_id r s.routes)) s.routes r found
        (ground (arith, slug, new, own)) in
    rw (duplicate_route, found) (rw (insert_route, is_unique, taken) refl)
