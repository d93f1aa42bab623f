-- ===== src/Routes/Updates.antt =====
-- A change to a live route keeps archived routes inactive.
use cluster_gate.Prelude.{
  true, [], ◌∷◌, suc, inl, inr, Bool, List, Bool-cases, Option-cases, String, exec, present, ◌≡◌,
  find_first, Option, str_eq, ◌>>◌, ensure, bad_request,
}
use cluster_gate.Routes.{Route, Services, is_live, is_live_route}
use cluster_gate.Routes.Change.{
  RouteUpdate, route_with, free_new_path, check_pool, save_route, update_route, check_new_target,
  org_changed, has_changes,
}
use cluster_gate.Routes.Inactive.{
  Keeps, assert_target-Keeps, free_soft_deleted_public_path-Keeps, checked-Keeps, live_found,
  Keeps-bind, ensure-Keeps, numbered-Keeps, write_route-AllQuiet,
}
use cluster_gate.Routes.Save.{assert_targets, assert_target}

save_route-Keeps : (r : Route) (u : RouteUpdate) → is_live r ≡ true → Keeps (save_route r u)
unfolding Keeps save_route route_with
save_route-Keeps r u live s h = elim (Bool-cases (has_changes r u)) [
  | inl differs ↦
      rw (exec, save_route, differs)
        (numbered-Keeps (record (route_with r u) { version = suc r.version }) (inl live) s h)
  | inr same ↦ rw (exec, save_route, same) (write_route-AllQuiet (route_with r u) s (inl live) h)
]

module _ (host : Services) where
  check_new_target-Keeps : (r : Route) (u : RouteUpdate) → Keeps (check_new_target host r u)
  unfolding Keeps check_new_target
  check_new_target-Keeps r u s h = elim (Option-cases (present u.target_url)) [
    | inr (url, e) ↦ rw (exec, check_new_target, e) (assert_target-Keeps host _ _ s h)
    | inl kept ↦ elim (Bool-cases (org_changed r u)) [
      | inl moved ↦ rw (exec, check_new_target, kept, moved) (assert_target-Keeps host _ _ s h)
      | inr stays ↦ rw (exec, check_new_target, kept, stays) h
    ]
  ]

  assert_targets-Keeps :
      (urls : List (String × String)) (id : String) (org : Option String)
      → Keeps (assert_targets host urls id org)
  unfolding Keeps assert_targets
  assert_targets-Keeps [] id org s h = h
  assert_targets-Keeps ((route, url) ∷ more) id org s h = elim (Bool-cases (str_eq route id)) [
    | inl own ↦
        rw (exec, assert_targets, own)
          (checked-Keeps (assert_target host url org) (assert_targets host more id org)
            (assert_target-Keeps host url org) (assert_targets-Keeps more id org) s h)
    | inr foreign ↦ rw (exec, assert_targets, foreign) (assert_targets-Keeps more id org s h)
  ]

  check_pool-Keeps : (r : Route) (u : RouteUpdate) → Keeps (check_pool host r u)
  unfolding Keeps check_pool
  check_pool-Keeps r u s h = elim (Bool-cases (org_changed r u)) [
    | inl moved ↦ rw (exec, check_pool, moved) (assert_targets-Keeps s.targets r.id _ s h)
    | inr stays ↦ rw (exec, check_pool, stays) h
  ]

  free_new_path-Keeps : (r : Route) (u : RouteUpdate) → Keeps (free_new_path r u)
  unfolding Keeps free_new_path
  free_new_path-Keeps r u s h = elim (Option-cases u.public_path) [
    | inl kept ↦ rw (exec, free_new_path, kept) h
    | inr (path, e) ↦ elim (Bool-cases (str_eq path r.public_path)) [
      | inl same ↦ rw (exec, free_new_path, e, same) h
      | inr other ↦
          rw (exec, free_new_path, e, other) (free_soft_deleted_public_path-Keeps path s h)
    ]
  ]

  changing-Keeps :
      (r : Route) (u v : RouteUpdate) (safe : Bool)
      → is_live r ≡ true
      → Keeps (
          check_new_target host r u
          >> check_pool host r u
          >> free_new_path r u
          >> ensure safe bad_request
          >> save_route r v)
  changing-Keeps r u v safe live =
      Keeps-bind _ _
        (Keeps-bind _ _
          (Keeps-bind _ _ (Keeps-bind _ _ (check_new_target-Keeps r u) (λ x. check_pool-Keeps r u))
            (λ x. free_new_path-Keeps r u))
          (λ x. ensure-Keeps safe bad_request))
        (λ x. save_route-Keeps r v live)

  pub update_route-Keeps : (id : String) (u : RouteUpdate) → Keeps (update_route host id u)
  unfolding Keeps update_route
  update_route-Keeps id given s h = elim (Option-cases (find_first (is_live_route id) s.routes)) [
    | inl missing ↦ rw (exec, update_route, missing) h
    | inr (r, e) ↦
        rw (exec, update_route, e) (changing-Keeps r _ _ _ (live_found id s.routes r e) s h)
  ]
