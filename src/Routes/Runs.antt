-- ===== src/Routes/Runs.antt =====
-- Every operation on the routes keeps an archived route inactive.
use cluster_gate.Prelude.{
  ℕ, true, false, refl, inl, inr, String, Bool, List, Option, ensure, Option-cases, bad_request,
  find_first, ◌>>◌, exec, ◌≡◌, filter_by-All, pure, arith, not, none, [], ◌∷◌, if◌then◌else◌,
  Bool-cases, map,
}
use cluster_gate.Routes.{
  Route, write_route, is_live_route, is_archived_route, is_live, published, is_route, Services,
  RouteTables,
}
use cluster_gate.Routes.Inactive.{
  Keeps, IsQuiet, write_route-AllQuiet, insert_route-AllQuiet, Keeps-bind, ensure-Keeps, pure-Keeps,
  write_route-Keeps, live_found, AllQuiet, create_route-Keeps, All-map,
}
use cluster_gate.Routes.Archive.{
  deactivate_route, permanently_delete_route, delete_route, restore_route, duplicate_route,
  publish_route, copy_of, archived, restore_route_version, is_version, is_selected, bulk_publish,
  bulk_deactivate, bulk_delete, as_update, bulk_archived, import_routes,
}
use cluster_gate.Routes.Change.{RouteUpdate, update_route}
use cluster_gate.Routes.Save.{create_route}
use cluster_gate.Routes.Updates.{update_route-Keeps}

publish_route-Keeps : (id : String) → Keeps (publish_route id)
unfolding Keeps publish_route
publish_route-Keeps id s h = elim (Option-cases (find_first (is_live_route id) s.routes)) [
  | inl missing ↦ rw (exec, publish_route, missing) h
  | inr (r, e) ↦
      rw (exec, publish_route, e)
        (write_route-AllQuiet (record r { status = published; is_active = true }) s
          (inl (live_found id s.routes r e)) h)
]

deactivate_route-Keeps : (id : String) → Keeps (deactivate_route id)
unfolding Keeps deactivate_route
deactivate_route-Keeps id s h = elim (Option-cases (find_first (is_live_route id) s.routes)) [
  | inl missing ↦ rw (exec, deactivate_route, missing) h
  | inr (r, e) ↦
      rw (exec, deactivate_route, e)
        (write_route-AllQuiet (record r { is_active = false }) s (inr refl) h)
]

archive-Keeps :
    (now : ℕ) (r : Route) (a b : Bool)
    → Keeps
        (ensure a bad_request >> ensure b bad_request >> write_route (archived now r) >> pure tt)
archive-Keeps now r a b =
    Keeps-bind _ _
      (Keeps-bind _ _
        (Keeps-bind _ _ (ensure-Keeps a bad_request) (λ x. ensure-Keeps b bad_request))
        (λ x. write_route-Keeps (archived now r) (inr refl)))
      (λ x. pure-Keeps tt)

delete_route-Keeps :
    (now : ℕ) (id : String) (name : Option String) → Keeps (delete_route now id name)
unfolding Keeps delete_route
delete_route-Keeps now id name s h = elim (Option-cases (find_first (is_live_route id) s.routes)) [
  | inl missing ↦ rw (exec, delete_route, missing) h
  | inr (r, e) ↦ rw (exec, delete_route, e) (archive-Keeps now r _ _ s h)
]

restore_route-Keeps : (id : String) → Keeps (restore_route id)
unfolding Keeps restore_route
restore_route-Keeps id s h = elim (Option-cases (find_first (is_archived_route id) s.routes)) [
  | inl missing ↦ rw (exec, restore_route, missing) h
  | inr (r, e) ↦ rw (exec, restore_route, e) (write_route-AllQuiet _ s (inl refl) h)
]

permanently_delete_route-Keeps : (id : String) → Keeps (permanently_delete_route id)
unfolding Keeps permanently_delete_route
permanently_delete_route-Keeps id s h =
    elim (Option-cases (find_first (is_archived_route id) s.routes)) [
      | inl missing ↦ rw (exec, permanently_delete_route, missing) h
      | inr (r, e) ↦
          rw (exec, permanently_delete_route, e)
            (filter_by-All (λ q. not (is_route id q)) IsQuiet s.routes h)
    ]

duplicate_route-Keeps : (new_id id : String) → Keeps (duplicate_route new_id id)
unfolding Keeps duplicate_route copy_of
duplicate_route-Keeps new_id id s h = elim (Option-cases (find_first (is_live_route id) s.routes)) [
  | inl missing ↦ rw (exec, duplicate_route, missing) h
  | inr (r, e) ↦
      rw (exec, duplicate_route, e)
        (insert_route-AllQuiet (copy_of new_id r s.routes) s (inl refl) h)
]

restore_route_version-Keeps :
    (host : Services) (id : String) (n : ℕ) → Keeps (restore_route_version host id n)
unfolding Keeps restore_route_version
restore_route_version-Keeps host id n s h =
    elim (Option-cases (find_first (is_version id n) s.versions)) [
      | inl missing ↦ rw (exec, restore_route_version, missing) h
      | inr (v, e) ↦
          rw (exec, restore_route_version, e)
            (update_route-Keeps host id (as_update v.snapshot) s h)
    ]

-- A call of the service; a route that is created or imported is given without a time of deletion.
pub data Call : Type 0 where
  creates : Route → Call
  imports : List Route → Call
  updates : String → RouteUpdate → Call
  restores_version : String → ℕ → Call
  publishes deactivates restores purges : String → Call
  deletes : ℕ → String → Option String → Call
  duplicates : String → String → Call
  publishes_all deactivates_all : List String → Call
  deletes_all : ℕ → List String → Call

abbrev live_row : Route → Route
live_row r = record r { deleted_at = none }

module _ (host : Services) where
  step : Call → RouteTables → RouteTables
  unfolding create_route update_route restore_route_version publish_route deactivate_route
      restore_route permanently_delete_route delete_route duplicate_route bulk_publish
      bulk_deactivate bulk_delete
  step (creates r) s = exec (create_route host (record r { deleted_at = none })) s
  step (imports rs) s = (import_routes host (map live_row rs) s).1
  step (updates id u) s = exec (update_route host id u) s
  step (restores_version id n) s = exec (restore_route_version host id n) s
  step (publishes id) s = exec (publish_route id) s
  step (deactivates id) s = exec (deactivate_route id) s
  step (restores id) s = exec (restore_route id) s
  step (purges id) s = exec (permanently_delete_route id) s
  step (deletes now id name) s = exec (delete_route now id name) s
  step (duplicates new_id id) s = exec (duplicate_route new_id id) s
  step (publishes_all ids) s = bulk_publish ids s
  step (deactivates_all ids) s = bulk_deactivate ids s
  step (deletes_all now ids) s = bulk_delete now ids s

  unfoldable pub run : List Call → RouteTables → RouteTables
  unfolding step
  run [] s = s
  run (c ∷ cs) s = run cs (step c s)

bulk-IsQuiet :
    (f : Route → Route) (ids : List String) (r : Route)
    → (is_live r ≡ true → IsQuiet (f r))
    → IsQuiet r
    → IsQuiet (if is_selected ids r then f r else r)
bulk-IsQuiet f ids r new h = elim (Bool-cases (is_selected ids r)) [
  | inl selected ↦ rw selected (new (ground (arith, selected)))
  | inr other ↦ rw other h
]

module _ (host : Services) where
  import_routes-AllQuiet :
      (rs : List Route) (s : RouteTables)
      → AllQuiet s
      → AllQuiet (import_routes host (map live_row rs) s).1
  unfolding import_routes Keeps
  import_routes-AllQuiet [] s h = h
  import_routes-AllQuiet (r ∷ rs) s h =
      import_routes-AllQuiet rs (exec (create_route host (live_row r)) s)
        (create_route-Keeps host (live_row r) refl s h)

  step-AllQuiet : (c : Call) (s : RouteTables) → AllQuiet s → AllQuiet (step host c s)
  unfolding step Keeps bulk_publish bulk_deactivate bulk_delete
  step-AllQuiet (creates r) s h = create_route-Keeps host (record r { deleted_at = none }) refl s h
  step-AllQuiet (imports rs) s h = import_routes-AllQuiet rs s h
  step-AllQuiet (updates id u) s h = update_route-Keeps host id u s h
  step-AllQuiet (restores_version id n) s h = restore_route_version-Keeps host id n s h
  step-AllQuiet (publishes id) s h = publish_route-Keeps id s h
  step-AllQuiet (deactivates id) s h = deactivate_route-Keeps id s h
  step-AllQuiet (restores id) s h = restore_route-Keeps id s h
  step-AllQuiet (purges id) s h = permanently_delete_route-Keeps id s h
  step-AllQuiet (deletes now id name) s h = delete_route-Keeps now id name s h
  step-AllQuiet (duplicates new_id id) s h = duplicate_route-Keeps new_id id s h
  step-AllQuiet (publishes_all ids) s h =
      All-map IsQuiet _ s.routes
        (λ r q.
          bulk-IsQuiet (λ r. record r { status = published; is_active = true }) ids r
            (λ live. inl live) q)
        h
  step-AllQuiet (deactivates_all ids) s h =
      All-map IsQuiet _ s.routes
        (λ r q. bulk-IsQuiet (λ r. record r { is_active = false }) ids r (λ live. inr refl) q) h
  step-AllQuiet (deletes_all now ids) s h =
      All-map IsQuiet _ s.routes
        (λ r q. bulk-IsQuiet (bulk_archived now) ids r (λ live. inr refl) q) h

  -- Whatever is called in whatever order, starting from routes of which the archived ones are
  -- inactive, a route that is archived is inactive.
  pub run-AllQuiet : (cs : List Call) (s : RouteTables) → AllQuiet s → AllQuiet (run host cs s)
  unfolding run
  run-AllQuiet [] s h = h
  run-AllQuiet (c ∷ cs) s h = run-AllQuiet cs (step host c s) (step-AllQuiet c s h)
