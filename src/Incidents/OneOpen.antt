-- ===== src/Incidents/OneOpen.antt =====
-- The detectors keep at most one incident of a route open.
use cluster_gate.Prelude.{
  ℕ, none, some, true, [], ◌∷◌, refl, inl, inr, List, String, Bool, exec, count_by, Option, ◌≡◌,
  not, bind-keeps, count_by-filter_by, Option-cases, ◌≤◌, str_eq, if◌then◌else◌, find_first,
  count_by-map_le, arith, count_by-append, count_by-find_first, Bool-cases, sym, ap, eq_iff, ◌∙◌,
  filter_by, ◌>>=◌, pure,
}
use cluster_gate.Incidents.{
  IncidentStatus, update_status, delete_incident, resolve_each, detect, Incident, World, add_event,
  create_incident, is_open, is_open_on, EventType, IncidentSeverity, resolved, active, with_status,
  status_change, investigating, dismissed, on_notice, check_and_create_from_health_failure,
  health_check_failed, auto_resolve, check_and_create_from_cb, high, cb_opened, critical,
  update_incident,
}
use cluster_gate.Breaker.{Notice, auto_resolve_if_healthy, check_and_create_from_cb_open}

abbrev pub AtMostOne : List Incident → Type 0
AtMostOne is = (route_id : String) → count_by (is_open_on route_id) is ≤ 1

abbrev pub is_closing : IncidentStatus → Bool
is_closing s = not (is_open s)

closed_keeps :
    (now : ℕ) (id route_id : String) (s : IncidentStatus) (i : Incident)
    → is_closing s ≡ true
    → is_open_on route_id (if str_eq i.id id then with_status now s i else i) ≡ true
    → is_open_on route_id i ≡ true
closed_keeps now id route_id active i c h = absurd (ground arith)
closed_keeps now id route_id investigating i c h = absurd (ground arith)
closed_keeps now id route_id resolved i c h = ground arith
closed_keeps now id route_id dismissed i c h = ground arith

update_incident-AtMostOne :
    (now : ℕ) (id : String) (s : IncidentStatus) (w : World)
    → is_closing s ≡ true
    → AtMostOne w.incidents
    → AtMostOne (exec (update_incident id (with_status now s)) w).incidents
update_incident-AtMostOne now id s w c h route_id =
    elim (Option-cases (find_first (λ i. str_eq i.id id) w.incidents)) [
      | inl missing ↦ rw (exec, update_incident, missing) (h route_id)
      | inr (i, found) ↦
          let fewer =
            count_by-map_le (is_open_on route_id)
              (λ j. if str_eq j.id id then with_status now s j else j) w.incidents
              (λ j. closed_keeps now id route_id s j c) in
          let before = h route_id in rw (exec, update_incident, found) (omega arith)
    ]

update_status-AtMostOne :
    (now : ℕ) (id : String) (s : IncidentStatus) (by : Option String) (w : World)
    → is_closing s ≡ true
    → AtMostOne w.incidents
    → AtMostOne (exec (update_status now id s by) w).incidents
unfolding update_status add_event
update_status-AtMostOne now id s by w c h =
    bind-keeps {B = Incident} (λ x. AtMostOne x.incidents) (update_incident id (with_status now s))
      (λ i. add_event id status_change by >>= λ _. pure i) w
      (update_incident-AtMostOne now id s w c h) (λ i x k. k)

count_by-new :
    (r route_id : String) (i : Incident)
    → i.route_id ≡ some route_id
    → i.status ≡ active
    → count_by (is_open_on r) (i ∷ []) ≡ (if str_eq route_id r then 1 else 0)
unfolding count_by
count_by-new r route_id i on new = ground arith

detect-AtMostOne :
    (id route_id : String) (t : EventType) (title : String) (v : IncidentSeverity) (w : World)
    → AtMostOne w.incidents
    → AtMostOne (exec (detect id route_id t title v) w).incidents
unfolding detect add_event create_incident
detect-AtMostOne id route_id t title v w h r =
    let new : Incident = record {
      id = id;
      title = title;
      severity = v;
      route_id = some route_id;
      status = active;
      resolved_at = none;
    } in
    elim (Option-cases (find_first (is_open_on route_id) w.incidents)) [
      | inr (i, found) ↦ rw (exec, found) (h r)
      | inl missing ↦
          let added = count_by-append (is_open_on r) w.incidents (new ∷ []) in
          let none_open = count_by-find_first (is_open_on route_id) w.incidents missing in
          let before = h r in
          let single = count_by-new r route_id new refl refl in
          elim (Bool-cases (str_eq route_id r)) [
            | inr other ↦ rw (exec, missing) (ground arith)
            | inl same ↦
                rw (exec, missing)
                  (let none_r : count_by (is_open_on r) w.incidents ≡ 0 =
                      sym
                        (ap (λ q. count_by (is_open_on q) w.incidents) ((eq_iff route_id r).0 same))
                      ∙ none_open in
                    ground arith)
          ]
    ]

delete_incident-AtMostOne :
    (id : String) (w : World)
    → AtMostOne w.incidents
    → AtMostOne (exec (delete_incident id) w).incidents
unfolding delete_incident
delete_incident-AtMostOne id w h r =
    let fewer = count_by-filter_by (is_open_on r) (λ j. not (str_eq j.id id)) w.incidents in
    let before = h r in
    elim (Option-cases (find_first (λ i. str_eq i.id id) w.incidents)) [
      | inl missing ↦ rw (exec, missing) before
      | inr (i, found) ↦ rw (exec, found) (omega arith)
    ]

resolve_each-AtMostOne :
    (now : ℕ) (is : List Incident) (w : World)
    → AtMostOne w.incidents
    → AtMostOne (exec (resolve_each now is) w).incidents
unfolding resolve_each
resolve_each-AtMostOne now [] w h = h
resolve_each-AtMostOne now (i ∷ is) w h =
    let Q : World → Type 0 = λ x. AtMostOne x.incidents in
    bind-keeps Q (update_status now i.id resolved none) _ w
      (update_status-AtMostOne now i.id resolved none w refl h)
      (λ _ x k.
        bind-keeps Q (add_event i.id status_change none) (λ _. resolve_each now is) x k
          (λ _ y j. resolve_each-AtMostOne now is y j))

-- What the detectors and the operators do, other than to open an incident by hand.
pub data Event : Type 0 where
  health_failed : String → String → String → String → Event
  noticed : ℕ → String → Notice → Event
  closed_by : ℕ → String → (s : IncidentStatus) → is_closing s ≡ true → Option String → Event
  commented : String → EventType → Option String → Event
  removed : String → Event

step : Event → World → World
unfolding check_and_create_from_health_failure on_notice update_status add_event delete_incident
step (health_failed id route_id name error) w =
    exec (check_and_create_from_health_failure id route_id name error) w
step (noticed now id n) w = on_notice now id n w
step (closed_by now id s c by) w = exec (update_status now id s by) w
step (commented id t by) w = exec (add_event id t by) w
step (removed id) w = exec (delete_incident id) w

unfoldable pub run : List Event → World → World
unfolding step
run [] w = w
run (e ∷ es) w = run es (step e w)

on_notice-AtMostOne :
    (now : ℕ) (id : String) (n : Notice) (w : World)
    → AtMostOne w.incidents
    → AtMostOne (on_notice now id n w).incidents
unfolding on_notice auto_resolve check_and_create_from_cb
on_notice-AtMostOne now id (auto_resolve_if_healthy route_id) w h =
    resolve_each-AtMostOne now (filter_by (is_open_on route_id) w.incidents) w h
on_notice-AtMostOne now id (check_and_create_from_cb_open route_id name) w h =
    detect-AtMostOne id route_id cb_opened _ critical w h

step-AtMostOne : (e : Event) (w : World) → AtMostOne w.incidents → AtMostOne (step e w).incidents
unfolding step add_event check_and_create_from_health_failure
step-AtMostOne (health_failed id route_id name error) w h =
    detect-AtMostOne id route_id health_check_failed _ high w h
step-AtMostOne (noticed now id n) w h = on_notice-AtMostOne now id n w h
step-AtMostOne (closed_by now id s c by) w h = update_status-AtMostOne now id s by w c h
step-AtMostOne (commented id t by) w h = h
step-AtMostOne (removed id) w h = delete_incident-AtMostOne id w h

-- From incidents of which at most one of each route is open, whatever the health checks report and
-- the breaker notices, and whatever is closed, commented or deleted, at most one of each route is
-- open; each of these is run as a whole.
pub run-AtMostOne :
    (es : List Event) (w : World) → AtMostOne w.incidents → AtMostOne (run es w).incidents
unfolding run
run-AtMostOne [] w h = h
run-AtMostOne (e ∷ es) w h = run-AtMostOne es (step e w) (step-AtMostOne e w h)
