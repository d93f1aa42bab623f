-- ===== src/Incidents.antt =====
-- backend/src/services/incidentService.ts: the incidents of routes and their events, and the detectors
-- that the breaker and the health checks call. Lists of rows stand for the two tables; ids are drawn.
-- Titles, descriptions and metadata of events are left out but for their types; times are milliseconds.
pub mod OneOpen
mod Tests
use cluster_gate.Prelude.{
  ℕ, none, some, true, false, [], ◌∷◌, ok, throw, M, List, Bool, String, filter_by, str_append,
  ◌>>◌, exec, find_first, Option, ◌&&◌, ◌++◌, not, ◌>>=◌, str_eq, pure, record_not_found, map,
  if◌then◌else◌,
}
use cluster_gate.Breaker.{Notice, auto_resolve_if_healthy, check_and_create_from_cb_open}
use mathlib.Core.Option

pub data IncidentStatus : Type 0 where
  active investigating resolved dismissed : IncidentStatus

pub data IncidentSeverity : Type 0 where
  low medium high critical : IncidentSeverity

pub data EventType : Type 0 where
  status_change health_check_failed cb_opened : EventType

pub record Incident : Type 0 where
  pub id : String
  pub title : String
  pub severity : IncidentSeverity
  pub route_id : Option String
  pub status : IncidentStatus
  pub resolved_at : Option ℕ

pub record IncidentEvent : Type 0 where
  pub incident_id : String
  pub type_ : EventType
  pub created_by_id : Option String

pub record World : Type 0 where
  pub incidents : List Incident
  pub events : List IncidentEvent

abbrev pub is_open : IncidentStatus → Bool
is_open active = true
is_open investigating = true
is_open resolved = false
is_open dismissed = false

abbrev pub is_on : String → Option String → Bool
is_on route_id none = false
is_on route_id (some r) = str_eq r route_id

-- `where: { routeId, status: { in: ['ACTIVE', 'INVESTIGATING'] } }`
abbrev pub is_open_on : String → Incident → Bool
is_open_on route_id i = is_on route_id i.route_id && is_open i.status

-- The incident is there where the service calls it; the foreign key of a missing one is left out.
unfoldable pub add_event : String → EventType → Option String → M World (Unit {0})
add_event incident_id type_ by w = (
  ok tt,
  record w {
    events =
        w.events ++ record { incident_id = incident_id; type_ = type_; created_by_id = by } ∷ [];
  },
)

abbrev insert_incident : Incident → M World Incident
insert_incident i w = (ok i, record w { incidents = w.incidents ++ i ∷ [] })

-- `data.severity ?? 'MEDIUM'`
unfoldable pub create_incident :
    String → String → Option IncidentSeverity → Option String → M World Incident
unfolding add_event
create_incident new_id title severity route_id w =
    let i : Incident = record {
      id = new_id;
      title = title;
      severity = Option.get_or severity medium;
      route_id = route_id;
      status = active;
      resolved_at = none;
    } in
    (insert_incident i >>= λ i. add_event i.id status_change none >>= λ _. pure i) w

-- `resolvedAt: status === 'RESOLVED' ? new Date() : undefined`, which leaves the column as it was.
abbrev pub with_status : ℕ → IncidentStatus → Incident → Incident
with_status now resolved i = record i { status = resolved; resolved_at = some now }
with_status now active i = record i { status = active }
with_status now investigating i = record i { status = investigating }
with_status now dismissed i = record i { status = dismissed }

abbrev pub update_incident : String → (Incident → Incident) → M World Incident
update_incident id f w = elim (find_first (λ i. str_eq i.id id) w.incidents) [
  | none ↦ (throw record_not_found, w)
  | some i ↦
      (ok (f i), record w { incidents = map (λ j. if str_eq j.id id then f j else j) w.incidents })
]

unfoldable pub update_status : ℕ → String → IncidentStatus → Option String → M World Incident
unfolding add_event
update_status now id status user_id = update_incident id (with_status now status) >>= λ i.
    add_event id status_change user_id >>= λ _. pure i

-- The two detectors differ in the event and in the new incident. Of several open incidents the
-- database may take any; the model takes the first.
unfoldable pub detect : String → String → EventType → String → IncidentSeverity → M World Incident
unfolding add_event create_incident
detect new_id route_id type_ title severity w =
    elim (find_first (is_open_on route_id) w.incidents) [
      | some i ↦ (add_event i.id type_ none >>= λ _. pure i) w
      | none ↦ create_incident new_id title (some severity) (some route_id) w
    ]

unfoldable pub check_and_create_from_health_failure :
    String → String → String → String → M World Incident
unfolding detect
check_and_create_from_health_failure new_id route_id route_name error =
    detect new_id route_id health_check_failed
      (str_append "Route \"" (str_append route_name "\" health check failing")) high

unfoldable pub check_and_create_from_cb : String → String → String → M World Incident
unfolding detect
check_and_create_from_cb new_id route_id route_name =
    detect new_id route_id cb_opened
      (str_append "Circuit breaker opened for \"" (str_append route_name "\"")) critical

unfoldable pub delete_incident : String → M World (Unit {0})
delete_incident id w =
    let w' = record w { events = filter_by (λ e. not (str_eq e.incident_id id)) w.events } in
    elim (find_first (λ i. str_eq i.id id) w.incidents) [
      | none ↦ (throw record_not_found, w')
      | some i ↦
          (ok tt, record w' { incidents = filter_by (λ j. not (str_eq j.id id)) w.incidents })
    ]

-- The loop of autoResolveIfHealthy over the incidents that were found.
unfoldable pub resolve_each : ℕ → List Incident → M World (Unit {0})
unfolding update_status add_event
resolve_each now [] w = (ok tt, w)
resolve_each now (i ∷ is) w =
    (update_status now i.id resolved none
        >> (add_event i.id status_change none >> resolve_each now is))
      w

unfoldable pub auto_resolve : ℕ → String → M World (Unit {0})
unfolding resolve_each
auto_resolve now route_id w = resolve_each now (filter_by (is_open_on route_id) w.incidents) w

-- The calls that the breaker asks for.
unfoldable pub on_notice : ℕ → String → Notice → World → World
unfolding auto_resolve check_and_create_from_cb
on_notice now new_id (auto_resolve_if_healthy route_id) w = exec (auto_resolve now route_id) w
on_notice now new_id (check_and_create_from_cb_open route_id route_name) w =
    exec (check_and_create_from_cb new_id route_id route_name) w
