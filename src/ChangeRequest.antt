-- ===== src/ChangeRequest.antt =====
-- backend/src/services/changeRequestService.ts: change requests on routes. Title, description and
-- diff, which no operation reads, are left out. The state is the tables
-- change_requests and routes; what a request would write is a partial map from columns to values.
pub mod Policy
pub mod Workflow
pub mod Effects
mod Tests
use mathlib.Core.Option
use cluster_gate.Prelude.{
  ℕ, false, [], ◌∷◌, none, some, true, Option, List, String, Table, M, Bool, if◌then◌else◌, str_eq,
  create, pure, update, find, fail, ◌>>=◌, ◌||◌, not_found, ensure, bad_request, delete, ◌>>◌,
  present, conflict, not,
}

pub data Status : Type 0 where
  pending approved applied rejected : Status

pub data Kind : Type 0 where
  create_route update_route delete_route : Kind

module _ (Value : Type 0) where
  -- A route's columns, by name; its organization stands apart, since the policy reads it.
  pub record RouteRow : Type 0 where
    pub organization_id : Option String
    pub columns : String → Value

  -- A JSON object: its properties that are not `undefined`.
  abbrev pub Payload : Type 0
  Payload = String → Option Value

  pub record Request : Type 0 where
    pub route_id : Option String
    pub kind : Kind
    pub payload : Payload
    pub status : Status
    pub requested_by : String
    pub reviewed_by : Option String
    pub review_comment : Option String
    pub reviewed_at : Option ℕ

-- An optional argument that is `undefined` leaves the column as it is.
abbrev pub given : Option String → Option String → Option String
given none old = old
given (some c) old = some c

-- The fields that applyChange takes out of a payload.
abbrev pub allowed_fields : List String
allowed_fields =
    "name" ∷ "description" ∷ "targetUrl" ∷ "methods" ∷ "publicPath" ∷ "timeout" ∷ "retryCount"
    ∷ "retryDelay" ∷ "rateLimitEnabled" ∷ "rateLimitMax" ∷ "rateLimitWindow" ∷ "stripPrefix"
    ∷ "sslVerify" ∷ "corsEnabled" ∷ "corsOrigins" ∷ "pathAllowlist" ∷ "requireAuth" ∷ "authType"
    ∷ "authValue" ∷ "tags" ∷ "wsEnabled" ∷ "circuitBreakerEnabled" ∷ "cbFailureThreshold"
    ∷ "cbRecoveryTimeout" ∷ "lbStrategy" ∷ "maintenanceMode" ∷ "maintenanceMessage" ∷ "sandbox" ∷ []

unfoldable pub includes : List String → String → Bool
includes [] x = false
includes (y ∷ ys) x = str_eq y x || includes ys x

-- The two times at which a target is checked: the answer depends on the organization's allowlist
-- and on DNS, which may change in between.
pub data Moment : Type 0 where
  before_approval on_apply : Moment

module _ (Value : Type 0) where
  -- assertRouteTargetAllowed of targetPolicyService, and `typeof payload.targetUrl === 'string'`; and
  -- of the database, whether another route than this one holds a value of the unique column
  -- publicPath, and the time that Prisma writes into updatedAt (@updatedAt) with every update.
  pub record Targets : Type 0 where
    pub text_of : Value → Option String
    pub allowed : Moment → String → Option String → Bool
    pub path_taken : String → Value → Bool
    pub stamp : Value

  abbrev written : List String → Payload Value → String → Value → Value
  written fields payload column old =
      if includes fields column then Option.get_or (payload column) old else old

  -- `data: { name, description, … }`: a column that is `undefined` is left as it is, and updatedAt is
  -- written anew.
  unfoldable pub apply_payload : Targets → Payload Value → RouteRow Value → RouteRow Value
  apply_payload targets payload r = record r {
    columns = λ c.
        if str_eq c "updatedAt"
        then targets.stamp
        else written allowed_fields payload c (r.columns c);
  }

  -- The unique column publicPath: a missing row is refused by the update itself.
  abbrev path_free : Targets → String → Payload Value → Option (RouteRow Value) → Bool
  path_free targets id payload none = true
  path_free targets id payload (some r) = elim (payload "publicPath") [
    | none ↦ true
    | some path ↦ not (targets.path_taken id path)
  ]

  module _ (requests : Table (Request Value)) (routes : Table (RouteRow Value))
      (targets : Targets) where
    pub record World : Type 0 where
      pub crs : requests.State
      pub rts : routes.State

    abbrev on_requests : {A : Type 0} → M requests.State A → M World A
    on_requests m w = let (r, s) = m w.crs in (r, record w { crs = s })

    abbrev on_routes : {A : Type 0} → M routes.State A → M World A
    on_routes m w = let (r, s) = m w.rts in (r, record w { rts = s })

    org_of : Option (RouteRow Value) → Option String
    org_of none = none
    org_of (some r) = r.organization_id

    -- assertTargetAllowed for the text of a target, once the payload has one.
    check_target : Moment → Option String → Option String → M World (Unit {0})
    unfolding org_of
    check_target moment none url = pure tt
    check_target moment (some route_id) none = pure tt
    check_target moment (some route_id) (some url) = do
      route ← on_routes (find routes route_id)
      ensure (targets.allowed moment url (org_of route)) bad_request

    abbrev url_of : Payload Value → Option String
    url_of payload = elim (payload "targetUrl") [ none ↦ none | some v ↦ targets.text_of v ]

    unfoldable pub assert_target_allowed :
        Moment → Option String → Payload Value → M World (Unit {0})
    unfolding check_target
    assert_target_allowed moment route_id payload =
        check_target moment (present route_id) (url_of payload)

    apply_to : Kind → Option String → Payload Value → M World (Unit {0})
    apply_to update_route (some route_id) payload = do
      assert_target_allowed on_apply (some route_id) payload
      row ← on_routes (find routes route_id)
      ensure (path_free targets route_id payload row) conflict
      on_routes (update routes route_id (apply_payload targets payload))
      pure tt
    apply_to update_route none payload = pure tt
    apply_to create_route route_id payload = pure tt
    apply_to delete_route route_id payload = pure tt

    unfoldable pub apply_change : Request Value → M World (Unit {0})
    unfolding apply_to
    apply_change cr = apply_to cr.kind (present cr.route_id) cr.payload

    unfoldable pub check_pending : Option (Request Value) → M World (Unit {0})
    unfolding assert_target_allowed
    check_pending none = pure tt
    check_pending (some r) = assert_target_allowed before_approval r.route_id r.payload

    abbrev pub approved_data : String → Option String → ℕ → Request Value → Request Value
    approved_data reviewer comment now r = record r {
      status = approved;
      reviewed_by = some reviewer;
      review_comment = given comment r.review_comment;
      reviewed_at = some now;
    }

    unfoldable pub approve : String → String → Option String → ℕ → M World (Request Value)
    approve id reviewer comment now = do
      pending_request ← on_requests (find requests id)
      check_pending pending_request
      cr ← on_requests (update requests id (approved_data reviewer comment now))
      apply_change cr
      on_requests (update requests id (λ r. record r { status = applied }))

    unfoldable pub reject : String → String → Option String → ℕ → M World (Request Value)
    reject id reviewer comment now = on_requests (
        update requests id (λ r. record r {
          status = rejected;
          reviewed_by = some reviewer;
          review_comment = given comment r.review_comment;
          reviewed_at = some now;
        }))

    unfoldable pub create_request :
        String → Option String → Kind → Payload Value → String → M World (Request Value)
    create_request new_id route_id kind payload requested_by = on_requests (
        create requests new_id (record {
          route_id = route_id;
          kind = kind;
          payload = payload;
          status = pending;
          requested_by = requested_by;
          reviewed_by = none;
          review_comment = none;
          reviewed_at = none;
        }))

    abbrev is_pending : Status → Bool
    is_pending pending = true
    is_pending approved = false
    is_pending applied = false
    is_pending rejected = false

    delete_found : String → Option (Request Value) → M World (Unit {0})
    delete_found id none = fail not_found
    delete_found id (some cr) =
        if is_pending cr.status
        then fail bad_request
        else (on_requests (delete requests id) >> pure tt)

    unfoldable pub delete_request : String → M World (Unit {0})
    unfolding delete_found
    delete_request id = on_requests (find requests id) >>= delete_found id
