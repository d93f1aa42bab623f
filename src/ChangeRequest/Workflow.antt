-- ===== src/ChangeRequest/Workflow.antt =====
-- What approving, rejecting and deleting do.
use cluster_gate.Prelude.{
  Bool-cases, conflict, ℕ, some, ok, throw, Table, String, Option, ◌≡◌, ◌⊎◌, AppError, arith,
  find_unique-write_self, M, bad_request, refl, inl, inr, none, ◌≢◌, Option-cases, record_not_found,
  present,
}
use cluster_gate.ChangeRequest.{
  path_free, Request, RouteRow, Targets, World, approve, applied, approved, check_pending,
  apply_change, approved_data, assert_target_allowed, apply_to, Moment, Payload, update_route, Kind,
  on_apply, apply_payload, create_route, delete_route,
}

module _ (Value : Type 0) (requests : Table (Request Value)) (routes : Table (RouteRow Value))
    (targets : Targets Value) where
  abbrev pub State : Type 0
  State = World Value requests routes targets

  abbrev pub wait_for : Request Value → M State (Unit {0})
  wait_for r = check_pending Value requests routes targets (some r)

  abbrev pub change : Request Value → M State (Unit {0})
  change cr = apply_change Value requests routes targets cr

  pub check_pending-cases :
      (r : Request Value) (w : State)
      → (wait_for r w ≡ (ok tt, w)) ⊎ (wait_for r w ≡ (throw bad_request, w))
  unfolding check_pending
  check_pending-cases r w = grind arith

  abbrev pub check : Moment → Option String → Payload Value → M State (Unit {0})
  check = assert_target_allowed Value requests routes targets

  pub check-cases :
      (moment : Moment) (rid : Option String) (payload : Payload Value) (w : State)
      → (check moment rid payload w ≡ (ok tt, w))
        ⊎ (check moment rid payload w ≡ (throw bad_request, w))
  unfolding assert_target_allowed
  check-cases moment rid payload w = grind arith

  -- An application writes the routes or throws, and never touches the requests.
  abbrev pub AppliesOr : M State (Unit {0}) → State → Type 0
  AppliesOr m w =
      ((rts : routes.State) × (m w ≡ (ok tt, record w { rts = rts })))
      ⊎ ((e : AppError) × (m w ≡ (throw e, w)))

  apply_to-cases :
      (kind : Kind) (rid : Option String) (payload : Payload Value) (w : State)
      → AppliesOr (apply_to Value requests routes targets kind rid payload) w
  unfolding apply_to
  apply_to-cases update_route (some rid) payload w =
      elim (check-cases on_apply (some rid) payload w) [
        | inr refused ↦ inr (bad_request, ground arith)
        | inl passed ↦ elim (Option-cases (routes.find_unique rid w.rts)) [
          | inl missing ↦ inr (record_not_found, ground arith)
          | inr (row, found) ↦ elim (Bool-cases (path_free Value targets rid payload (some row))) [
            | inl free ↦
                inl (routes.write rid (apply_payload Value targets payload row) w.rts, ground arith)
            | inr taken ↦ inr (conflict, ground arith)
          ]
        ]
      ]
  apply_to-cases update_route none payload w = inl (w.rts, refl)
  apply_to-cases create_route rid payload w = inl (w.rts, refl)
  apply_to-cases delete_route rid payload w = inl (w.rts, refl)

  pub apply_change-cases : (cr : Request Value) (w : State) → AppliesOr (change cr) w
  unfolding apply_change
  apply_change-cases cr w = apply_to-cases cr.kind (present cr.route_id) cr.payload w

  -- Approving a request that is found ends in one of three ways: it returns and the request is
  -- applied, with its reviewer; it throws and nothing was written; or it throws, the request is left
  -- approved, and no route was written.
  pub approve-outcome :
      (id reviewer : String) (comment : Option String) (now : ℕ) (w : State) (r : Request Value)
      → requests.find_unique id w.crs ≡ some r
      → let (answer, w') = approve Value requests routes targets id reviewer comment now w in
        ((r' : Request Value) × (answer ≡ ok r')
          × (requests.find_unique id w'.crs ≡ some r')
          × (r'.status ≡ applied)
          × (r'.reviewed_by ≡ some reviewer))
        ⊎ ((e : AppError) × (answer ≡ throw e) × (w' ≡ w))
        ⊎ ((e : AppError) × (r' : Request Value) × (answer ≡ throw e)
            × (requests.find_unique id w'.crs ≡ some r')
            × (r'.status ≡ approved)
            × (w'.rts ≡ w.rts))
  unfolding approve
  approve-outcome id reviewer comment now w r found =
      let cr : Request Value = approved_data Value requests routes targets reviewer comment now r in
      let w1 : State = record w { crs = requests.write id cr w.crs } in
      let at = find_unique-write_self requests id cr w.crs in
      elim (check_pending-cases r w) [
        | inr refused ↦ inr (inl (bad_request, ground arith, ground arith))
        | inl passed ↦ elim (apply_change-cases cr w1) [
          | inr (e, failed) ↦ inr (inr (e, cr, ground arith, ground arith, refl, ground arith))
          | inl (rts, done) ↦ inl (
            record cr { status = applied },
            ground arith,
            ground
                (arith, find_unique-write_self requests id (record cr { status = applied }) w1.crs),
            refl,
            refl,
          )
        ]
      ]

  -- A request that is found, is not an update and passes the check of its target is marked applied
  -- whatever its status was (rejected, or applied before), while the routes stay as they are.
  pub approve-not_update :
      (id reviewer : String) (comment : Option String) (now : ℕ) (w : State) (r : Request Value)
      → requests.find_unique id w.crs ≡ some r
      → r.kind ≢ update_route
      → wait_for r w ≡ (ok tt, w)
      → let (answer, w') = approve Value requests routes targets id reviewer comment now w in
        (r' : Request Value) × (answer ≡ ok r')
        × (requests.find_unique id w'.crs ≡ some r')
        × (r'.status ≡ applied)
        × (w'.rts ≡ w.rts)
  unfolding approve apply_change
  approve-not_update id reviewer comment now w r found other passed =
      let cr : Request Value = approved_data Value requests routes targets reviewer comment now r in
      let w1 : State = record w { crs = requests.write id cr w.crs } in
      let at = find_unique-write_self requests id cr w.crs in
      let nothing : change cr w1 ≡ (ok tt, w1) = unfold apply_to in ground arith in
      (
        record cr { status = applied },
        ground arith,
        ground (arith, find_unique-write_self requests id (record cr { status = applied }) w1.crs),
        refl,
        ground arith,
      )
