-- ===== src/ChangeRequest/Effects.antt =====
-- What a change request can write.
use cluster_gate.Prelude.{
  none, some, false, refl, inl, inr, Table, String, ◌≡◌, Bool-cases, str_eq, Option,
  find_unique-write_ne, ◌∙◌, arith, Option-cases, eq_iff, sym, ap, find_unique-write_self, ℕ,
  present,
}
use cluster_gate.ChangeRequest.{
  path_free, update_route, create_route, delete_route, written, Request, RouteRow, Targets, World,
  includes, allowed_fields, apply_payload, apply_to, Payload, Kind, on_apply, approve, apply_change,
  approved_data,
}
use cluster_gate.ChangeRequest.Workflow.{check-cases, check_pending-cases, apply_change-cases}

module _ (Value : Type 0) (requests : Table (Request Value)) (routes : Table (RouteRow Value))
    (targets : Targets Value) where
  abbrev State : Type 0
  State = World Value requests routes targets

  module _ (j c : String) (protected : includes allowed_fields c ≡ false)
      (not_stamp : str_eq c "updatedAt" ≡ false) where
    -- The route under `j` is still there, with its organization and with its column `c`.
    abbrev Kept : RouteRow Value → routes.State → Type 0
    Kept row rts =
        (row' : RouteRow Value) × (routes.find_unique j rts ≡ some row')
        × (row'.organization_id ≡ row.organization_id)
        × (row'.columns c ≡ row.columns c)

    apply_payload-columns :
        (payload : Payload Value) (row : RouteRow Value)
        → (apply_payload Value targets payload row).columns c ≡ row.columns c
    unfolding apply_payload
    apply_payload-columns payload row = rw not_stamp (rw (written, protected) refl)

    write-Kept :
        (rid : String) (payload : Payload Value) (old row : RouteRow Value) (rts : routes.State)
        → routes.find_unique rid rts ≡ some old
        → routes.find_unique j rts ≡ some row
        → Kept row (routes.write rid (apply_payload Value targets payload old) rts)
    unfolding apply_payload
    write-Kept rid payload old row rts at found = elim (Bool-cases (str_eq rid j)) [
      | inl same ↦
          let e : rid ≡ j = (eq_iff rid j).0 same in
          let both : some old ≡ some row =
            sym at ∙ (ap (λ k. routes.find_unique k rts) e ∙ found) in
          let o : old ≡ row = cc in
          (
            apply_payload Value targets payload old,
            rw (← e)
                (find_unique-write_self routes rid (apply_payload Value targets payload old) rts),
            ap (λ r. r.organization_id) o,
            apply_payload-columns payload old ∙ ap (λ r. r.columns c) o,
          )
      | inr other ↦ (
        row,
        find_unique-write_ne routes rid j (apply_payload Value targets payload old) rts other
            ∙ found,
        refl,
        refl,
      )
    ]

    apply_to-Kept :
        (kind : Kind) (rid : Option String) (payload : Payload Value) (w : State)
        (row : RouteRow Value)
        → routes.find_unique j w.rts ≡ some row
        → Kept row (apply_to Value requests routes targets kind rid payload w).1.rts
    unfolding apply_to
    apply_to-Kept update_route (some rid) payload w row found =
        elim (check-cases Value requests routes targets on_apply (some rid) payload w) [
          | inr refused ↦ (row, ground arith, refl, refl)
          | inl passed ↦ elim (Option-cases (routes.find_unique rid w.rts)) [
            | inl missing ↦ (row, ground arith, refl, refl)
            | inr (old, at) ↦
                let (row', there, org, col) = write-Kept rid payload old row w.rts at found in
                elim (Bool-cases (path_free Value targets rid payload (some old))) [
                  | inl free ↦ (row', ground arith, org, col)
                  | inr taken ↦ (row, ground arith, refl, refl)
                ]
          ]
        ]
    apply_to-Kept update_route none payload w row found = (row, found, refl, refl)
    apply_to-Kept create_route rid payload w row found = (row, found, refl, refl)
    apply_to-Kept delete_route rid payload w row found = (row, found, refl, refl)

    apply_change-Kept :
        (cr : Request Value) (w : State) (row : RouteRow Value)
        → routes.find_unique j w.rts ≡ some row
        → Kept row (apply_change Value requests routes targets cr w).1.rts
    unfolding apply_change
    apply_change-Kept cr w row found =
        apply_to-Kept cr.kind (present cr.route_id) cr.payload w row found

    -- Approving a change request that is found, in whatever way it ends, leaves every route in the
    -- table, with its organization and with each column that is neither in the list of allowed fields
    -- nor updatedAt, which Prisma writes with every update.
    pub approve-columns :
        (id reviewer : String) (comment : Option String) (now : ℕ) (w : State) (r : Request Value)
        (row : RouteRow Value)
        → requests.find_unique id w.crs ≡ some r
        → routes.find_unique j w.rts ≡ some row
        → Kept row (approve Value requests routes targets id reviewer comment now w).1.rts
    unfolding approve
    approve-columns id reviewer comment now w r row found there =
        let cr : Request Value =
          approved_data Value requests routes targets reviewer comment now r in
        let w1 : State = record w { crs = requests.write id cr w.crs } in
        let at = find_unique-write_self requests id cr w.crs in
        let (row', left, org, col) = apply_change-Kept cr w1 row there in
        elim (check_pending-cases Value requests routes targets r w) [
          | inr refused ↦ (row, ground arith, refl, refl)
          | inl passed ↦ elim (apply_change-cases Value requests routes targets cr w1) [
            | inr (e, failed) ↦ (row', ground arith, org, col)
            | inl (rts, done) ↦ (row', ground arith, org, col)
          ]
        ]
