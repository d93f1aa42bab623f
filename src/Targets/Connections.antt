-- ===== src/Targets/Connections.antt =====
-- What the lookup of a host name never hands to a connection, whatever was saved and looked up before.
use cluster_gate.Prelude.{
  some, true, [], ◌∷◌, refl, inl, inr, String, List, ◌≡◌, Any, Bool-cases, Option-cases, arith,
  none,
}
use cluster_gate.Targets.{Platform}
use cluster_gate.Targets.Check.{
  DenyState, find_refused, TargetError, assert_target_allowed, validate_target_url, safe_lookup,
  refresh_database_addresses, resolves_to_metadata, denied_address, get_default_deny_list,
}
use cluster_gate.Targets.Loopback.{
  KnowsLoopback, IsLoopback, use_run, use_step, Use, saves, refreshes,
  refresh_database_addresses-Guards, get_default_deny_list-Denies, start, connects,
}
use cluster_gate.Targets.DenyList.{DenyOptions, Rule, match_ip}
use cluster_gate.Targets.Denies.{Denies, Guards}
use cluster_gate.Targets.Metadata.{is_metadata_ip}

module _ (os : Platform) (a : String) where
  find_refused-covered :
      (rules : List Rule) (found : List String)
      → Denies os a rules
      → Any (λ b. b ≡ a) found
      → (e : TargetError) × (find_refused os rules found ≡ some e)
  unfolding find_refused
  find_refused-covered rules [] denied h = absurd h
  find_refused-covered rules (b ∷ found) (why, denied) h = elim (Bool-cases (is_metadata_ip os b)) [
    | inl endpoint ↦ (resolves_to_metadata b, rw endpoint refl)
    | inr other ↦ elim (Option-cases (match_ip os rules b)) [
      | inr (w, covers) ↦ (denied_address b w, rw (other, covers) refl)
      | inl free ↦ elim h [
        | inl same ↦ absurd (ground (arith, free, denied, same))
        | inr later ↦
            let (e, refused) = find_refused-covered rules found (why, denied) later in
            (e, rw (other, free) refused)
      ]
    ]
  ]

module _ (os : Platform) (a : String) (known : KnowsLoopback os) (local : IsLoopback os a)
    (env : DenyOptions) (on : env.defaults ≡ true) where
  use_step-Guards :
      (u : Use) (s : DenyState)
      → Guards os a s.default_list
      → Guards os a (use_step os env u s).default_list
  unfolding use_step assert_target_allowed
  use_step-Guards (saves now domain policy target) s kept =
      elim (Option-cases (validate_target_url os target)) [
        | inl passes ↦
            let looked = refresh_database_addresses-Guards os a known local env on now s kept in
            rw (use_step, assert_target_allowed, passes)
              ((get_default_deny_list-Denies os a known local env on
                (refresh_database_addresses os env now s) looked).1)
        | inr (e, fails) ↦ rw (use_step, assert_target_allowed, fails) kept
      ]
  use_step-Guards (refreshes now) s kept =
      refresh_database_addresses-Guards os a known local env on now s kept
  use_step-Guards connects s kept = (get_default_deny_list-Denies os a known local env on s kept).1

  use_run-Guards :
      (us : List Use) (s : DenyState)
      → Guards os a s.default_list
      → Guards os a (use_run os env us s).default_list
  unfolding use_run
  use_run-Guards [] s kept = kept
  use_run-Guards (u ∷ us) s kept =
      use_run-Guards us (use_step os env u s) (use_step-Guards u s kept)

  -- Once the built-in rules are on, safe_lookup hands no connection a list of resolved addresses in which
  -- one stands that BlockList puts into 127.0.0.0/8, by itself or inside a mapped IPv6 address,
  -- whatever was saved, refreshed and looked up before, whatever the operator added to the list and
  -- whatever the database resolves to, where toLowerCase leaves that entry as it is and net.isIP knows
  -- its address. It speaks of names only: for a host that is itself an address Node makes no lookup.
  pub safe_lookup-no_loopback :
      (us : List Use) (found : List String)
      → Any (λ b. b ≡ a) found
      → safe_lookup os env (some found) (use_run os env us start) ≡ none
  unfolding safe_lookup
  safe_lookup-no_loopback us found h =
      let s = use_run os env us start in
      let denied =
        (get_default_deny_list-Denies os a known local env on s (use_run-Guards us start tt)).0 in
      let (e, refused) =
        find_refused-covered os a (get_default_deny_list os env s).0 found denied h in
      rw (safe_lookup, refused) refl
