-- ===== src/ApiKeys/Race.antt =====
-- revokeApiKey drops the cached validations before it waits for the update of the key. What another
-- request does in between is not dropped again.
use text.Mathlib.TextPositions.{eq_refl}
use cluster_gate.Prelude.{
  ℕ, none, some, true, String, Option, ◌≡◌, str_eq, find_first, ◌<◌, ◌+◌, exec, false, refl, ◌∙◌,
  ltb, lt→ltb, Bool, if◌then◌else◌, find_first-holds, arith, find_first-map,
}
use cluster_gate.ApiKeys.{
  World, ApiKey, usable, positive_ttl_ms, verify_api_key, verified_of, record_usage,
  invalidate_api_key_caches, verify_uncached, cache_key, Cached,
}
use cluster_gate.ApiKeys.Manage.{key_by_id, revoke_begin, revoke_commit, owned}
use cluster_gate.ApiKeys.Transparent.{remember-db, remember-valid_cache}

revoke_begin-owned :
    (now : ℕ) (key_id route_id : String) (w : World) (k : ApiKey)
    → key_by_id key_id w ≡ some k
    → str_eq k.route_id route_id ≡ true
    → exec (revoke_begin now key_id route_id) w ≡ invalidate_api_key_caches now w
unfolding revoke_begin owned
revoke_begin-owned now key_id route_id w k own routed = rw (exec, revoke_begin, owned, own, routed)

revoked_row :
    (key_id : String) (w : World) (k : ApiKey)
    → key_by_id key_id w ≡ some k
    → key_by_id key_id (exec (revoke_commit key_id) w) ≡ some (record k { is_active = false })
unfolding revoke_commit
revoked_row key_id w k own =
    let p : ApiKey → Bool = λ x. str_eq x.id key_id in
    let f : ApiKey → ApiKey = λ x. if p x then record x { is_active = false } else x in
    let holds = find_first-holds p w.db.keys k own in
    find_first-map p f w.db.keys (λ x. ground arith) ∙ rw own (rw (holds) refl)

module _ (hash_key : String → String) where
  verify_api_key-caches :
      (now : ℕ) (key route_id : String) (ip : Option String) (w : World) (k : ApiKey)
      → w.valid_cache (cache_key route_id (hash_key key)) ≡ none
      → find_first (usable now (hash_key key) route_id w.db) w.db.keys ≡ some k
      → k.expires_at ≡ none
      → let (answer, w') = verify_api_key hash_key now key route_id ip w in
        (answer ≡ some (verified_of k))
        × (w'.db ≡ w.db)
        × (w'.valid_cache (cache_key route_id (hash_key key))
            ≡ some (record { verified = verified_of k; cache_until = now + positive_ttl_ms }))
  unfolding verify_api_key record_usage verify_uncached
  verify_api_key-caches now key route_id ip w k empty found forever =
      rw (verify_api_key, empty, found)
        (
          refl,
          remember-db hash_key now _ k w,
          remember-valid_cache hash_key now _ k w _ ∙ rw (forever, eq_refl),
        )

  verify_api_key-cached :
      (now : ℕ) (key route_id : String) (ip : Option String) (w : World) (c : Cached)
      → w.valid_cache (cache_key route_id (hash_key key)) ≡ some c
      → now < c.cache_until
      → (verify_api_key hash_key now key route_id ip w).0 ≡ some c.verified
  unfolding verify_api_key
  verify_api_key-cached now key route_id ip w c cached lt =
      let early : ltb now c.cache_until ≡ true = lt→ltb now c.cache_until lt in
      rw (verify_api_key, cached, early)

  -- A key with no expiry that is checked between the two halves of its revocation, on the replica
  -- that revokes it, is accepted; and though it is revoked after that, it is accepted again in the
  -- thirty seconds from that check, as long as nothing else clears the cache.
  pub revoke_begin-race :
      (now later : ℕ) (key key_id route_id : String) (ip : Option String) (w : World) (k : ApiKey)
      → key_by_id key_id w ≡ some k
      → str_eq k.route_id route_id ≡ true
      → find_first (usable now (hash_key key) route_id w.db) w.db.keys ≡ some k
      → k.expires_at ≡ none
      → later < now + positive_ttl_ms
      → let between = exec (revoke_begin now key_id route_id) w in
        let checked = verify_api_key hash_key now key route_id ip between in
        let after = exec (revoke_commit key_id) checked.1 in
        (checked.0 ≡ some (verified_of k))
        × (key_by_id key_id after ≡ some (record k { is_active = false }))
        × ((verify_api_key hash_key later key route_id ip after).0 ≡ some (verified_of k))
  unfolding revoke_commit verify_api_key
  revoke_begin-race now later key key_id route_id ip w k own routed found forever lt =
      let between = invalidate_api_key_caches now w in
      let checked = verify_api_key hash_key now key route_id ip between in
      let (accepted, same, cached) =
        verify_api_key-caches now key route_id ip between k refl found forever in
      rw (revoke_begin-owned now key_id route_id w k own routed) (
        accepted,
        revoked_row key_id checked.1 k (rw (same) own),
        verify_api_key-cached later key route_id ip (exec (revoke_commit key_id) checked.1)
            (record { verified = verified_of k; cache_until = now + positive_ttl_ms }) cached lt,
      )
