-- ===== src/ApiKeys/Transparent.antt =====
-- On one replica the cache of validations is transparent: it answers as the database would.
use cluster_gate.Prelude.{
  ℕ, some, [], ◌∷◌, inl, inr, String, Option, ◌≤◌, ◌≡◌, find_first, ◌++◌, ◌<◌, Option-cases, ◌+◌,
  arith, Bool-cases, find_first-append, ltb, ltb→lt, sym, str_eq, eq_iff, if◌then◌else◌, ◌∙◌, ◌&&◌,
}
use cluster_gate.ApiKeys.{
  World, lookup_key, verify_api_key, Database, Cached, ApiKey, cache_key, Verified, usable, ttl_of,
  verified_of, verify_uncached, fresh, remember, record_usage,
}
use cluster_gate.ApiKeys.CacheKey.{NoColon, cache_key-injective}
use cluster_gate.ApiKeys.Lookup.{find_first_later}
use cluster_gate.ApiKeys.Clearing.{IsCleared}

module _ (hash_key : String → String) where
  -- The answer of the database once a key was found, as long as its cache entry lasts.
  lookup_key-later :
      (now later : ℕ) (hash route_id : String) (db : Database) (k : ApiKey)
      → find_first (usable now hash route_id db) db.keys ≡ some k
      → now ≤ later
      → later < now + ttl_of now k.expires_at
      → lookup_key hash_key later hash route_id db ≡ some (verified_of k)
  unfolding lookup_key
  lookup_key-later now later hash route_id db k found le lt =
      let still = find_first_later hash route_id now later db db.keys k le found (ground arith) in
      rw still

  pub lookup_key-append :
      (now : ℕ) (hash route_id : String) (db : Database) (k : ApiKey) (v : Verified)
      → lookup_key hash_key now hash route_id db ≡ some v
      → lookup_key hash_key now hash route_id (record db { keys = db.keys ++ k ∷ [] }) ≡ some v
  unfolding lookup_key
  lookup_key-append now hash route_id db k v h =
      elim (Option-cases (find_first (usable now hash route_id db) db.keys)) [
        | inl missing ↦ absurd (ground arith)
        | inr (x, found) ↦
            ground
              (arith, find_first-append (usable now hash route_id db) db.keys (k ∷ []) x found, h)
      ]

  -- What the cache holds is what the database says, from `t` on and as long as the entry lasts.
  abbrev pub IsBacked : ℕ → World → Type 0
  IsBacked t w =
      (route_id hash : String) (c : Cached)
      → NoColon hash
      → w.valid_cache (cache_key route_id hash) ≡ some c
      → (now : ℕ) → t ≤ now
      → now < c.cache_until
      → lookup_key hash_key now hash route_id w.db ≡ some c.verified

  uncached :
      (now : ℕ) (key route_id : String) (ip : Option String) (w : World)
      → (verify_uncached hash_key now
          (hash_key key)
          route_id
          ip
          w
          (find_first (usable now (hash_key key) route_id w.db) w.db.keys)).0
        ≡ lookup_key hash_key now (hash_key key) route_id w.db
  unfolding verify_uncached lookup_key
  uncached now key route_id ip w =
      elim (Option-cases (find_first (usable now (hash_key key) route_id w.db) w.db.keys)) [
        | inl missing ↦ rw missing
        | inr (k, found) ↦ rw found
      ]

  -- The cache answers as the database does.
  pub verify_api_key-lookup :
      (t now : ℕ) (key route_id : String) (ip : Option String) (w : World)
      → IsBacked t w
      → t ≤ now
      → NoColon (hash_key key)
      → (verify_api_key hash_key now key route_id ip w).0
        ≡ lookup_key hash_key now (hash_key key) route_id w.db
  unfolding verify_api_key lookup_key
  verify_api_key-lookup t now key route_id ip w b le n =
      elim (Option-cases (w.valid_cache (cache_key route_id (hash_key key)))) [
        | inl missing ↦ rw (verify_api_key, missing) (uncached now key route_id ip w)
        | inr (c, found) ↦ elim (Bool-cases (ltb now c.cache_until)) [
          | inl early ↦
              let says =
                b route_id (hash_key key) c n found now le (ltb→lt now c.cache_until early) in
              rw (verify_api_key, found, early) (sym says)
          | inr late ↦ rw (verify_api_key, found, late) (uncached now key route_id ip w)
        ]
      ]

  pub IsBacked-later : (t now : ℕ) (w : World) → IsBacked t w → t ≤ now → IsBacked now w
  IsBacked-later t now w b le route_id hash c n found later le' lt =
      b route_id hash c n found later (omega arith) lt

  pub remember-db :
      (now : ℕ) (ck : String) (k : ApiKey) (w : World) → (remember now ck k w).db ≡ w.db
  unfolding remember
  remember-db now ck k w = ground arith

  pub remember-valid_cache :
      (now : ℕ) (ck : String) (k : ApiKey) (w : World) (ck' : String)
      → (remember now ck k w).valid_cache ck' ≡ (
          if ltb 0 (ttl_of now k.expires_at) && str_eq ck ck'
          then some
              (record { verified = verified_of k; cache_until = now + ttl_of now k.expires_at })
          else w.valid_cache ck')
  unfolding remember
  remember-valid_cache now ck k w ck' = ground arith

  -- An entry that was just found in the database is backed.
  remember-IsBacked :
      (now : ℕ) (hash route_id : String) (k : ApiKey) (w : World)
      → NoColon hash
      → find_first (usable now hash route_id w.db) w.db.keys ≡ some k
      → IsBacked now w
      → IsBacked now (remember now (cache_key route_id hash) k w)
  remember-IsBacked now hash route_id k w n found b route_id' hash' c n' at later le lt =
      let ck = cache_key route_id hash in
      let ck' = cache_key route_id' hash' in
      let entry = sym (remember-valid_cache now ck k w ck') ∙ at in
      rw (remember-db now ck k w) (elim (Bool-cases (str_eq ck ck')) [
        | inl same ↦ elim (Bool-cases (ltb 0 (ttl_of now k.expires_at))) [
          | inl long ↦
              let (routes, hashes) =
                cache_key-injective route_id route_id' hash hash' n n' ((eq_iff ck ck').0 same) in
              let until : c.cache_until ≡ now + ttl_of now k.expires_at = ground arith in
              let who : c.verified ≡ verified_of k = ground arith in
              rw (← routes, ← hashes, who)
                (lookup_key-later now later hash route_id w.db k found le (omega arith))
          | inr short ↦ b route_id' hash' c n' (ground arith) later le lt
        ]
        | inr other ↦ b route_id' hash' c n' (ground arith) later le lt
      ])

  -- A check keeps the cache backed, from its time on.
  pub verify_api_key-IsBacked :
      (t now : ℕ) (key route_id : String) (ip : Option String) (w : World)
      → IsBacked t w
      → t ≤ now
      → NoColon (hash_key key)
      → IsBacked now (verify_api_key hash_key now key route_id ip w).1
  unfolding verify_api_key record_usage
  verify_api_key-IsBacked t now key route_id ip w b le n =
      elim (Option-cases (fresh now (w.valid_cache (cache_key route_id (hash_key key))))) [
        | inr (c, found) ↦ rw (verify_api_key, found) (IsBacked-later t now w b le)
        | inl stale ↦
            elim (Option-cases (find_first (usable now (hash_key key) route_id w.db) w.db.keys)) [
              | inl missing ↦ rw (verify_api_key, stale, missing) (IsBacked-later t now w b le)
              | inr (k, found) ↦
                  rw (verify_api_key, stale, found)
                    (remember-IsBacked now (hash_key key) route_id k w n found
                      (IsBacked-later t now w b le))
            ]
      ]

  pub IsCleared-IsBacked : (t : ℕ) (w : World) → IsCleared w → IsBacked t w
  IsCleared-IsBacked t w empty route_id hash c n found now le lt =
      let nothing = empty (cache_key route_id hash) in absurd (ground arith)
