-- ===== src/ApiKeys/Runs.antt =====
-- A replica that makes all changes to the keys itself: its cache never answers differently from the
-- database.
use mathlib.Core.Path.{subst}
use cluster_gate.Prelude.{
  ℕ, [], ◌∷◌, refl, inl, inr, find_first, String, List, Option, ◌≤◌, M, ◌≡◌, exec, arith, some,
  Option-cases, Bool-cases, text_in, not_found, ◌>>=◌, sym, find_first-map, Reads, Reads-bind,
}
use cluster_gate.ApiKeys.{
  flush_usage, verify_api_key, World, poll_revoke_epoch, lookup_key, Database,
  invalidate_api_key_caches, usable, used, key_covers_route, Usage, ApiKey, same_epoch,
  invalidate_cache,
}
use cluster_gate.ApiKeys.Manage.{
  create_api_key, set_api_key_routes, detach_api_key_from_route, revoke_api_key, delete_api_key,
  NewKey, assert_live_route, add_shared_key, add_key, resolve_share_targets, resolve_share_folders,
  key_of,
}
use cluster_gate.ApiKeys.Transparent.{
  IsBacked, IsCleared-IsBacked, lookup_key-append, IsBacked-later, verify_api_key-IsBacked,
  verify_api_key-lookup,
}
use cluster_gate.ApiKeys.Clearing.{
  Clears, resolved-Reads, IsCleared, set_api_key_routes-Clears, detach_api_key_from_route-Clears,
  revoke_api_key-Clears, delete_api_key-Clears,
}
use cluster_gate.ApiKeys.CacheKey.{NoColon}

pub data Event : Type 0 where
  checked : ℕ → String → String → Option String → Event
  flushed polled : Event
  shared : ℕ → String → String → List String → List String → Event
  detached revoked deleted : ℕ → String → String → Event
  created : NewKey → List String → List String → Event
  -- the folder router has moved routes, and then calls invalidateApiKeyCaches
  moved : ℕ → (String → Option String) → Event

-- The clock that an event shows, if any, else the time before it.
abbrev pub time_of : ℕ → Event → ℕ
time_of t (checked now key route_id ip) = now
time_of t (shared now key_id owner routes folders) = now
time_of t (detached now key_id route_id) = now
time_of t (revoked now key_id route_id) = now
time_of t (deleted now key_id route_id) = now
time_of t (moved now folder_of) = now
time_of t flushed = t
time_of t polled = t
time_of t (created n routes folders) = t

abbrev pub InOrder : ℕ → List Event → Type 0
InOrder t [] = Unit
InOrder t (e ∷ es) = (t ≤ time_of t e) × InOrder (time_of t e) es

abbrev pub last_time : ℕ → List Event → ℕ
last_time t [] = t
last_time t (e ∷ es) = last_time (time_of t e) es

abbrev moved_routes : ℕ → (String → Option String) → World → World
moved_routes now folder_of w =
    let db : Database = record w.db { folder_of = folder_of } in
    invalidate_api_key_caches now (record w { db = db })

module _ (hash_key : String → String) where
  unfoldable pub step : Event → World → World
  unfolding verify_api_key set_api_key_routes detach_api_key_from_route revoke_api_key
      delete_api_key create_api_key flush_usage poll_revoke_epoch
  step (checked now key route_id ip) w = (verify_api_key hash_key now key route_id ip w).1
  step flushed w = flush_usage w
  step polled w = poll_revoke_epoch w
  step (shared now key_id owner routes folders) w =
      exec (set_api_key_routes now key_id owner routes folders) w
  step (detached now key_id route_id) w = exec (detach_api_key_from_route now key_id route_id) w
  step (revoked now key_id route_id) w = exec (revoke_api_key now key_id route_id) w
  step (deleted now key_id route_id) w = exec (delete_api_key now key_id route_id) w
  step (created n routes folders) w = exec (create_api_key hash_key n routes folders) w
  step (moved now folder_of) w = moved_routes now folder_of w

  unfoldable pub run : List Event → World → World
  unfolding step
  run [] w = w
  run (e ∷ es) w = run es (step e w)

  Clears-IsBacked :
      (t now : ℕ) {A : Type 0} (m : M World A) (w : World)
      → IsBacked hash_key t w
      → t ≤ now
      → Clears m w
      → IsBacked hash_key now (exec m w)
  Clears-IsBacked t now m w b le (inl same) =
      subst (IsBacked hash_key now) (sym same) (IsBacked-later hash_key t now w b le)
  Clears-IsBacked t now m w b le (inr cleared) = IsCleared-IsBacked hash_key now (exec m w) cleared

  usable-used :
      (now : ℕ) (hash route_id : String) (db : Database) (pending : String → Option Usage)
      (k : ApiKey)
      → usable now hash route_id db (used pending k) ≡ usable now hash route_id db k
  unfolding key_covers_route
  usable-used now hash route_id db pending k = ground arith

  flush_usage-IsBacked :
      (t : ℕ) (w : World) → IsBacked hash_key t w → IsBacked hash_key t (flush_usage w)
  unfolding flush_usage lookup_key
  flush_usage-IsBacked t w b route_id hash c n at now le lt =
      let before = b route_id hash c n at now le lt in
      let through =
        find_first-map (usable now hash route_id w.db) (used w.pending_usage) w.db.keys
          (λ k. usable-used now hash route_id w.db w.pending_usage k) in
      elim (Option-cases (find_first (usable now hash route_id w.db) w.db.keys)) [
        | inl missing ↦ absurd (ground arith)
        | inr (k, found) ↦
            rw (lookup_key, through, found)
              (elim (Option-cases (w.pending_usage k.id)) [
                | inl unused ↦ rw (used, unused) (ground (arith, before, found))
                | inr (u, counts) ↦ rw (used, counts) (ground (arith, before, found))
              ])
      ]

  poll_revoke_epoch-IsBacked :
      (t : ℕ) (w : World) → IsBacked hash_key t w → IsBacked hash_key t (poll_revoke_epoch w)
  unfolding poll_revoke_epoch
  poll_revoke_epoch-IsBacked t w b = elim (Option-cases w.last_seen_epoch) [
    | inl never ↦ rw (poll_revoke_epoch, never) b
    | inr (n, seen) ↦ elim (Bool-cases (same_epoch (some n) w.db.epoch)) [
      | inl same ↦ rw (poll_revoke_epoch, seen, same) b
      | inr changed ↦
          rw (poll_revoke_epoch, seen, changed)
            (IsCleared-IsBacked hash_key t
              (invalidate_cache (record w { last_seen_epoch = w.db.epoch })) (λ ck. refl))
    ]
  ]

  assert_live_route-Reads : (route_id : String) (w : World) → Reads (assert_live_route route_id) w
  unfolding assert_live_route
  assert_live_route-Reads route_id w = elim (Bool-cases (text_in route_id w.db.live_routes)) [
    | inl there ↦ inl (tt, rw (assert_live_route, there))
    | inr missing ↦ inr (not_found, rw (assert_live_route, missing))
  ]

  -- A new key takes no other key's place.
  add_key-IsBacked :
      (t : ℕ) (n : NewKey) (targets folders : List String) (w : World)
      → IsBacked hash_key t w
      → IsBacked hash_key t (exec (add_key hash_key n targets folders) w)
  add_key-IsBacked t n targets folders w b route_id hash c no_colon at now le lt =
      lookup_key-append hash_key now hash route_id w.db (key_of hash_key n targets folders)
        c.verified (b route_id hash c no_colon at now le lt)

  create_api_key-IsBacked :
      (t : ℕ) (n : NewKey) (routes folders : List String) (w : World)
      → IsBacked hash_key t w
      → IsBacked hash_key t (exec (create_api_key hash_key n routes folders) w)
  unfolding create_api_key add_shared_key resolve_share_targets resolve_share_folders
  create_api_key-IsBacked t n routes folders w b =
      let Q : World → Type 0 = IsBacked hash_key t in
      Reads-bind Q (assert_live_route n.route_id)
        (λ _. resolve_share_targets n.route_id routes >>= add_shared_key hash_key n folders) w
        (assert_live_route-Reads n.route_id w) b
        (λ _ _.
          Reads-bind Q (resolve_share_targets n.route_id routes) (add_shared_key hash_key n folders)
            w (resolved-Reads _ _ w) b
            (λ targets _.
              Reads-bind Q (resolve_share_folders folders) (add_key hash_key n targets) w
                (resolved-Reads _ _ w) b (λ fs _. add_key-IsBacked t n targets fs w b)))

  -- What is relied on: no digest of the hash has a colon.
  module _ (hexadecimal : (key : String) → NoColon (hash_key key)) where
    step-IsBacked :
        (t : ℕ) (e : Event) (w : World)
        → IsBacked hash_key t w
        → t ≤ time_of t e
        → IsBacked hash_key (time_of t e) (step e w)
    unfolding step
    step-IsBacked t (checked now key route_id ip) w b le =
        verify_api_key-IsBacked hash_key t now key route_id ip w b le (hexadecimal key)
    step-IsBacked t flushed w b le = flush_usage-IsBacked t w b
    step-IsBacked t polled w b le = poll_revoke_epoch-IsBacked t w b
    step-IsBacked t (shared now key_id owner routes folders) w b le =
        Clears-IsBacked t now (set_api_key_routes now key_id owner routes folders) w b le
          (set_api_key_routes-Clears now key_id owner routes folders w)
    step-IsBacked t (detached now key_id route_id) w b le =
        Clears-IsBacked t now (detach_api_key_from_route now key_id route_id) w b le
          (detach_api_key_from_route-Clears now key_id route_id w)
    step-IsBacked t (revoked now key_id route_id) w b le =
        Clears-IsBacked t now (revoke_api_key now key_id route_id) w b le
          (revoke_api_key-Clears now key_id route_id w)
    step-IsBacked t (deleted now key_id route_id) w b le =
        Clears-IsBacked t now (delete_api_key now key_id route_id) w b le
          (delete_api_key-Clears now key_id route_id w)
    step-IsBacked t (created n routes folders) w b le =
        create_api_key-IsBacked t n routes folders w b
    step-IsBacked t (moved now folder_of) w b le =
        IsCleared-IsBacked hash_key now (moved_routes now folder_of w) (λ ck. refl)

    run-IsBacked :
        (t : ℕ) (es : List Event) (w : World)
        → IsBacked hash_key t w
        → InOrder t es
        → IsBacked hash_key (last_time t es) (run es w)
    unfolding run
    run-IsBacked t [] w b o = b
    run-IsBacked t (e ∷ es) w b (le, o) =
        run-IsBacked (time_of t e) es (step e w) (step-IsBacked t e w b le) o

    -- From an empty cache and after any events in the order of their times, each run as a whole and
    -- all by this replica (checks, changes to keys and folders, flushes, polls), a key is accepted,
    -- and with the id and scope, exactly as a query of the database at that moment would accept it:
    -- the cache never outlives a revocation or an expiry.
    pub run-lookup_key :
        (t : ℕ) (es : List Event) (w : World)
        → IsCleared w
        → InOrder t es
        → (now : ℕ) (key route_id : String) (ip : Option String) → last_time t es ≤ now
        → (verify_api_key hash_key now key route_id ip (run es w)).0
          ≡ lookup_key hash_key now (hash_key key) route_id (run es w).db
    run-lookup_key t es w cleared o now key route_id ip le =
        verify_api_key-lookup hash_key (last_time t es) now key route_id ip (run es w)
          (run-IsBacked t es w (IsCleared-IsBacked hash_key t w cleared) o) le (hexadecimal key)
