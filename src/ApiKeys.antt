-- ===== src/ApiKeys.antt =====
-- backend/src/services/apiKeyService.ts: the keys that routes accept, one replica's cache of
-- validations and its pending usage. A key's name and hint, the times of its use and the listings
-- are left out. Times are milliseconds; sha256 and the drawn keys are parameters.
pub mod Manage
pub mod CacheKey
pub mod Lookup
pub mod Clearing
pub mod Transparent
pub mod Runs
pub mod Race
mod Tests
use mathlib.Core.Option
use cluster_gate.Prelude.{
  ◌>>=◌, ℕ, none, some, true, false, [], ◌∷◌, ok, throw, if◌then◌else◌, map, List, String, Option,
  ltb, M, find_first, ◌+◌, str_eq, Bool, leb, str_append, filter_by, not_found, present, ◌-◌,
  some_of, ◌==◌, ◌&&◌, distinct_from, ◌>>◌, ◌||◌, not, text_in, ensure, ◌++◌, length, bad_request,
  pure,
}

pub data KeyScope : Type 0 where
  read full : KeyScope

pub record ApiKey : Type 0 where
  pub id : String
  pub key_hash : String
  pub route_id : String
  pub scope : KeyScope
  pub is_active : Bool
  pub expires_at : Option ℕ
  pub shared_routes : List String
  pub shared_folders : List String
  pub last_used_ip : Option String
  pub usage_count : ℕ

-- `{ id, scope }`
pub record Verified : Type 0 where
  pub id : String
  pub scope : KeyScope

pub record Cached : Type 0 where
  pub verified : Verified
  pub cache_until : ℕ

pub record Usage : Type 0 where
  pub count : ℕ
  pub ip : Option String

-- What the database holds: the keys, the folder of each route, which routes and folders exist, and
-- the setting apiKeyRevokeEpoch.
pub record Database : Type 0 where
  pub keys : List ApiKey
  pub folder_of : String → Option String
  pub live_routes : List String
  pub folders : List String
  pub epoch : Option ℕ

-- A replica's maps validCache and pendingUsage, and its lastSeenEpoch.
pub record World : Type 0 where
  pub db : Database
  pub valid_cache : String → Option Cached
  pub pending_usage : String → Option Usage
  pub last_seen_epoch : Option ℕ

abbrev pub positive_ttl_ms : ℕ
positive_ttl_ms = 30000

abbrev has_usage : Option Usage → Usage
has_usage none = record { count = 0; ip = none }
has_usage (some u) = u

abbrev given_ip : Option String → Option String → Option String
given_ip none old = old
given_ip (some ip) old = some ip

unfoldable pub record_usage : String → Option String → World → World
record_usage id ip w =
    let cur = has_usage (w.pending_usage id) in
    let next : Usage = record { count = cur.count + 1; ip = given_ip (present ip) cur.ip } in
    record w { pending_usage = λ k. if str_eq id k then some next else w.pending_usage k }

abbrev used : (String → Option Usage) → ApiKey → ApiKey
used pending k = elim (pending k.id) [
  | none ↦ k
  | some u ↦ record k {
    usage_count = k.usage_count + u.count;
    last_used_ip = given_ip (present u.ip) k.last_used_ip;
  }
]

abbrev with_keys : World → List ApiKey → World
with_keys w keys = let db : Database = record w.db { keys = keys } in record w { db = db }

unfoldable pub flush_usage : World → World
flush_usage w =
    let w' = with_keys w (map (used w.pending_usage) w.db.keys) in
    record w' { pending_usage = λ k. none }

abbrev pub invalidate_cache : World → World
invalidate_cache w = record w { valid_cache = λ k. none }

abbrev pub bump_revoke_epoch : ℕ → World → World
bump_revoke_epoch now w =
    let db : Database = record w.db { epoch = some now } in record w { db = db }

abbrev pub invalidate_api_key_caches : ℕ → World → World
invalidate_api_key_caches now w = bump_revoke_epoch now (invalidate_cache w)

same_epoch : Option ℕ → Option ℕ → Bool
same_epoch none none = true
same_epoch none (some n) = false
same_epoch (some m) none = false
same_epoch (some m) (some n) = m == n

-- `if (lastSeenEpoch && v !== lastSeenEpoch)`: no epoch was seen before the first poll that finds one.
unfoldable pub poll_revoke_epoch : World → World
unfolding same_epoch
poll_revoke_epoch w =
    let seen = record w { last_seen_epoch = w.db.epoch } in
    elim w.last_seen_epoch [
      | none ↦ seen
      | some n ↦ if same_epoch (some n) w.db.epoch then seen else invalidate_cache seen
    ]

unfoldable pub key_covers_route : (String → Option String) → String → ApiKey → Bool
key_covers_route folder_of route_id k =
    str_eq k.route_id route_id
    || text_in route_id k.shared_routes
    || elim (folder_of route_id) [ none ↦ false | some folder ↦ text_in folder k.shared_folders ]

abbrev pub not_expired : ℕ → Option ℕ → Bool
not_expired now none = true
not_expired now (some t) = ltb now t

-- The `where` of verifyApiKey.
abbrev pub usable : ℕ → String → String → Database → ApiKey → Bool
usable now hash route_id db k =
    str_eq k.key_hash hash
    && k.is_active
    && not_expired now k.expires_at
    && key_covers_route db.folder_of route_id k

unfoldable pub cache_key : String → String → String
cache_key route_id hash = str_append route_id (str_append ":" hash)

abbrev fresh : ℕ → Option Cached → Option Cached
fresh now none = none
fresh now (some c) = if ltb now c.cache_until then some c else none

abbrev ttl_of : ℕ → Option ℕ → ℕ
ttl_of now none = positive_ttl_ms
ttl_of now (some t) = if leb positive_ttl_ms (t - now) then positive_ttl_ms else t - now

abbrev verified_of : ApiKey → Verified
verified_of k = record { id = k.id; scope = k.scope }

unfoldable pub remember : ℕ → String → ApiKey → World → World
remember now ck k w =
    let ttl = ttl_of now k.expires_at in
    let entry : Cached = record { verified = verified_of k; cache_until = now + ttl } in
    if ltb 0 ttl
    then record w { valid_cache = λ c. if str_eq ck c then some entry else w.valid_cache c }
    else w

module _ (hash_key : String → String) where
  -- What the query of verifyApiKey finds.
  unfoldable pub lookup_key : ℕ → String → String → Database → Option Verified
  lookup_key now hash route_id db =
      Option.map verified_of (find_first (usable now hash route_id db) db.keys)

  unfoldable pub verify_uncached :
      ℕ → String → String → Option String → World → Option ApiKey → Option Verified × World
  unfolding remember
  verify_uncached now hash route_id ip w none = (none, w)
  verify_uncached now hash route_id ip w (some k) =
      (some (verified_of k), record_usage k.id ip (remember now (cache_key route_id hash) k w))

  unfoldable pub verify_api_key :
      ℕ → String → String → Option String → World → Option Verified × World
  unfolding verify_uncached
  verify_api_key now key route_id ip w =
      let hash = hash_key key in
      elim (fresh now (w.valid_cache (cache_key route_id hash))) [
        | some c ↦ (some c.verified, record_usage c.verified.id ip w)
        | none ↦
            verify_uncached now hash route_id ip w
              (find_first (usable now hash route_id w.db) w.db.keys)
      ]
