-- ===== src/ApiKeys/Manage.antt =====
-- apiKeyService's operations on the keys: sharing, detaching, creation, revocation and deletion.
use cluster_gate.Prelude.{
  ◌>>=◌, ℕ, none, some, true, false, [], ◌∷◌, ok, throw, String, M, Option, List, find_first,
  not_found, if◌then◌else◌, Bool, distinct_from, filter_by, ◌>>◌, ensure, str_eq, not, some_of, map,
  ◌&&◌, text_in, length, ◌++◌, ◌==◌, bad_request, pure,
}
use cluster_gate.ApiKeys.{ApiKey, World, with_keys, KeyScope, invalidate_api_key_caches}

-- `[...new Set(ids)]`, less the owner; an error where one of them does not exist.
unfoldable pub resolve_share_targets : String → List String → M World (List String)
resolve_share_targets owner route_ids w =
    let ids = filter_by (λ id. not (str_eq id owner)) (distinct_from [] route_ids) in
    (ensure (length (filter_by (λ id. text_in id w.db.live_routes) ids) == length ids) bad_request
        >> pure ids)
      w

unfoldable pub resolve_share_folders : List String → M World (List String)
resolve_share_folders folder_ids w =
    let ids = distinct_from [] folder_ids in
    (ensure (length (filter_by (λ id. text_in id w.db.folders) ids) == length ids) bad_request
        >> pure ids)
      w

abbrev pub key_by_id : String → World → Option ApiKey
key_by_id id w = find_first (λ k. str_eq k.id id) w.db.keys

-- `if (!apiKey || apiKey.routeId !== routeId) throw`
unfoldable pub owned : String → String → M World (Unit {0})
owned key_id route_id w = elim (key_by_id key_id w) [
  | none ↦ (throw not_found, w)
  | some k ↦ if str_eq k.route_id route_id then (ok tt, w) else (throw not_found, w)
]

abbrev mapped : String → (ApiKey → ApiKey) → World → World
mapped key_id f w = with_keys w (map (λ k. if str_eq k.id key_id then f k else k) w.db.keys)

-- The transaction and what follows it.
unfoldable pub set_shares : ℕ → String → List String → List String → M World (Unit {0})
set_shares now key_id targets folders w = (
  ok tt,
  invalidate_api_key_caches now
      (mapped key_id (λ k. record k { shared_routes = targets; shared_folders = folders }) w),
)

unfoldable pub share_folders : ℕ → String → List String → List String → M World (Unit {0})
unfolding resolve_share_folders set_shares
share_folders now key_id folder_ids targets =
    resolve_share_folders folder_ids >>= set_shares now key_id targets

unfoldable pub set_api_key_routes :
    ℕ → String → String → List String → List String → M World (Unit {0})
unfolding owned resolve_share_targets share_folders
set_api_key_routes now key_id owner route_ids folder_ids =
    owned key_id owner
    >> (resolve_share_targets owner route_ids >>= share_folders now key_id folder_ids)

pub shared_with : String → String → ApiKey → Bool
shared_with key_id route_id k = str_eq k.id key_id && text_in route_id k.shared_routes

unfoldable pub detach_api_key_from_route : ℕ → String → String → M World (Unit {0})
unfolding shared_with
detach_api_key_from_route now key_id route_id w =
    if some_of (shared_with key_id route_id) w.db.keys
    then (
      ok tt,
      invalidate_api_key_caches now (
          mapped key_id
            (λ k. record k {
              shared_routes = filter_by (λ r. not (str_eq r route_id)) k.shared_routes;
            })
            w),
    )
    else (throw not_found, w)

-- What a new key is made from: its id and text, which are drawn, and the caller's arguments.
pub record NewKey : Type 0 where
  pub id : String
  pub raw_key : String
  pub route_id : String
  pub expires_at : Option ℕ
  pub scope : KeyScope

abbrev pub key_of : (String → String) → NewKey → List String → List String → ApiKey
key_of hash_key n targets folders = record {
  id = n.id;
  key_hash = hash_key n.raw_key;
  route_id = n.route_id;
  scope = n.scope;
  is_active = true;
  expires_at = n.expires_at;
  shared_routes = targets;
  shared_folders = folders;
  last_used_ip = none;
  usage_count = 0;
}

abbrev pub add_key : (String → String) → NewKey → List String → List String → M World String
add_key hash_key n targets folders w =
    (ok n.raw_key, with_keys w (w.db.keys ++ key_of hash_key n targets folders ∷ []))

unfoldable pub add_shared_key :
    (String → String) → NewKey → List String → List String → M World String
unfolding resolve_share_folders
add_shared_key hash_key n folder_ids targets =
    resolve_share_folders folder_ids >>= add_key hash_key n targets

unfoldable pub assert_live_route : String → M World (Unit {0})
assert_live_route route_id w = ensure (text_in route_id w.db.live_routes) not_found w

unfoldable pub create_api_key :
    (String → String) → NewKey → List String → List String → M World String
unfolding assert_live_route resolve_share_targets add_shared_key
create_api_key hash_key n route_ids folder_ids =
    assert_live_route n.route_id
    >> (resolve_share_targets n.route_id route_ids >>= add_shared_key hash_key n folder_ids)

abbrev pub invalidate : ℕ → M World (Unit {0})
invalidate now w = (ok tt, invalidate_api_key_caches now w)

-- The two halves of revokeApiKey: up to the caches, and the update that is awaited after them.
unfoldable pub revoke_begin : ℕ → String → String → M World (Unit {0})
unfolding owned
revoke_begin now key_id route_id = owned key_id route_id >> invalidate now

unfoldable pub revoke_commit : String → M World (Unit {0})
revoke_commit key_id w = (ok tt, mapped key_id (λ k. record k { is_active = false }) w)

unfoldable pub revoke_api_key : ℕ → String → String → M World (Unit {0})
unfolding revoke_begin revoke_commit
revoke_api_key now key_id route_id = revoke_begin now key_id route_id >> revoke_commit key_id

abbrev pub remove_key : ℕ → String → M World (Unit {0})
remove_key now key_id w = (
  ok tt,
  let w' = invalidate_api_key_caches now w in
      with_keys w' (filter_by (λ k. not (str_eq k.id key_id)) w'.db.keys),
)

unfoldable pub delete_api_key : ℕ → String → String → M World (Unit {0})
unfolding owned
delete_api_key now key_id route_id = owned key_id route_id >> remove_key now key_id
