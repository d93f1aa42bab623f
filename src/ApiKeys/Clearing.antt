-- ===== src/ApiKeys/Clearing.antt =====
-- The operations that take access away clear the cache.
use cluster_gate.Prelude.{
  ℕ, none, refl, inl, inr, M, ◌≡◌, exec, String, List, ◌>>=◌, ◌⊎◌, Bool-cases, some_of, true, false,
  Option-cases, Bool, ensure, bad_request, not_found, str_eq, ◌>>◌, pure, Reads, Reads-bind,
}
use cluster_gate.ApiKeys.Manage.{
  resolve_share_folders, owned, set_api_key_routes, resolve_share_targets, revoke_api_key,
  delete_api_key, detach_api_key_from_route, shared_with, revoke_begin, share_folders, remove_key,
  key_by_id, set_shares, revoke_commit,
}
use cluster_gate.ApiKeys.{World}

abbrev pub IsCleared : World → Type 0
IsCleared w = (ck : String) → w.valid_cache ck ≡ none

-- A computation that throws and changes nothing, or leaves the cache empty.
abbrev pub Clears : {A : Type 0} → M World A → World → Type 0
Clears m w = (exec m w ≡ w) ⊎ IsCleared (exec m w)

Clears-bind :
    {A B : Type 0} (m : M World A) (f : A → M World B) (w : World)
    → Reads m w
    → ((a : A) → Clears (f a) w)
    → Clears (m >>= f) w
Clears-bind m f w reads clears =
    Reads-bind (λ x. (x ≡ w) ⊎ IsCleared x) m f w reads (inl refl) (λ a _. clears a)

owned-Reads : (key_id route_id : String) (w : World) → Reads (owned key_id route_id) w
unfolding owned
owned-Reads key_id route_id w = elim (Option-cases (key_by_id key_id w)) [
  | inl missing ↦ inr (not_found, rw (owned, missing))
  | inr (k, found) ↦ elim (Bool-cases (str_eq k.route_id route_id)) [
    | inl own ↦ inl (tt, rw (owned, found, own))
    | inr foreign ↦ inr (not_found, rw (owned, found, foreign))
  ]
]

pub resolved-Reads :
    (b : Bool) (ids : List String) (w : World) → Reads (ensure b bad_request >> pure ids) w
resolved-Reads true ids w = inl (ids, refl)
resolved-Reads false ids w = inr (bad_request, refl)

share_folders-Clears :
    (now : ℕ) (key_id : String) (folders targets : List String) (w : World)
    → Clears (share_folders now key_id folders targets) w
unfolding share_folders resolve_share_folders
share_folders-Clears now key_id folders targets w =
    Clears-bind (resolve_share_folders folders) (set_shares now key_id targets) w
      (resolved-Reads _ _ w) (λ fs. inr (λ ck. unfold set_shares in refl))

pub set_api_key_routes-Clears :
    (now : ℕ) (key_id owner : String) (routes folders : List String) (w : World)
    → Clears (set_api_key_routes now key_id owner routes folders) w
unfolding set_api_key_routes resolve_share_targets
set_api_key_routes-Clears now key_id owner routes folders w =
    Clears-bind (owned key_id owner)
      (λ _. resolve_share_targets owner routes >>= share_folders now key_id folders) w
      (owned-Reads key_id owner w)
      (λ _.
        Clears-bind (resolve_share_targets owner routes) (share_folders now key_id folders) w
          (resolved-Reads _ _ w) (λ targets. share_folders-Clears now key_id folders targets w))

pub detach_api_key_from_route-Clears :
    (now : ℕ) (key_id route_id : String) (w : World)
    → Clears (detach_api_key_from_route now key_id route_id) w
unfolding detach_api_key_from_route
detach_api_key_from_route-Clears now key_id route_id w =
    elim (Bool-cases (some_of (shared_with key_id route_id) w.db.keys)) [
      | inl there ↦ rw (exec, detach_api_key_from_route, there) (inr (λ ck. refl))
      | inr missing ↦ inl (rw (exec, detach_api_key_from_route, missing))
    ]

pub revoke_api_key-Clears :
    (now : ℕ) (key_id route_id : String) (w : World) → Clears (revoke_api_key now key_id route_id) w
unfolding revoke_api_key revoke_begin revoke_commit
revoke_api_key-Clears now key_id route_id w = elim (owned-Reads key_id route_id w) [
  | inl (u, done) ↦ rw (exec, revoke_api_key, revoke_begin, done) (inr (λ ck. refl))
  | inr (e, failed) ↦ inl (rw (exec, revoke_api_key, revoke_begin, failed))
]

pub delete_api_key-Clears :
    (now : ℕ) (key_id route_id : String) (w : World) → Clears (delete_api_key now key_id route_id) w
unfolding delete_api_key
delete_api_key-Clears now key_id route_id w =
    Clears-bind (owned key_id route_id) (λ _. remove_key now key_id) w
      (owned-Reads key_id route_id w) (λ _. inr (λ ck. refl))
