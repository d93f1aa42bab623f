-- ===== src/ApiKeys/Lookup.antt =====
-- What the query of verifyApiKey finds, as time goes on and keys are added.
use cluster_gate.Prelude.{
  ℕ, some, true, false, [], ◌∷◌, String, find_first, ◌≤◌, ◌≡◌, arith, inl, inr, List, Bool-cases,
}
use cluster_gate.ApiKeys.{Database, ApiKey, usable, not_expired}

module _ (hash route_id : String) where
  pub usable_later :
      (now later : ℕ) (db : Database) (k : ApiKey)
      → now ≤ later
      → usable now hash route_id db k ≡ false
      → usable later hash route_id db k ≡ false
  usable_later now later db k le h = ground arith

  pub find_first_later :
      (now later : ℕ) (db : Database) (ks : List ApiKey) (k : ApiKey)
      → now ≤ later
      → find_first (usable now hash route_id db) ks ≡ some k
      → not_expired later k.expires_at ≡ true
      → find_first (usable later hash route_id db) ks ≡ some k
  unfolding find_first
  find_first_later now later db [] k le h live = absurd (ground arith)
  find_first_later now later db (x ∷ ks) k le h live =
      elim (Bool-cases (usable now hash route_id db x)) [
        | inl here ↦ let same : x ≡ k = ground arith in ground arith
        | inr past ↦
            let ih = find_first_later now later db ks k le (ground arith) live in
            let still = usable_later now later db x le past in ground arith
      ]
