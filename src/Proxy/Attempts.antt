-- ===== src/Proxy/Attempts.antt =====
-- The calls of the target in proxyRequest of backend/src/services/proxyService.ts, for a response that
-- is buffered. The wait between two attempts is left out.
use cluster_gate.Prelude.{
  ℕ, none, some, true, false, zero, suc, Option, Bool, if◌then◌else◌, arith, ◌≤◌, ◌+◌, ◌≡◌, refl,
  inl, inr, Bool-cases, ◌⊎◌,
}

-- What a call of axios ends in: a response, with its status; OpenSSL's error where the target spoke
-- plain HTTP (isTlsProtocolMismatch); another error.
pub data Answer : Type 0 where
  responded : ℕ → Answer
  tls_mismatch failed : Answer

-- The status, if there was a response; how many calls were made; and whether the url still starts
-- with https://.
pub record Forwarded : Type 0 where
  pub status : Option ℕ
  pub calls : ℕ
  pub https : Bool

abbrev pub max_attempts : Bool → ℕ → ℕ
max_attempts streamed retry_count = if streamed then 1 else 1 + retry_count

-- What the n-th call ends in, the first being the 0th.
module _ (answers : ℕ → Answer) where
  -- The loop, for so many attempts more, after so many calls.
  unfoldable pub attempts : ℕ → ℕ → Bool → Forwarded
  attempts zero calls https = record { status = none; calls = calls; https = https }
  attempts (suc n) calls https = elim (answers calls) [
    | responded s ↦ record { status = some s; calls = suc calls; https = https }
    | failed ↦ attempts n (suc calls) https
    | tls_mismatch ↦ elim https [
      | false ↦ attempts n (suc calls) false
      | true ↦ elim (answers (suc calls)) [
        | responded s ↦ record { status = some s; calls = suc (suc calls); https = false }
        | failed ↦ attempts n (suc (suc calls)) false
        | tls_mismatch ↦ attempts n (suc (suc calls)) false
      ]
    ]
  ]

  unfoldable pub forward : Bool → ℕ → Bool → Forwarded
  unfolding attempts
  forward streamed retry_count https = attempts (max_attempts streamed retry_count) 0 https

  abbrev Outcome : ℕ → ℕ → Bool → Forwarded → Type 0
  Outcome n calls https f =
      (f.calls ≤ calls + n + (if https then 1 else 0))
      × ((f.status ≡ none → calls + n ≤ f.calls)
          × ((s : ℕ) → f.status ≡ some s → (k : ℕ) × (f.calls ≡ suc k) × (answers k ≡ responded s)))

  Outcome-widen :
      (n calls n' calls' : ℕ) (https https' : Bool) (f : Forwarded)
      → calls + n + (if https then 1 else 0) ≤ calls' + n' + (if https' then 1 else 0)
      → calls' + n' ≤ calls + n
      → Outcome n calls https f
      → Outcome n' calls' https' f
  Outcome-widen n calls n' calls' https https' f more fewer (most, (least, from)) =
      (omega arith, (λ none_. let enough = least none_ in omega arith, from))

  Answer-cases : (a : Answer) → ((s : ℕ) × (a ≡ responded s)) ⊎ ((a ≡ failed) ⊎ (a ≡ tls_mismatch))
  Answer-cases (responded s) = inl (s, refl)
  Answer-cases failed = inr (inl refl)
  Answer-cases tls_mismatch = inr (inr refl)

  response-Outcome :
      (n calls made s : ℕ) (https https' : Bool)
      → answers made ≡ responded s
      → suc made ≤ calls + n + (if https then 1 else 0)
      → Outcome n calls https (record { status = some s; calls = suc made; https = https' })
  response-Outcome n calls made s https https' answered few =
      (few, (λ e. absurd (ground arith), λ t e. (made, refl, ground arith)))

  -- The second call within an attempt, over http.
  fallback-Outcome :
      (n calls : ℕ)
      → answers calls ≡ tls_mismatch
      → Outcome n (suc (suc calls)) false (attempts n (suc (suc calls)) false)
      → Outcome (suc n) calls true (attempts (suc n) calls true)
  unfolding attempts
  fallback-Outcome n calls plain ih =
      let widened : Outcome (suc n) calls true (attempts n (suc (suc calls)) false) =
        Outcome-widen n (suc (suc calls)) (suc n) calls false true
          (attempts n (suc (suc calls)) false) (omega arith) (omega arith) ih in
      elim (Answer-cases (answers (suc calls))) [
        | inl (s, answered) ↦
            rw (attempts, plain, answered)
              (response-Outcome (suc n) calls (suc calls) s true false answered (omega arith))
        | inr (inl again) ↦ rw (attempts, plain, again) widened
        | inr (inr again) ↦ rw (attempts, plain, again) widened
      ]

  attempts-Outcome : (n calls : ℕ) (https : Bool) → Outcome n calls https (attempts n calls https)
  unfolding attempts
  attempts-Outcome zero calls https =
      (ground arith, (λ none_. omega arith, λ s e. absurd (ground arith)))
  attempts-Outcome (suc n) calls https =
      let next : Outcome (suc n) calls https (attempts n (suc calls) https) =
        Outcome-widen n (suc calls) (suc n) calls https https (attempts n (suc calls) https)
          (omega arith) (omega arith) (attempts-Outcome n (suc calls) https) in
      let over_http : Outcome (suc n) calls false (attempts n (suc calls) false) =
        Outcome-widen n (suc calls) (suc n) calls false false (attempts n (suc calls) false)
          (omega arith) (omega arith) (attempts-Outcome n (suc calls) false) in
      let plain_next : Outcome n (suc (suc calls)) false (attempts n (suc (suc calls)) false) =
        attempts-Outcome n (suc (suc calls)) false in
      elim (Answer-cases (answers calls)) [
        | inl (s, answered) ↦
            rw (attempts, answered)
              (response-Outcome (suc n) calls calls s https https answered (ground arith))
        | inr (inl gone) ↦ rw (attempts, gone) next
        | inr (inr plain) ↦ elim (Bool-cases https) [
          | inl tls ↦ rw tls (fallback-Outcome n calls plain plain_next)
          | inr clear ↦ rw clear (rw (attempts, plain) over_http)
        ]
      ]

  -- The loop makes at most one call more than its attempts, of which there are 1 + retryCount, or one
  -- where the body is streamed. It ends without a response only after as many calls as attempts, and
  -- with one exactly at the call that brought it, whose status is the answer.
  pub forward-calls :
      (streamed : Bool) (retry_count : ℕ) (https : Bool)
      → let f = forward streamed retry_count https in
        let most = max_attempts streamed retry_count in
        (f.calls ≤ most + (if https then 1 else 0))
        × ((f.status ≡ none → most ≤ f.calls)
            × ((s : ℕ)
                → f.status ≡ some s
                → (k : ℕ) × (f.calls ≡ suc k) × (answers k ≡ responded s)))
  unfolding forward
  forward-calls streamed retry_count https =
      let (most, (least, from)) = attempts-Outcome (max_attempts streamed retry_count) 0 https in
      (omega arith, (λ gone. let made = least gone in omega arith, from))
