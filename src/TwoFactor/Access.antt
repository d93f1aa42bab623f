-- ===== src/TwoFactor/Access.antt =====
-- Who is let in by the second factor.
use cluster_gate.Prelude.{
  ℕ, none, some, true, false, [], ◌∷◌, refl, inl, inr, ok, Table, String, List, ◌≡◌, present,
  result, ◌⊎◌, Bool-cases, ◌↔◌, arith, Bool, ap, sym, ◌∙◌,
}
use cluster_gate.TwoFactor.{
  Codes, UserRow, use_recovery_code, verify_token, verify_enabled, is_locked,
}

module _ (codes : Codes) (token : String) where
  -- One of the hashes is the token's.
  abbrev pub Matches : List String → Type 0
  Matches [] = ⊥
  Matches (h ∷ hs) = (codes.compare token h ≡ true) ⊎ Matches hs

  pub use_recovery_code-cases :
      (hs : List String)
      → ((use_recovery_code codes token hs ≡ none) × ¬ Matches hs)
        ⊎ ((left : List String) × (use_recovery_code codes token hs ≡ some left) × Matches hs)
  unfolding use_recovery_code
  use_recovery_code-cases [] = inl (refl, λ m. m)
  use_recovery_code-cases (h ∷ hs) = elim (Bool-cases (codes.compare token h)) [
    | inl same ↦ inr (hs, rw same, inl same)
    | inr other ↦ elim (use_recovery_code-cases hs) [
      | inl (nothing, differ) ↦ inl (rw (other, nothing), ground arith)
      | inr (left, found, m) ↦ inr (h ∷ left, rw (other, found), inr m)
    ]
  ]

module _ (codes : Codes) (users : Table UserRow) where
  open users use {State, find_unique}

  -- A user whose second factor is on, and who is not locked out.
  abbrev pub IsOpen : ℕ → UserRow → String → Type 0
  IsOpen now u secret =
      (u.two_factor_enabled ≡ true)
      × (present u.two_factor_secret ≡ some secret)
      × (is_locked now u ≡ false)

  pub verify_token-open :
      (now : ℕ) (id token secret : String) (s : State) (u : UserRow)
      → find_unique id s ≡ some u
      → IsOpen now u secret
      → verify_token codes users now id token s ≡ verify_enabled codes users now id u token secret s
  unfolding verify_token
  verify_token-open now id token secret s u found (on, has, free) = ground arith

  pub verify_token-ok :
      (now : ℕ) (id token : String) (s : State) (b : Bool)
      → result (verify_token codes users now id token) s ≡ ok b
      → (u : UserRow) × (secret : String) × (find_unique id s ≡ some u) × IsOpen now u secret
  unfolding verify_token
  verify_token-ok now id token s b h = grind arith

  verify_enabled-accepts_iff :
      (now : ℕ) (id token secret : String) (s : State) (u : UserRow)
      → find_unique id s ≡ some u
      → (result (verify_enabled codes users now id u token secret) s ≡ ok true)
        ↔ ((codes.validate now secret token ≡ true) ⊎ Matches codes token u.recovery_codes)
  unfolding verify_enabled
  verify_enabled-accepts_iff now id token secret s u found =
      elim (use_recovery_code-cases codes token u.recovery_codes) [
        | inl (nothing, differ) ↦ (λ h. grind arith, λ h. grind arith)
        | inr (left, some_left, m) ↦ (λ h. grind arith, λ h. grind arith)
      ]

  -- A token is accepted exactly if the user is found with the second factor on and a secret, is not
  -- locked out, and the token is the secret's at this time or one of the recovery codes.
  pub verify_token-accepts_iff :
      (now : ℕ) (id token : String) (s : State)
      → (result (verify_token codes users now id token) s ≡ ok true) ↔ (
          (u : UserRow) × (secret : String) × (find_unique id s ≡ some u)
          × IsOpen now u secret
          × ((codes.validate now secret token ≡ true) ⊎ Matches codes token u.recovery_codes))
  verify_token-accepts_iff now id token s = (
    λ h.
        let (u, secret, found, is_open) = verify_token-ok now id token s true h in
        (
          u,
          secret,
          found,
          is_open,
          (verify_enabled-accepts_iff now id token secret s u found).0
              (ap (λ p. p.0) (sym (verify_token-open now id token secret s u found is_open)) ∙ h),
        ),
    λ (u, secret, found, is_open, accepted).
        ap (λ p. p.0) (verify_token-open now id token secret s u found is_open)
        ∙ (verify_enabled-accepts_iff now id token secret s u found).1 accepted,
  )
