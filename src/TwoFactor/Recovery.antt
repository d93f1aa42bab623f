-- ===== src/TwoFactor/Recovery.antt =====
-- Recovery codes: those that are handed out work, and each works once.
use mathlib.Core.Path.{subst}
use cluster_gate.Prelude.{
  ℕ, some, true, false, [], ◌∷◌, zero, suc, refl, inl, inr, ok, String, Table, ◌≡◌, List, arith,
  ◌++◌, result, length, Bool-cases, Option-cases, All, ap, exec, ◌+◌, All-imp, ◌≢◌, none, ◌∙◌,
  present, ◌⊎◌, find_unique-write_self, sym,
}
use cluster_gate.TwoFactor.{
  Codes, use_recovery_code, draw_codes, UserRow, Drawn, verify_and_enable, verify_token,
  recovery_code_count, success_data, is_locked, verify_enabled,
}
use cluster_gate.TwoFactor.Access.{IsOpen, Matches, verify_token-open, verify_token-accepts_iff}

module _ (codes : Codes) where
  -- The place of the first hash of a token, and the hashes before and after it.
  pub record FirstMatch (token : String) (hs left : List String) : Type 0 where
    pub before : List String
    pub hash : String
    pub after : List String
    pub whole : hs ≡ before ++ hash ∷ after
    pub none_before : ¬ Matches codes token before
    pub same : codes.compare token hash ≡ true
    pub rest : left ≡ before ++ after

  use_recovery_code-FirstMatch :
      (token : String) (hs left : List String)
      → use_recovery_code codes token hs ≡ some left
      → FirstMatch token hs left
  unfolding use_recovery_code
  use_recovery_code-FirstMatch token [] left h = absurd (ground arith)
  use_recovery_code-FirstMatch token (x ∷ hs) left h = elim (Bool-cases (codes.compare token x)) [
    | inl same ↦ record {
      before = [];
      hash = x;
      after = hs;
      whole = refl;
      none_before = λ m. m;
      same = same;
      rest = ground arith;
    }
    | inr other ↦ elim (Option-cases (use_recovery_code codes token hs)) [
      | inl nothing ↦ absurd (ground arith)
      | inr (left', found) ↦
          let f = use_recovery_code-FirstMatch token hs left' found in
          record {
            before = x ∷ f.before;
            hash = f.hash;
            after = f.after;
            whole = ap (λ l. x ∷ l) f.whole;
            none_before = λ m. elim m [ inl e ↦ ground arith | inr later ↦ f.none_before later ];
            same = f.same;
            rest =
                let e : left ≡ x ∷ left' = grind (arith, h, other, found) in
                e ∙ ap (λ l. x ∷ l) f.rest;
          }
    ]
  ]

  -- Each code that is drawn is the code of one of the hashes.
  draw_codes-Matches :
      ((salt c : String) → codes.compare c (codes.hash salt c) ≡ true)
      → (draw : ℕ → Drawn) (i n : ℕ)
      → let (plain, hashed) = draw_codes codes draw i n in
        (length plain ≡ n) × All (λ c. Matches codes c hashed) plain
  unfolding draw_codes
  draw_codes-Matches law draw i zero = (refl, tt)
  draw_codes-Matches law draw i (suc n) =
      let (len, ms) = draw_codes-Matches law draw (i + 1) n in
      (
        ap suc len,
        (
          inl (law (draw i).salt (draw i).code),
          All-imp (draw_codes codes draw (i + 1) n).0 (λ c m. inr m) ms,
        ),
      )

  Matches-append :
      (token : String) (xs ys : List String)
      → Matches codes token (xs ++ ys)
      → Matches codes token xs ⊎ Matches codes token ys
  Matches-append token [] ys m = inr m
  Matches-append token (x ∷ xs) ys (inl e) = inl (inl e)
  Matches-append token (x ∷ xs) ys (inr m) = elim (Matches-append token xs ys m) [
    | inl before ↦ inl (inr before)
    | inr after ↦ inr after
  ]

module _ (codes : Codes) (users : Table UserRow) where
  open users use {State, find_unique}

  -- A token that is not the secret's, by what the loop over the recovery codes says of it.
  module _ (now : ℕ) (id token secret : String) (s : State) {u : UserRow}
      (found : find_unique id s ≡ some u) (is_open : IsOpen codes users now u secret)
      (invalid : codes.validate now secret token ≡ false) where
    verify_token-unmatched :
        use_recovery_code codes token u.recovery_codes ≡ none
        → result (verify_token codes users now id token) s ≡ ok false
    unfolding verify_enabled
    verify_token-unmatched nothing =
        rw (result, verify_token-open codes users now id token secret s u found is_open)
          (grind arith)

    verify_token-matched :
        (left : List String)
        → use_recovery_code codes token u.recovery_codes ≡ some left
        → find_unique id (exec (verify_token codes users now id token) s)
          ≡ some (success_data left u)
    unfolding verify_enabled
    verify_token-matched left some_left =
        rw (exec, verify_token-open codes users now id token secret s u found is_open)
          (grind (arith, find_unique-write_self))

  verify_token-needs_match :
      (later : ℕ) (id token secret : String) (s : State) (u : UserRow)
      → find_unique id s ≡ some u
      → present u.two_factor_secret ≡ some secret
      → codes.validate later secret token ≡ false
      → result (verify_token codes users later id token) s ≡ ok true
      → Matches codes token u.recovery_codes
  verify_token-needs_match later id token secret s u found has invalid accepted =
      let (u', secret', found', is_open, how) =
        (verify_token-accepts_iff codes users later id token s).0 accepted in
      let same : u' ≡ u = ground arith in
      elim how [
        | inl valid ↦ absurd (grind (arith, same, is_open.1))
        | inr m ↦ subst (λ x. Matches codes token x.recovery_codes) same m
      ]

  -- A user who is not locked out gives a token that is not the secret's at this time and is accepted:
  -- then it is a recovery code, and the first of the stored hashes that it belongs to is taken away,
  -- and no other, while the failed attempts, the lock and the login challenge are cleared. If the
  -- token belongs to none of the hashes after that one, it is not accepted again at any later time
  -- at which it is not the secret's.
  pub verify_token-consumes :
      (now : ℕ) (id token secret : String) (s : State) (u : UserRow)
      → find_unique id s ≡ some u
      → IsOpen codes users now u secret
      → codes.validate now secret token ≡ false
      → result (verify_token codes users now id token) s ≡ ok true
      → let s' = exec (verify_token codes users now id token) s in
        (left : List String) × (find_unique id s' ≡ some (success_data left u))
        × (f : FirstMatch codes token u.recovery_codes left) × (¬ Matches codes token f.after
            → (later : ℕ) → codes.validate later secret token ≡ false
            → result (verify_token codes users later id token) s' ≢ ok true)
  verify_token-consumes now id token secret s u found is_open invalid accepted =
      elim (Option-cases (use_recovery_code codes token u.recovery_codes)) [
        | inl nothing ↦
            let no_match =
              verify_token-unmatched now id token secret s found is_open invalid nothing in
            absurd (ground arith)
        | inr (left, some_left) ↦
            let at =
              verify_token-matched now id token secret s found is_open invalid left some_left in
            let f = use_recovery_code-FirstMatch codes token u.recovery_codes left some_left in
            (
              left,
              at,
              f,
              λ no_other later invalid' again.
                  let m =
                    verify_token-needs_match later id token secret
                      (exec (verify_token codes users now id token) s) (success_data left u) at
                      is_open.1 invalid' again in
                  elim (Matches-append codes token f.before f.after
                    (subst (Matches codes token) f.rest m)) [
                      | inl earlier ↦ f.none_before earlier
                      | inr other ↦ no_other other
                    ],
            )
      ]

  abbrev enabled : (ℕ → Drawn) → UserRow → UserRow
  enabled draw u = record u {
    two_factor_enabled = true;
    recovery_codes = (draw_codes codes draw 0 recovery_code_count).1;
  }

  verify_and_enable-ok :
      (now : ℕ) (id token : String) (draw : ℕ → Drawn) (s : State) (u : UserRow)
      (plain : List String)
      → find_unique id s ≡ some u
      → result (verify_and_enable codes users now id draw token) s ≡ ok plain
      → (plain ≡ (draw_codes codes draw 0 recovery_code_count).0)
        × ((secret : String) × (present u.two_factor_secret ≡ some secret))
        × (find_unique id (exec (verify_and_enable codes users now id draw token) s)
            ≡ some (enabled draw u))
  unfolding verify_and_enable
  verify_and_enable-ok now id token draw s u plain found h =
      (grind arith, grind arith, grind (arith, find_unique-write_self))

  -- The codes that enabling the second factor returns are ten, and each of them is accepted after it
  -- at every time at which the user is not locked out, where `compare` accepts what `hash` made.
  pub verify_and_enable-accepts :
      ((salt c : String) → codes.compare c (codes.hash salt c) ≡ true)
      → (now : ℕ) (id token : String) (draw : ℕ → Drawn) (s : State) (u : UserRow)
        (plain : List String)
      → find_unique id s ≡ some u
      → result (verify_and_enable codes users now id draw token) s ≡ ok plain
      → (length plain ≡ recovery_code_count)
        × All
            (λ c.
              (later : ℕ)
              → is_locked later u ≡ false
              → result
                  (verify_token codes users later id c)
                  (exec (verify_and_enable codes users now id draw token) s)
                ≡ ok true)
            plain
  verify_and_enable-accepts law now id token draw s u plain found h =
      let (drawn, (secret, has), at) = verify_and_enable-ok now id token draw s u plain found h in
      let (ten, ms) = draw_codes-Matches codes law draw 0 recovery_code_count in
      let s' = exec (verify_and_enable codes users now id draw token) s in
      (
        ap length drawn ∙ ten,
        subst
            (All (λ c.
              (later : ℕ)
              → is_locked later u ≡ false
              → result (verify_token codes users later id c) s' ≡ ok true))
            (sym drawn)
            (All-imp (draw_codes codes draw 0 recovery_code_count).0
              (λ c m later free.
                (verify_token-accepts_iff codes users later id c s').1
                  (enabled draw u, secret, at, (refl, has, free), inr m))
              ms),
      )
