-- ===== src/Prelude/Reading.antt =====
-- Computations that only read, and what a computation that starts with one leaves.
use mathlib.Core.Path.{◌≡◌, refl}
use mathlib.Core.Logic.{◌⊎◌, inl, inr}
use mathlib.Core.Bool.{Bool, true, false}
use cluster_gate.Prelude.Results.{
  AppError, ok, throw, M, ensure, exec, ◌>>=◌, Result, after, result,
}
use native.Mathlib.Omega.{arith}

module _ {S : Type 0} where
  abbrev pub Reads : {A : Type 0} → M S A → S → Type 0
  Reads {A} m s = ((a : A) × (m s ≡ (ok a, s))) ⊎ ((e : AppError) × (m s ≡ (throw e, s)))

  pub Reads-bind :
      {A B : Type 0} (Q : S → Type 0) (m : M S A) (f : A → M S B) (s : S)
      → Reads m s
      → Q s
      → ((a : A) → m s ≡ (ok a, s) → Q (exec (f a) s))
      → Q (exec (m >>= f) s)
  Reads-bind Q m f s (inl (a, done)) q h = rw (exec, done) (h a done)
  Reads-bind Q m f s (inr (e, failed)) q h = rw (exec, failed) q

  pub ensure-Reads : (b : Bool) (e : AppError) (s : S) → Reads (ensure b e) s
  ensure-Reads true e s = inl (tt, refl)
  ensure-Reads false e s = inr (e, refl)

  -- What holds whether or not the first part throws, and what the second part keeps.
  after-keeps :
      {A B : Type 0} (Q : S → Type 0) (p : Result A × S) (f : A → M S B)
      → Q p.1
      → ((a : A) (s : S) → Q s → Q (exec (f a) s))
      → Q (after p f).1
  after-keeps Q (ok a, s) f q h = h a s q
  after-keeps Q (throw e, s) f q h = q

  pub bind-keeps :
      {A B : Type 0} (Q : S → Type 0) (m : M S A) (f : A → M S B) (s : S)
      → Q (exec m s)
      → ((a : A) (s : S) → Q s → Q (exec (f a) s))
      → Q (exec (m >>= f) s)
  bind-keeps Q m f s q h = after-keeps Q (m s) f q h

  after-ok :
      {A B : Type 0} (p : Result A × S) (f : A → M S B) (b : B)
      → (after p f).0 ≡ ok b
      → (a : A) × (p.0 ≡ ok a) × (result (f a) p.1 ≡ ok b)
  after-ok (ok a, s) f b h = (a, refl, h)
  after-ok (throw e, s) f b h = absurd (ground arith)

  -- Where two parts succeed, each has succeeded.
  pub bind-ok :
      {A B : Type 0} (m : M S A) (f : A → M S B) (s : S) (b : B)
      → result (m >>= f) s ≡ ok b
      → (a : A) × (result m s ≡ ok a) × (result (f a) (exec m s) ≡ ok b)
  bind-ok m f s b h = after-ok (m s) f b h

  -- A computation that has thrown, in a state of which something holds.
  abbrev pub Refuses : {A : Type 0} → (S → Type 0) → Result A × S → Type 0
  Refuses Q p = ((e : AppError) × (p.0 ≡ throw e)) × Q p.1

  after-Refuses :
      {A B : Type 0} (P Q : S → Type 0) (p : Result A × S) (f : A → M S B)
      → P p.1
      → ((s : S) → P s → Q s)
      → ((a : A) (s : S) → P s → Refuses Q (f a s))
      → Refuses Q (after p f)
  after-Refuses P Q (ok a, s) f q weaker h = h a s q
  after-Refuses P Q (throw e, s) f q weaker h = ((e, refl), weaker s q)

  pub bind-Refuses :
      {A B : Type 0} (P Q : S → Type 0) (m : M S A) (f : A → M S B) (s : S)
      → P (exec m s)
      → ((s : S) → P s → Q s)
      → ((a : A) (s : S) → P s → Refuses Q (f a s))
      → Refuses Q ((m >>= f) s)
  bind-Refuses P Q m f s q weaker h = after-Refuses P Q (m s) f q weaker h

  after-refused :
      {A B : Type 0} (Q : S → Type 0) (p : Result A × S) (f : A → M S B)
      → Refuses Q p
      → Refuses Q (after p f)
  after-refused Q (ok a, s) f ((e, thrown), q) = absurd (ground arith)
  after-refused Q (throw e, s) f (thrown, q) = ((e, refl), q)

  pub Refuses-bind :
      {A B : Type 0} (Q : S → Type 0) (m : M S A) (f : A → M S B) (s : S)
      → Refuses Q (m s)
      → Refuses Q ((m >>= f) s)
  Refuses-bind Q m f s refused = after-refused Q (m s) f refused
