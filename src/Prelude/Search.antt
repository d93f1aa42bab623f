-- ===== src/Prelude/Search.antt =====
-- `find`, `filter`, `some`, `includes` and the counting of a list, by Boolean tests.
use Prim.Native.Nat.{ℕ, suc, ◌+◌, ◌≤◌, ◌<◌}
use Prim.Native.String.{String}
use mathlib.Core.Path.{◌≡◌, refl}
use mathlib.Core.Bool.{Bool, true, false}
use mathlib.Core.Option.{Option, none, some}
use mathlib.Core.List.{List, [], ◌∷◌, ◌++◌, map}
use native.Mathlib.Omega.{arith}
use cluster_gate.Prelude.Lists.{All}
use text.Mathlib.Text.{◌==◌ as str_eq}
use cluster_gate.Prelude.Tests.{if◌then◌else◌, Bool-cases}
use mathlib.Core.Logic.{◌⊎◌, inl, inr}
use mathlib.Core.Option

module _ {ℓ} {A : Type ℓ} (p : A → Bool) where
  unfoldable pub find_first : List A → Option A
  find_first [] = none
  find_first (x ∷ xs) = let rest = find_first xs in if p x then some x else rest

  unfoldable pub filter_by : List A → List A
  filter_by [] = []
  filter_by (x ∷ xs) = let rest = filter_by xs in if p x then x ∷ rest else rest

  unfoldable pub count_by : List A → ℕ
  count_by [] = 0
  count_by (x ∷ xs) = let rest = count_by xs in if p x then suc rest else rest

  unfoldable pub some_of : List A → Bool
  some_of [] = false
  some_of (x ∷ xs) = let rest = some_of xs in if p x then true else rest

  pub find_first-append :
      (xs ys : List A) (x : A) → find_first xs ≡ some x → find_first (xs ++ ys) ≡ some x
  unfolding find_first
  find_first-append [] ys x h = absurd (ground arith)
  find_first-append (y ∷ xs) ys x h = ground (arith, find_first-append xs ys x)

  pub find_first-append_none :
      (xs ys : List A) → find_first xs ≡ none → find_first (xs ++ ys) ≡ find_first ys
  unfolding find_first
  find_first-append_none [] ys h = refl
  find_first-append_none (y ∷ xs) ys h = ground (arith, find_first-append_none xs ys)

  pub find_first-holds : (xs : List A) (x : A) → find_first xs ≡ some x → p x ≡ true
  unfolding find_first
  find_first-holds [] x h = absurd (ground arith)
  find_first-holds (y ∷ xs) x h = grind (arith, find_first-holds xs x)

  pub count_by-append : (xs ys : List A) → count_by (xs ++ ys) ≡ count_by xs + count_by ys
  unfolding count_by
  count_by-append [] ys = omega arith
  count_by-append (x ∷ xs) ys = ground (arith, count_by-append xs ys)

pub find_first-map :
    {A : Type 0} (p : A → Bool) (f : A → A) (xs : List A)
    → ((x : A) → p (f x) ≡ p x)
    → find_first p (map f xs) ≡ Option.map f (find_first p xs)
unfolding find_first
find_first-map p f [] same = refl
find_first-map p f (x ∷ xs) same = ground (arith, same x, find_first-map p f xs same)

unfoldable pub text_in : String → List String → Bool
text_in s xs = some_of (λ x. str_eq x s) xs

pub text_in-absent :
    (s : String) (xs : List String) → text_in s xs ≡ false → All (λ n. str_eq n s ≡ false) xs
unfolding text_in some_of
text_in-absent s [] h = tt
text_in-absent s (x ∷ xs) h = elim (Bool-cases (str_eq x s)) [
  | inl here ↦ absurd (ground arith)
  | inr other ↦ (other, text_in-absent s xs (ground arith))
]

pub absent-text_in :
    (s : String) (xs : List String) → All (λ n. str_eq n s ≡ false) xs → text_in s xs ≡ false
unfolding text_in some_of
absent-text_in s [] h = refl
absent-text_in s (x ∷ xs) (other, h) = ground (arith, absent-text_in s xs h)

-- The elements without repetitions, each where it first stands: `[...new Set(xs)]`.
unfoldable pub distinct_from : List String → List String → List String
distinct_from seen [] = []
distinct_from seen (x ∷ xs) =
    let rest = distinct_from (if text_in x seen then seen else x ∷ seen) xs in
    if text_in x seen then rest else x ∷ rest

module _ {A : Type 0} (p : A → Bool) (f : A → A) where
  -- The first element that passes, replaced: `update({ where })` on a column without repetitions.
  unfoldable pub update_first : List A → List A
  update_first [] = []
  update_first (x ∷ xs) = let rest = update_first xs in if p x then f x ∷ xs else x ∷ rest

  pub count_by-update_first :
      (q : A → Bool) (xs : List A) (x : A)
      → find_first p xs ≡ some x
      → count_by q (update_first xs) + (if q x then 1 else 0)
        ≡ count_by q xs + (if q (f x) then 1 else 0)
  unfolding update_first count_by find_first
  count_by-update_first q [] x h = absurd (ground arith)
  count_by-update_first q (y ∷ xs) x h = elim (Bool-cases (p y)) [
    | inl here ↦ let same : y ≡ x = ground arith in rw (here, same) (ground arith)
    | inr past ↦ let ih = count_by-update_first q xs x (ground arith) in rw past (ground arith)
  ]

  -- What another test finds, which the replacement does not change, is what it found, replaced or
  -- not.
  pub find_first-update_first :
      (q : A → Bool) (xs : List A) (x : A)
      → ((y : A) → q (f y) ≡ q y)
      → find_first q xs ≡ some x
      → (find_first q (update_first xs) ≡ some x) ⊎ (find_first q (update_first xs) ≡ some (f x))
  unfolding update_first find_first
  find_first-update_first q [] x same h = absurd (ground arith)
  find_first-update_first q (y ∷ xs) x same h = elim (Bool-cases (q y)) [
    | inl hit ↦
        let here : y ≡ x = ground arith in
        elim (Bool-cases (p y)) [
          | inl mine ↦ inr (ground (arith, same y))
          | inr other ↦ inl (ground arith)
        ]
    | inr miss ↦ elim (find_first-update_first q xs x same (ground arith)) [
      | inl kept ↦ elim (Bool-cases (p y)) [
        | inl mine ↦ inl (ground (arith, same y))
        | inr other ↦ inl (ground arith)
      ]
      | inr changed ↦ elim (Bool-cases (p y)) [
        | inl mine ↦ inl (ground (arith, same y))
        | inr other ↦ inr (ground arith)
      ]
    ]
  ]

module _ {A : Type 0} (p : A → Bool) where
  pub count_by-find_first : (xs : List A) → find_first p xs ≡ none → count_by p xs ≡ 0
  unfolding find_first count_by
  count_by-find_first [] h = refl
  count_by-find_first (x ∷ xs) h = ground (arith, count_by-find_first xs)

  -- A change that makes no element pass leaves no more that pass.
  pub count_by-map_le :
      (f : A → A) (xs : List A)
      → ((x : A) → p (f x) ≡ true → p x ≡ true)
      → count_by p (map f xs) ≤ count_by p xs
  unfolding count_by
  count_by-map_le f [] keeps = omega arith
  count_by-map_le f (x ∷ xs) keeps = ground (arith, keeps x, count_by-map_le f xs keeps)

  pub count_by-filter_by :
      (q : A → Bool) (xs : List A) → count_by p (filter_by q xs) ≤ count_by p xs
  unfolding count_by filter_by
  count_by-filter_by q [] = omega arith
  count_by-filter_by q (x ∷ xs) = ground (arith, count_by-filter_by q xs)

  -- One of them passes no more.
  pub count_by-map_lt :
      (f : A → A) (xs : List A) (x : A)
      → ((y : A) → p (f y) ≡ true → p y ≡ true)
      → find_first p xs ≡ some x
      → p (f x) ≡ false
      → count_by p (map f xs) < count_by p xs
  unfolding count_by find_first
  count_by-map_lt f [] x keeps h closed = absurd (ground arith)
  count_by-map_lt f (y ∷ xs) x keeps h closed = elim (Bool-cases (p y)) [
    | inl here ↦
        let same : y ≡ x = ground arith in
        let gone : p (f y) ≡ false = rw same closed in ground (arith, count_by-map_le f xs keeps)
    | inr past ↦ ground (arith, keeps y, count_by-map_lt f xs x keeps)
  ]

module _ {A : Type 0} (p : A → Bool) where
  pub filter_by-holds : (xs : List A) → All (λ x. p x ≡ true) (filter_by p xs)
  unfolding filter_by
  filter_by-holds [] = tt
  filter_by-holds (x ∷ xs) = elim (Bool-cases (p x)) [
    | inl here ↦ rw here (here, filter_by-holds xs)
    | inr past ↦ rw past (filter_by-holds xs)
  ]

  pub filter_by-same : (xs : List A) → All (λ x. p x ≡ true) xs → filter_by p xs ≡ xs
  unfolding filter_by
  filter_by-same [] h = refl
  filter_by-same (x ∷ xs) (here, h) = rw (here, filter_by-same xs h) refl

  pub filter_by-All : (Q : A → Type 0) (xs : List A) → All Q xs → All Q (filter_by p xs)
  unfolding filter_by
  filter_by-All Q [] h = tt
  filter_by-All Q (x ∷ xs) (q, h) = elim (Bool-cases (p x)) [
    | inl here ↦ rw here (q, filter_by-All Q xs h)
    | inr past ↦ rw past (filter_by-All Q xs h)
  ]
