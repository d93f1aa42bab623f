-- ===== src/Prelude/Store.antt =====
-- A database table as the services see it through Prisma's client: rows under their id. Prisma is
-- no part of the repository, so the table is a record of its calls with the laws that are relied on.
use Prim.Native.String.{String}
use mathlib.Core.Path.{◌≡◌, refl}
use mathlib.Core.Bool.{false, Bool}
use mathlib.Core.Option.{Option, none, some}
use text.Mathlib.Text.{◌==◌ as str_eq}
use text.Mathlib.TextPositions.{eq_refl}
use cluster_gate.Prelude.Tests.{if◌then◌else◌}
use cluster_gate.Prelude.Results.{M, ok, throw, record_not_found}
use Prim.Native.Nat.{ℕ}

module _ {Row : Type 0} where
  -- A row that was not deleted, and a row that was changed if the condition held.
  abbrev pub unless : (Row → Bool) → Option Row → Option Row
  unless p none = none
  unless p (some r) = if p r then none else some r

  abbrev pub changed : (Row → Bool) → (Row → Row) → Option Row → Option Row
  changed p f none = none
  changed p f (some r) = some (if p r then f r else r)

pub record Table (Row : Type 0) : Type 1 where
  pub State : Type 0
  -- `findUnique({ where: { id } })`
  pub find_unique : String → State → Option Row
  -- the row under an id, replaced
  pub write : String → Row → State → State
  pub find_unique-write :
      (k j : String) (r : Row) (s : State)
      → find_unique j (write k r s) ≡ (if str_eq k j then some r else find_unique j s)
  -- `deleteMany({ where })`: how many rows were deleted, and the table without them
  pub delete_many : (String → Row → Bool) → State → ℕ × State
  pub find_unique-delete_many :
      (k : String) (p : String → Row → Bool) (s : State)
      → find_unique k (delete_many p s).1 ≡ unless (p k) (find_unique k s)
  -- `updateMany({ where, data })`, likewise
  pub update_many : (String → Row → Bool) → (Row → Row) → State → ℕ × State
  pub find_unique-update_many :
      (k : String) (p : String → Row → Bool) (f : Row → Row) (s : State)
      → find_unique k (update_many p f s).1 ≡ changed (p k) f (find_unique k s)

module _ {Row : Type 0} (t : Table Row) where
  open t use {State, find_unique, write, find_unique-write}

  -- `update({ where: { id }, data })`: throws when there is no such row.
  abbrev pub update : String → (Row → Row) → M State Row
  update id data_of s = elim (find_unique id s) [
    | none ↦ (throw record_not_found, s)
    | some r ↦ (ok (data_of r), write id (data_of r) s)
  ]

  -- `delete({ where: { id } })`: throws when there is no such row.
  abbrev pub delete : String → M State Row
  delete id s = elim (find_unique id s) [
    | none ↦ (throw record_not_found, s)
    | some r ↦ (ok r, (t.delete_many (λ k _. str_eq id k) s).1)
  ]

  -- `create({ data })`, under an id that the database has made up.
  abbrev pub create : String → Row → M State Row
  create id r s = (ok r, write id r s)

  abbrev pub find : String → M State (Option Row)
  find id s = (ok (find_unique id s), s)

  pub find_unique-write_self :
      (k : String) (r : Row) (s : State) → find_unique k (write k r s) ≡ some r
  find_unique-write_self k r s = rw (find_unique-write, eq_refl)

  pub find_unique-write_ne :
      (k j : String) (r : Row) (s : State)
      → str_eq k j ≡ false
      → find_unique j (write k r s) ≡ find_unique j s
  find_unique-write_ne k j r s h = rw (find_unique-write, h)

-- A table that holds its rows in a function shows that the laws can be met. It does not count.
abbrev pub memory : (Row : Type 0) → Table Row
memory Row = record {
  State = String → Option Row;
  find_unique = λ k s. s k;
  write = λ k r s j. if str_eq k j then some r else s j;
  find_unique-write = λ k j r s. refl;
  delete_many = λ p s. (0, λ k. unless (p k) (s k));
  find_unique-delete_many = λ k p s. refl;
  update_many = λ p f s. (0, λ k. changed (p k) f (s k));
  find_unique-update_many = λ k p f s. refl;
}
