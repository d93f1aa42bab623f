-- ===== src/LoadBalancer/Priority.antt =====
-- The failover choice.
use cluster_gate.Prelude.{
  some, [], ◌∷◌, refl, List, if◌then◌else◌, ◌≡◌, ◌++◌, leb, All, ◌<◌, ◌≤◌, inl, inr, All-append,
  Bool-cases, All-imp, arith, ap,
}
use cluster_gate.LoadBalancer.{
  sort_by_priority, insert_by_priority, RouteTarget, pick_failover, selected,
}

-- The target stands in the list, every target before it has a larger priority number, and none
-- behind it has a smaller one.
pub record IsFirstChoice (ts : List RouteTarget) (t : RouteTarget) : Type 0 where
  pub before : List RouteTarget
  pub behind : List RouteTarget
  pub stands : ts ≡ before ++ t ∷ behind
  pub larger : All (λ x. t.priority < x.priority) before
  pub no_smaller : All (λ x. t.priority ≤ x.priority) behind

IsFirstChoice-All :
    {ts : List RouteTarget} {t : RouteTarget}
    → IsFirstChoice ts t
    → All (λ x. t.priority ≤ x.priority) ts
IsFirstChoice-All {t} c = rw c.stands (
    All-append (λ x. t.priority ≤ x.priority) c.before (t ∷ c.behind)
      (All-imp c.before (λ x h. omega arith) c.larger) (omega arith, c.no_smaller))

-- What heads the sorted list, as a search for the first minimum.
best : RouteTarget → List RouteTarget → RouteTarget
best t [] = t
best t (x ∷ xs) = let b = best x xs in if leb t.priority b.priority then t else b

head-insert :
    (t x : RouteTarget) (xs ys : List RouteTarget)
    → xs ≡ x ∷ ys
    → (zs : List RouteTarget) × (insert_by_priority t xs
        ≡ (if leb t.priority x.priority then t else x) ∷ zs)
unfolding insert_by_priority
head-insert t x xs ys e =
    rw (e, insert_by_priority)
      (elim (Bool-cases (leb t.priority x.priority)) [
        | inl le ↦ (x ∷ ys, rw le)
        | inr gt ↦ (insert_by_priority t ys, rw gt)
      ])

sort_by_priority-head :
    (t : RouteTarget) (ts : List RouteTarget)
    → (zs : List RouteTarget) × (sort_by_priority (t ∷ ts) ≡ best t ts ∷ zs)
unfolding sort_by_priority best
sort_by_priority-head t [] = ([], refl)
sort_by_priority-head t (x ∷ xs) =
    let (ys, e) = sort_by_priority-head x xs in
    head-insert t (best x xs) (sort_by_priority (x ∷ xs)) ys e

best-IsFirstChoice : (t : RouteTarget) (ts : List RouteTarget) → IsFirstChoice (t ∷ ts) (best t ts)
unfolding best
best-IsFirstChoice t [] = record {
  before = [];
  behind = [];
  stands = refl;
  larger = tt;
  no_smaller = tt;
}
best-IsFirstChoice t (x ∷ xs) =
    let ih = best-IsFirstChoice x xs in
    elim (Bool-cases (leb t.priority (best x xs).priority)) [
      | inl le ↦ rw le (record {
        before = [];
        behind = x ∷ xs;
        stands = refl;
        larger = tt;
        no_smaller = All-imp (x ∷ xs) (λ y h. ground arith) (IsFirstChoice-All ih);
      })
      | inr gt ↦ rw gt (record {
        before = t ∷ ih.before;
        behind = ih.behind;
        stands = ap (λ l. t ∷ l) ih.stands;
        larger = (ground arith, ih.larger);
        no_smaller = ih.no_smaller;
      })
    ]

-- Failover takes the first of the targets with the smallest priority number.
pub pick_failover-IsFirstChoice :
    (t : RouteTarget) (ts : List RouteTarget)
    → (c : RouteTarget) × (pick_failover (t ∷ ts) ≡ some (selected c)) × IsFirstChoice (t ∷ ts) c
unfolding pick_failover
pick_failover-IsFirstChoice t ts =
    let (zs, e) = sort_by_priority-head t ts in (best t ts, rw e, best-IsFirstChoice t ts)
