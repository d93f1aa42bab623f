-- ===== src/LoadBalancer/Weights.antt =====
-- The weighted choice.
use cluster_gate.Prelude.{
  ℕ, [], ◌∷◌, refl, List, ◌≡◌, ◌+◌, ◌*◌, arith, ◌<◌, ◌++◌, ap, ◌⊎◌, ◌≤◌, ◌≢◌, some, inl, inr,
  Bool-cases, leb,
}
use cluster_gate.LoadBalancer.{weighted_from, total_weight, RouteTarget, pick_weighted, selected}

abbrev pub weight_sum : List RouteTarget → ℕ
weight_sum [] = 0
weight_sum (t ∷ ts) = t.weight + weight_sum ts

total_weight_lem : (sum : ℕ) (ts : List RouteTarget) → total_weight sum ts ≡ sum + weight_sum ts
unfolding total_weight
total_weight_lem sum [] = omega arith
total_weight_lem sum (t ∷ ts) = omega (arith, total_weight_lem (sum + t.weight) ts)

total_weight_zero : (ts : List RouteTarget) → total_weight 0 ts ≡ weight_sum ts
total_weight_zero ts = omega (arith, total_weight_lem 0 ts)

-- A target stands in the list behind `before`, and the draw falls into its share, which holds its upper
-- end and not its lower one; the draw 0 falls to the first target.
pub record Share (draw scale spent : ℕ) (ts : List RouteTarget) (t : RouteTarget) : Type 0 where
  pub before : List RouteTarget
  pub behind : List RouteTarget
  pub stands : ts ≡ before ++ t ∷ behind
  pub above : (scale * (spent + weight_sum before) < draw) ⊎ ((draw ≡ 0) × (before ≡ []))
  pub within : draw ≤ scale * (spent + weight_sum before + t.weight)

Share-cons :
    {draw scale spent : ℕ} {ts : List RouteTarget} {t x : RouteTarget}
    → 0 < draw
    → Share draw scale (spent + x.weight) ts t
    → Share draw scale spent (x ∷ ts) t
Share-cons {spent} {x} some_draw s = record {
  before = x ∷ s.before;
  behind = s.behind;
  stands = ap (λ l. x ∷ l) s.stands;
  above =
      inl (elim s.above [
        | inl h ↦ ground arith
        | inr (nothing, _) ↦ absurd (omega (arith, nothing))
      ]);
  within = omega (arith, s.within);
}

weighted_from-Share :
    (draw scale spent : ℕ) (last : RouteTarget) (ts : List RouteTarget)
    → (scale * spent < draw) ⊎ (draw ≡ 0)
    → draw ≤ scale * (spent + weight_sum ts)
    → ts ≢ []
    → Share draw scale spent ts (weighted_from draw scale spent last ts)
unfolding weighted_from
weighted_from-Share draw scale spent last [] a h n = absurd (n refl)
weighted_from-Share draw scale spent last (t ∷ ts) a h n =
    elim (Bool-cases (leb draw (scale * (spent + t.weight)))) [
      | inl hit ↦ rw hit (record {
        before = [];
        behind = ts;
        stands = refl;
        above = elim a [ inl low ↦ inl (ground arith) | inr nothing ↦ inr (nothing, refl) ];
        within = ground arith;
      })
      | inr past ↦ rw past (
          Share-cons (ground arith) (
            weighted_from-Share draw scale (spent + t.weight) t ts (ground arith) (ground arith)
              (λ e. ground (arith, ap weight_sum e))))
    ]

-- With random = u / scale below 1 and a total weight above 0, a target is chosen whose share of the
-- line from 0 to the total weight holds the point random times total: the shares lie in the list's
-- order, and each is as long as its target's weight and without its lower end, where the point 0
-- belongs to the first target.
pub pick_weighted-Share :
    (u scale : ℕ) (ts : List RouteTarget)
    → u < scale
    → 0 < weight_sum ts
    → (t : RouteTarget) × (pick_weighted u scale ts ≡ some (selected t))
      × Share (u * weight_sum ts) scale 0 ts t
unfolding pick_weighted
pick_weighted-Share u scale [] h p = absurd (omega arith)
pick_weighted-Share u scale (t ∷ ts) h p = (
  weighted_from (u * weight_sum (t ∷ ts)) scale 0 t (t ∷ ts),
  ap (λ n. some (selected (weighted_from (u * n) scale 0 t (t ∷ ts)))) (total_weight_zero (t ∷ ts)),
  weighted_from-Share (u * weight_sum (t ∷ ts)) scale 0 t (t ∷ ts) (ground arith) (grind arith)
      (λ e. cc),
)
