-- ===== src/LoadBalancer/Health.antt =====
-- Only healthy targets are chosen, and one is chosen whenever there is one.
use cluster_gate.Prelude.{
  ℕ, none, some, true, false, [], ◌∷◌, zero, suc, refl, inl, inr, List, Option, Table, ◌*◌, ◌<◌,
  ◌%◌, Bool-cases, ◌≡◌, All, length, leb, arith, get_elem?, ◌+◌, String, ◌⊎◌, if◌then◌else◌, ap,
  ◌∙◌,
}
use mathlib.Core.Path.{subst}
use cluster_gate.LoadBalancer.{
  failover, round_robin, weighted, Selected, pick_weighted, pick_round_robin, healthy_of,
  weighted_from, RouteTarget, RouteIndex, pick_failover, total_weight, Chance, select_healthy,
  selected, LbStrategy, Balancer, select_target, next_index,
}
use mathlib.Core.List.{Memᴰ}
use cluster_gate.LoadBalancer.Priority.{pick_failover-IsFirstChoice}
use mathlib.Core.List.Memᴰ

-- The selection names a target of the list, and that target is healthy.
abbrev pub NamesHealthy : Selected → List RouteTarget → Type 0
NamesHealthy sel ts = (t : RouteTarget) × Memᴰ t ts × (t.is_healthy ≡ true) × (sel ≡ selected t)

healthy_of-mem :
    {t : RouteTarget} (ts : List RouteTarget)
    → Memᴰ t (healthy_of ts)
    → Memᴰ t ts × (t.is_healthy ≡ true)
unfolding healthy_of
healthy_of-mem [] m = absurd (Memᴰ.not-nil m)
healthy_of-mem {t} (x ∷ ts) m = elim (Bool-cases x.is_healthy) [
  | inl up ↦
      let m' : Memᴰ t (x ∷ healthy_of ts) =
        subst (λ b. Memᴰ t (if b then x ∷ healthy_of ts else healthy_of ts)) up m in
      elim (Memᴰ.cases_cons m') [
        | inl e ↦ (Memᴰ.head e, ap (λ y. y.is_healthy) e ∙ up)
        | inr later ↦ let (listed, well) = healthy_of-mem ts later in (Memᴰ.tail listed, well)
      ]
  | inr down ↦
      let m' : Memᴰ t (healthy_of ts) =
        subst (λ b. Memᴰ t (if b then x ∷ healthy_of ts else healthy_of ts)) down m in
      let (listed, well) = healthy_of-mem ts m' in (Memᴰ.tail listed, well)
]

-- An answer that names a member of the list.
abbrev Names : Option Selected → List RouteTarget → Type 0
Names answer ts = (t : RouteTarget) × Memᴰ t ts × (answer ≡ some (selected t))

get_elem?-mem :
    (ts : List RouteTarget) (i : ℕ)
    → i < length ts
    → (t : RouteTarget) × Memᴰ t ts × (get_elem? ts i ≡ some t)
get_elem?-mem [] i h = absurd (omega arith)
get_elem?-mem (x ∷ ts) zero h = (x, Memᴰ.head refl, refl)
get_elem?-mem (x ∷ ts) (suc i) h =
    let (t, m, e) = get_elem?-mem ts i (omega arith) in (t, Memᴰ.tail m, e)

pick_round_robin-Names :
    (idx : ℕ) (x : RouteTarget) (ts : List RouteTarget)
    → Names (pick_round_robin idx (x ∷ ts)) (x ∷ ts)
unfolding pick_round_robin
pick_round_robin-Names idx x ts =
    let (t, m, e) = get_elem?-mem (x ∷ ts) (idx % length (x ∷ ts)) (grind arith) in (t, m, rw e)

weighted_from-mem :
    (draw scale spent : ℕ) (last : RouteTarget) (ts : List RouteTarget)
    → Memᴰ (weighted_from draw scale spent last ts) (last ∷ ts)
unfolding weighted_from
weighted_from-mem draw scale spent last [] = Memᴰ.head refl
weighted_from-mem draw scale spent last (t ∷ ts) =
    elim (Bool-cases (leb draw (scale * (spent + t.weight)))) [
      | inl hit ↦ rw hit (Memᴰ.tail (Memᴰ.head refl))
      | inr past ↦ rw past (Memᴰ.tail (weighted_from-mem draw scale (spent + t.weight) t ts))
    ]

pick_weighted-Names :
    (u scale : ℕ) (x : RouteTarget) (ts : List RouteTarget)
    → Names (pick_weighted u scale (x ∷ ts)) (x ∷ ts)
unfolding pick_weighted
pick_weighted-Names u scale x ts = (
  weighted_from (u * total_weight 0 (x ∷ ts)) scale 0 x (x ∷ ts),
  elim (Memᴰ.cases_cons (weighted_from-mem (u * total_weight 0 (x ∷ ts)) scale 0 x (x ∷ ts))) [
    | inl e ↦ Memᴰ.head e
    | inr m ↦ m
  ],
  refl,
)

pick_failover-Names :
    (x : RouteTarget) (ts : List RouteTarget) → Names (pick_failover (x ∷ ts)) (x ∷ ts)
pick_failover-Names x ts =
    let (t, e, c) = pick_failover-IsFirstChoice x ts in
    (t, rw c.stands (Memᴰ.append_right c.before (Memᴰ.head refl)), e)

module _ (indices : Table RouteIndex) where
  select_healthy-Names :
      (chance : Chance) (route_id : String) (strategy : LbStrategy) (x : RouteTarget)
      (ts : List RouteTarget) (b : Balancer indices)
      → Names (select_healthy indices chance route_id strategy (x ∷ ts) b).0 (x ∷ ts)
  unfolding select_healthy
  select_healthy-Names chance route_id round_robin x ts b =
      pick_round_robin-Names (next_index indices chance.up route_id b).0 x ts
  select_healthy-Names chance route_id weighted x ts b =
      pick_weighted-Names chance.draw chance.scale x ts
  select_healthy-Names chance route_id failover x ts b = pick_failover-Names x ts

  none_healthy : (ts : List RouteTarget) → healthy_of ts ≡ [] → All (λ t. t.is_healthy ≡ false) ts
  unfolding healthy_of
  none_healthy [] e = tt
  none_healthy (x ∷ ts) e = ground (arith, none_healthy ts)

  -- Whatever the strategy, the state and the draw: either every target is unhealthy and none is
  -- selected, or a target of the list is selected that is healthy.
  pub select_target-healthy :
      (chance : Chance) (route_id : String) (strategy : LbStrategy) (ts : List RouteTarget)
      (b : Balancer indices)
      → (All (λ t. t.is_healthy ≡ false) ts
          × ((select_target indices chance route_id strategy ts b).0 ≡ none))
        ⊎ ((sel : Selected) × ((select_target indices chance route_id strategy ts b).0 ≡ some sel)
            × NamesHealthy sel ts)
  unfolding select_target
  select_target-healthy chance route_id strategy ts b = by_healthy (healthy_of ts) refl
    where
      by_healthy :
          (hs : List RouteTarget)
          → healthy_of ts ≡ hs
          → (All (λ t. t.is_healthy ≡ false) ts
              × ((select_target indices chance route_id strategy ts b).0 ≡ none))
            ⊎ ((sel : Selected) × ((select_target indices chance route_id strategy ts b).0
                  ≡ some sel)
                × NamesHealthy sel ts)
      by_healthy [] e = inl (none_healthy ts e, rw (select_target, e))
      by_healthy (x ∷ hs) e =
          let (t, m, named) = select_healthy-Names chance route_id strategy x hs b in
          let (listed, well) = healthy_of-mem ts (rw (← e) at m) in
          inr (selected t, rw (select_target, e) named, (t, listed, well, refl))
