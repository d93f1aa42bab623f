-- ===== src/LoadBalancer/Fair.antt =====
-- The round robin is fair.
use mathlib.Core.Option
use mathlib.Core.List.{map-append}
use mathlib.Core.Path.{ap₂}
use native.Mathlib.Nat.{zero-add, add-zero, suc-add}
use cluster_gate.Prelude.{
  ℕ, some, true, [], ◌∷◌, zero, suc, refl, Table, List, ◌%◌, String, ◌<◌, Option, length, map, ◌+◌,
  get_elem?, ◌≡◌, drop, ◌≤◌, take, arith, ap, ◌++◌, ◌∙◌, ◌-◌, sym, find_unique-write_self, false,
}
use cluster_gate.LoadBalancer.{
  pick_round_robin, RouteIndex, RouteTarget, Selected, Balancer, selected, Chance, select_target,
  healthy_of, round_robin, is_empty,
}

-- What calls with the indices from k on are told.
turns : List RouteTarget → ℕ → ℕ → List (Option Selected)
turns ts k zero = []
turns ts k (suc n) = pick_round_robin k ts ∷ turns ts (k + 1) n

abbrev pub chosen : List RouteTarget → List (Option Selected)
chosen ts = map (λ t. some (selected t)) ts

get_elem?-drop :
    (ts : List RouteTarget) (i : ℕ)
    → i < length ts
    → (t : RouteTarget) × (get_elem? ts i ≡ some t) × (drop i ts ≡ t ∷ drop (suc i) ts)
get_elem?-drop [] i h = absurd (omega arith)
get_elem?-drop (x ∷ ts) zero h = (x, refl, refl)
get_elem?-drop (x ∷ ts) (suc i) h = get_elem?-drop ts i (omega arith)

mod-suc : (k n r : ℕ) → k % n ≡ r → suc r < n → (k + 1) % n ≡ suc r
mod-suc k n r e h = grind arith

mod-wrap : (k n r : ℕ) → k % n ≡ r → suc r ≡ n → (k + 1) % n ≡ 0
mod-wrap k n r e h = grind arith

-- A stretch of turns that does not pass the end of the list goes through it in order.
turns-stretch :
    (ts : List RouteTarget) (k r n : ℕ)
    → k % length ts ≡ r
    → r + n ≤ length ts
    → turns ts k n ≡ chosen (take n (drop r ts))
unfolding turns pick_round_robin
turns-stretch ts k r zero e h = refl
turns-stretch ts k r (suc zero) e h =
    let (t, at, next) = get_elem?-drop ts r (omega arith) in
    rw (e, next) (cc (ap (λ o. Option.map selected o ∷ []) at))
turns-stretch ts k r (suc (suc n)) e h =
    let (t, at, next) = get_elem?-drop ts r (omega arith) in
    rw (e, next)
      (ap₂ (λ o l. Option.map selected o ∷ l) at
        (turns-stretch ts (k + 1) (suc r) (suc n) (mod-suc k (length ts) r e (omega arith))
          (omega arith)))

turns-add :
    (ts : List RouteTarget) (k m n : ℕ) → turns ts k (m + n) ≡ turns ts k m ++ turns ts (k + m) n
unfolding turns
turns-add ts k zero n = rw (zero-add, add-zero)
turns-add ts k (suc m) n = rw suc-add (
    ap (λ l. pick_round_robin k ts ∷ l)
      (turns-add ts (k + 1) m n ∙ ap (λ j. turns ts (k + 1) m ++ turns ts j n) (omega arith)))

take-all : (ts : List RouteTarget) (n : ℕ) → length ts ≤ n → take n ts ≡ ts
take-all [] zero h = refl
take-all [] (suc n) h = refl
take-all (x ∷ ts) zero h = absurd (omega arith)
take-all (x ∷ ts) (suc n) h = ap (λ l. x ∷ l) (take-all ts n (omega arith))

length-drop : (n : ℕ) (ts : List RouteTarget) → length (drop n ts) ≡ length ts - n
length-drop zero ts = omega arith
length-drop (suc n) [] = omega arith
length-drop (suc n) (x ∷ ts) = omega (arith, length-drop n ts)

mod-rest : (k n r : ℕ) → 0 < n → k % n ≡ r → (k + (n - r)) % n ≡ 0
mod-rest k n r p e = grind arith

-- As many turns as there are targets go once round the list.
turns-round :
    (ts : List RouteTarget) (k r : ℕ)
    → 0 < length ts
    → k % length ts ≡ r
    → turns ts k (length ts) ≡ chosen (drop r ts ++ take r ts)
turns-round ts k r p e =
    let below : r < length ts = grind arith in
    ap (turns ts k) (omega arith)
    ∙ (turns-add ts k (length ts - r) r
        ∙ (ap₂ (λ a b. a ++ b)
              (turns-stretch ts k r (length ts - r) e (omega arith)
                ∙ ap chosen
                    (take-all (drop r ts) (length ts - r) (omega (arith, length-drop r ts))))
              (turns-stretch ts (k + (length ts - r)) 0 r (mod-rest k (length ts) r p e)
                (omega arith))
            ∙ sym (map-append (λ t. some (selected t)) (drop r ts) (take r ts))))

not_empty : (ts : List RouteTarget) → 0 < length ts → is_empty ts ≡ false
not_empty [] h = absurd (omega arith)
not_empty (x ∷ ts) h = refl

module _ (indices : Table RouteIndex) (chance : Chance) (route_id : String)
    (ts : List RouteTarget) where
  -- What `n` round robin calls in a row for one route are told.
  unfoldable pub selections : ℕ → Balancer indices → List (Option Selected)
  selections zero b = []
  selections (suc n) b =
      let (sel, b') = select_target indices chance route_id round_robin ts b in
      sel ∷ selections n b'

  module _ (up : chance.up ≡ true) (some_healthy : 0 < length (healthy_of ts)) where
    select_target-round_robin :
        (b : Balancer indices) (r : RouteIndex)
        → indices.find_unique route_id b.stored ≡ some r
        → select_target indices chance route_id round_robin ts b ≡ (
          pick_round_robin (r.lb_rr_index + 1) (healthy_of ts),
          record b {
            stored = indices.write route_id (record { lb_rr_index = r.lb_rr_index + 1 }) b.stored;
          },
        )
    unfolding select_target
    select_target-round_robin b r found = ground (arith, not_empty (healthy_of ts) some_healthy)

    selections-turns :
        (n : ℕ) (b : Balancer indices) (r : RouteIndex)
        → indices.find_unique route_id b.stored ≡ some r
        → selections n b ≡ turns (healthy_of ts) (r.lb_rr_index + 1) n
    unfolding selections turns
    selections-turns zero b r found = refl
    selections-turns (suc n) b r found = rw (select_target-round_robin b r found) (
        ap (λ l. pick_round_robin (r.lb_rr_index + 1) (healthy_of ts) ∷ l)
          (selections-turns n
            (record b {
              stored = indices.write route_id (record { lb_rr_index = r.lb_rr_index + 1 }) b.stored;
            })
            (record { lb_rr_index = r.lb_rr_index + 1 })
            (find_unique-write_self indices route_id (record { lb_rr_index = r.lb_rr_index + 1 })
              b.stored)))

    -- While the store answers and the healthy targets stay the same, as many calls in a row as
    -- there are healthy targets select each of them exactly once, in the list's order from the
    -- place where the shared index stands.
    pub selections-round :
        (b : Balancer indices) (r : RouteIndex)
        → indices.find_unique route_id b.stored ≡ some r
        → let healthy = healthy_of ts in
          let place = (r.lb_rr_index + 1) % length healthy in
          selections (length healthy) b ≡ chosen (drop place healthy ++ take place healthy)
    selections-round b r found =
        selections-turns (length (healthy_of ts)) b r found
        ∙ turns-round (healthy_of ts) (r.lb_rr_index + 1)
            ((r.lb_rr_index + 1) % length (healthy_of ts)) some_healthy refl
