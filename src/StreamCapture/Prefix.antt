-- ===== src/StreamCapture/Prefix.antt =====
-- What is kept of a body, however it is cut into chunks.
use mathlib.Core.Path.{subst}
use mathlib.Core.List.{append_assoc, append-nil}
use cluster_gate.Prelude.{
  ℕ, [], ◌∷◌, zero, suc, refl, inl, inr, List, ◌≡◌, length, ◌++◌, take, ◌-◌, ◌⊎◌, ap, ◌∙◌, arith,
  ◌≤◌, Bool-cases, sym, leb, leb→le, ◌+◌, Bool, ◌<◌, if◌then◌else◌, length-append, ◌*◌,
}
use cluster_gate.StreamCapture.{StreamCapture, concat, push, slice_of, new_capture, total_bytes}

unfoldable pub push_all : StreamCapture → List (List ℕ) → StreamCapture
push_all c [] = c
push_all c (b ∷ bs) = push_all (push c b) bs

-- What holds of a capture that has seen a body.
pub record Captures (c : StreamCapture) (body : List ℕ) : Type 0 where
  pub kept : concat c.chunks ≡ take c.raw_budget body
  pub count : c.captured ≡ length (take c.raw_budget body)
  pub size : c.total ≡ length body

concat-append : (xs ys : List (List ℕ)) → concat (xs ++ ys) ≡ concat xs ++ concat ys
unfolding concat
concat-append [] ys = refl
concat-append (x ∷ xs) ys =
    ap (λ l. x ++ l) (concat-append xs ys) ∙ sym (append_assoc x (concat xs) (concat ys))

take-append : (n : ℕ) (xs ys : List ℕ) → take n (xs ++ ys) ≡ take n xs ++ take (n - length xs) ys
take-append zero xs ys = let e : 0 ≡ 0 - length xs = omega arith in ap (λ k. take k ys) e
take-append (suc n) [] ys = let e : suc n ≡ suc n - 0 = omega arith in ap (λ k. take k ys) e
take-append (suc n) (x ∷ xs) ys =
    let e : n - length xs ≡ suc n - suc (length xs) = omega arith in
    ap (λ l. x ∷ l) (take-append n xs ys ∙ ap (λ k. take n xs ++ take k ys) e)

length-take : (n : ℕ) (xs : List ℕ) → (length (take n xs) ≡ n) ⊎ (take n xs ≡ xs)
length-take zero xs = inl refl
length-take (suc n) [] = inr refl
length-take (suc n) (x ∷ xs) = elim (length-take n xs) [
  | inl h ↦ inl (ap suc h)
  | inr h ↦ inr (ap (λ l. x ∷ l) h)
]

length-take_le : (n : ℕ) (xs : List ℕ) → length (take n xs) ≤ length xs
length-take_le zero xs = omega arith
length-take_le (suc n) [] = omega arith
length-take_le (suc n) (x ∷ xs) = omega (arith, length-take_le n xs)

pub take_all : (n : ℕ) (xs : List ℕ) → length xs ≤ n → take n xs ≡ xs
take_all zero [] h = refl
take_all zero (x ∷ xs) h = absurd (omega arith)
take_all (suc n) [] h = refl
take_all (suc n) (x ∷ xs) h = ap (λ l. x ∷ l) (take_all n xs (omega arith))

slice_of-take : (n : ℕ) (xs : List ℕ) → slice_of n xs ≡ take n xs
slice_of-take n xs = elim (Bool-cases (leb (length xs) n)) [
  | inl short ↦ rw short (sym (take_all n xs (leb→le (length xs) n short)))
  | inr long ↦ rw long
]

-- The two branches of `push`.
push_full-Captures :
    (c : StreamCapture) (body chunk : List ℕ)
    → c.raw_budget ≤ c.captured
    → Captures c body
    → Captures (record c { total = c.total + length chunk }) (body ++ chunk)
push_full-Captures c body chunk le v =
    let shorter = length-take_le c.raw_budget body in
    let spent : c.raw_budget - length body ≡ 0 = omega (arith, v.count, shorter) in
    let same : take c.raw_budget body ≡ take c.raw_budget (body ++ chunk) = sym (
      take-append c.raw_budget body chunk
      ∙ ap (λ k. take c.raw_budget body ++ take k chunk) spent
      ∙ append-nil (take c.raw_budget body)) in
    record {
      kept = v.kept ∙ same;
      count = v.count ∙ ap length same;
      size = omega (arith, length-append body chunk, v.size);
    }

push_open-Captures :
    (c : StreamCapture) (body chunk : List ℕ)
    → c.captured < c.raw_budget
    → Captures c body
    → let slice = slice_of (c.raw_budget - c.captured) chunk in
      Captures
        (record c {
          total = c.total + length chunk;
          chunks = c.chunks ++ slice ∷ [];
          captured = c.captured + length slice;
        })
        (body ++ chunk)
unfolding concat
push_open-Captures c body chunk lt v =
    let slice = slice_of (c.raw_budget - c.captured) chunk in
    let all_kept : take c.raw_budget body ≡ body = elim (length-take c.raw_budget body) [
      | inl long ↦ absurd (omega (arith, v.count, long))
      | inr same ↦ same
    ] in
    let at : c.captured ≡ length body = v.count ∙ ap length all_kept in
    let cut : slice ≡ take (c.raw_budget - length body) chunk =
      slice_of-take (c.raw_budget - c.captured) chunk
      ∙ ap (λ k. take (c.raw_budget - k) chunk) at in
    let whole = take-append c.raw_budget body chunk in
    record {
      kept =
          concat-append c.chunks (slice ∷ [])
          ∙ ap (λ l. l ++ (slice ++ [])) v.kept
          ∙ ap (λ l. take c.raw_budget body ++ l) (append-nil slice ∙ cut)
          ∙ sym whole;
      count = omega (
        arith,
        v.count,
        ap length cut,
        ap length whole,
        length-append (take c.raw_budget body) (take (c.raw_budget - length body) chunk),
      );
      size = omega (arith, length-append body chunk, v.size);
    }

push-Captures :
    (c : StreamCapture) (body chunk : List ℕ)
    → Captures c body
    → Captures (push c chunk) (body ++ chunk)
unfolding push
push-Captures c body chunk v = elim (Bool-cases (leb c.raw_budget c.captured)) [
  | inl is_full ↦
      rw (push, is_full)
        (push_full-Captures c body chunk (leb→le c.raw_budget c.captured is_full) v)
  | inr has_room ↦ rw (push, has_room) (push_open-Captures c body chunk (ground arith) v)
]

push-raw_budget : (c : StreamCapture) (chunk : List ℕ) → (push c chunk).raw_budget ≡ c.raw_budget
unfolding push
push-raw_budget c chunk = ground arith

take_nil : (n : ℕ) → take {A = ℕ} n [] ≡ []
take_nil zero = refl
take_nil (suc n) = refl

new-Captures : (limit : ℕ) (compressed : Bool) → Captures (new_capture limit compressed) []
unfolding concat
new-Captures limit compressed =
    let budget = if compressed then limit * 4 else limit in
    record { kept = sym (take_nil budget); count = ap length (sym (take_nil budget)); size = refl }

push_all-Captures :
    (c : StreamCapture) (body : List ℕ) (bs : List (List ℕ))
    → Captures c body
    → Captures (push_all c bs) (body ++ concat bs) × ((push_all c bs).raw_budget ≡ c.raw_budget)
unfolding push_all concat
push_all-Captures c body [] v = (subst (Captures c) (sym (append-nil body)) v, refl)
push_all-Captures c body (b ∷ bs) v =
    let (later, budget) = push_all-Captures (push c b) (body ++ b) bs (push-Captures c body b v) in
    (
      subst (Captures (push_all (push c b) bs)) (append_assoc body b (concat bs)) later,
      budget ∙ push-raw_budget c b,
    )

-- However a body is cut into chunks, a new capture that is given all of them keeps the first bytes of
-- the body, as many as the limit (or four times the limit where the body is compressed) or all of
-- them if it is shorter, counts what it keeps, and counts every byte of the body.
pub push_all-prefix :
    (limit : ℕ) (compressed : Bool) (bs : List (List ℕ))
    → let budget = if compressed then limit * 4 else limit in
      let c = push_all (new_capture limit compressed) bs in
      (concat c.chunks ≡ take budget (concat bs))
      × (c.captured ≡ length (take budget (concat bs)))
      × (total_bytes c ≡ length (concat bs))
push_all-prefix limit compressed bs =
    let start : StreamCapture = new_capture limit compressed in
    let (v, budget) = push_all-Captures start [] bs (new-Captures limit compressed) in
    (
      v.kept ∙ ap (λ k. take k (concat bs)) budget,
      v.count ∙ ap (λ k. length (take k (concat bs))) budget,
      v.size,
    )
