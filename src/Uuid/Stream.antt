-- ===== src/Uuid/Stream.antt =====
-- The ids that calls of `Generate` in a row give.
use grain.Base.{
  ℕ, zero, suc, ◌+◌, ◌-◌, ◌*◌, ◌^◌, ◌≤◌, ◌<◌, ◌≡◌, refl, sym, ap, subst, ◌∙◌, ◌⊎◌, inl, inr, some,
  List, [], ◌∷◌, length, arith,
}
use grain.Base.Int.{ℤ}
use grain.Uuid.{Uuid, parse_node, epoch, new_uuid, now_ms, generate_many}
use grain.Uuid.Layout.{compose, parse-compose}
use grain.Uuid.Order.{
  IsValid, new_uuid-IsValid, new_uuid_state, Fresh, generate-Fresh, generate-reading,
  generate_total,
}

-- Each id is above the one before, the first at least `low`, and `node` gave them.
abbrev pub AscendFrom : ℕ → ℕ → List ℕ → Type 0
AscendFrom node low [] = Unit
AscendFrom node low (id ∷ ids) = (low ≤ id) × (parse_node id ≡ node) × AscendFrom node (id + 1) ids

-- A clock that does not go back, and shows a new millisecond within `pace + 1` readings.
pub record Ticks (pace : ℕ) (elapsed : ℕ → ℕ) : Type 0 where
  pub steady : (k : ℕ) → elapsed k ≤ elapsed (k + 1)
  pub ticks : (k : ℕ) → elapsed k < elapsed (k + 1 + pace)

module _ (pace : ℕ) (elapsed : ℕ → ℕ) (t : Ticks pace elapsed) where
  steady_by : (k d : ℕ) → elapsed k ≤ elapsed (k + d)
  steady_by k zero =
      let same : k + 0 ≡ k = omega arith in
      subst (λ i. elapsed k ≤ elapsed i) (sym same) (omega arith)
  steady_by k (suc d) =
      let same : k + suc d ≡ k + d + 1 = omega arith in
      subst (λ i. elapsed k ≤ elapsed i) (sym same) (omega (arith, steady_by k d, t.steady (k + d)))

  steady_to : (j k : ℕ) → j ≤ k → elapsed j ≤ elapsed k
  steady_to j k h =
      let same : j + (k - j) ≡ k = omega arith in
      subst (λ i. elapsed j ≤ elapsed i) same (steady_by j (k - j))

  -- the least that the next id can be
  abbrev Floor : Uuid → ℕ → Type 0
  Floor n low =
      (low ≡ 0) ⊎ ((epoch ≤ n.timestamp) × (low ≡ compose (n.timestamp - epoch) n.node n.step + 1))

  Fresh-above :
      {n n' : Uuid} {id : ℕ} (low : ℕ) → IsValid n → Fresh n n' id → Floor n low → low ≤ id
  Fresh-above {n} {n'} {id} low v f h = ground (
    arith, v.step_fits, f.reads, f.valid.node_fits, f.valid.step_fits, f.same_node, f.later,
    f.in_time,
  )

  Fresh-Floor : {n n' : Uuid} {id : ℕ} → Fresh n n' id → Floor n' (id + 1)
  Fresh-Floor f = inr (f.in_time, ap (λ i. i + 1) f.reads)

  Fresh-parse_node : {n n' : Uuid} {id : ℕ} → Fresh n n' id → parse_node id ≡ n.node
  Fresh-parse_node {n} {n'} {id} f =
      let back =
        parse-compose (n'.timestamp - epoch) n'.node n'.step (omega (arith, f.valid.time_fits))
          f.valid.node_fits f.valid.step_fits in
      ap parse_node f.reads ∙ back.1 ∙ f.same_node

  ascends :
      (fuel count : ℕ) (n : Uuid) (k low : ℕ)
      → IsValid n
      → n.timestamp ≤ now_ms elapsed n k
      → pace + 1 < fuel
      → now_ms elapsed n (k + count * (fuel + 1)) < epoch + 2 ^ 42
      → Floor n low
      → (ids : List ℕ) × (generate_many elapsed fuel count n k ≡ some ids)
        × (length ids ≡ count)
        × AscendFrom n.node low ids
  unfolding generate_many
  ascends fuel zero n k low v h f era l = ([], refl, refl, tt)
  ascends fuel (suc count) n k low v h f era l =
      let behind : n.timestamp < now_ms elapsed n (k + 1 + pace) = omega (arith, t.ticks k) in
      let ((n', id, k'), e) = generate_total elapsed pace fuel n k behind f in
      let (at, after', within) = generate-reading elapsed fuel n k n' id k' h e in
      let reading : elapsed (k' - 1) ≤ elapsed (k + suc count * (fuel + 1)) =
        steady_to (k' - 1) (k + suc count * (fuel + 1)) (omega arith) in
      let fresh = generate-Fresh elapsed fuel n k n' id k' v (omega arith) e in
      let base = fresh.same_base in
      let next : elapsed (k' - 1) ≤ elapsed k' = steady_to (k' - 1) k' (omega arith) in
      let bound : elapsed (k' + count * (fuel + 1)) ≤ elapsed (k + suc count * (fuel + 1)) =
        steady_to (k' + count * (fuel + 1)) (k + suc count * (fuel + 1)) (omega arith) in
      let (ids, gives, long, rest) =
        ascends fuel count n' k' (id + 1) fresh.valid (omega arith) f (omega arith)
          (Fresh-Floor fresh) in
      (
        id ∷ ids,
        rw (e, gives) refl,
        ap suc long,
        (
          Fresh-above low v fresh l,
          Fresh-parse_node fresh,
          subst (λ (m : ℕ). AscendFrom m (id + 1) ids) fresh.same_node rest,
        ),
      )

-- Any number of calls of `Generate` in a row on a new generator returns, and the ids that it gives
-- strictly increase and all read back the generator's node, provided that the clock does not go
-- back, that it shows a new millisecond within `pace + 1` readings, that there is fuel for
-- `pace + 2` readings, and that the readings stay within 42 bits of the epoch.
pub ids_ascend :
    (pace : ℕ) (elapsed : ℕ → ℕ)
    → Ticks pace elapsed
    → (fuel count node : ℕ) (base : ℤ) (n : Uuid) → new_uuid node base ≡ some n
    → pace + 1 < fuel
    → now_ms elapsed n (count * (fuel + 1)) < epoch + 2 ^ 42
    → (ids : List ℕ) × (generate_many elapsed fuel count n 0 ≡ some ids)
      × (length ids ≡ count)
      × AscendFrom node 0 ids
ids_ascend pace elapsed t fuel count node base n e f era =
    let (starts, here) = new_uuid_state node base n e in
    let from_0 : now_ms elapsed n (0 + count * (fuel + 1)) < epoch + 2 ^ 42 =
      subst (λ i. now_ms elapsed n i < epoch + 2 ^ 42) (omega arith) era in
    subst
      (λ (m : ℕ).
        (ids : List ℕ) × (generate_many elapsed fuel count n 0 ≡ some ids)
        × (length ids ≡ count)
        × AscendFrom m 0 ids)
      here
      (ascends pace elapsed t fuel count n 0 0 (new_uuid-IsValid node base e) (omega arith) f from_0
        (inl refl))
