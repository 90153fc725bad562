-- ===== src/Uuid/Order.antt =====
-- The ids of one generator increase, whatever the clock does; with a clock that moves on, each call
-- returns.
use Prim.Native.Nat.{bit_and}
use grain.Base.{
  ℕ, zero, suc, ◌+◌, ◌-◌, ◌%◌, ◌^◌, ◌≤◌, ◌<◌, ◌≡◌, refl, sym, subst, ◌∙◌, if◌then◌else◌, ◌⊎◌, inl,
  inr, some, Bool-cases, ltb, leb, nat_eqb, arith, true, false,
}
use grain.Base.Int.{ℤ}
use grain.Base.Bits.{bit_and-ones}
use grain.Base.Maybe.{◌>>=◌, >>=-eq-some}
use grain.Uuid.{Uuid, epoch, node_max, step_max, new_uuid, finish, now_ms, wait_next, generate}
use grain.Uuid.Layout.{compose, finish-compose}

pub record IsValid (n : Uuid) : Type 0 where
  pub node_fits : n.node ≤ node_max
  pub step_fits : n.step ≤ step_max
  pub base_after : epoch ≤ n.base_wall
  pub past : (n.timestamp ≡ 0) ⊎ (epoch ≤ n.timestamp)
  pub time_fits : n.timestamp < epoch + 2 ^ 42

pub new_uuid-IsValid : (node : ℕ) (base : ℤ) {n : Uuid} → new_uuid node base ≡ some n → IsValid n
unfolding new_uuid
new_uuid-IsValid node base e = ground arith

pub new_uuid_state :
    (node : ℕ) (base : ℤ) (n : Uuid)
    → new_uuid node base ≡ some n
    → (n.timestamp ≡ 0) × (n.node ≡ node)
unfolding new_uuid
new_uuid_state node base n e = ground arith

next_step : (s : ℕ) → bit_and (s + 1) step_max ≡ (s + 1) % 4096
next_step s = bit_and-ones 12 (s + 1)

-- What a call of `Generate` leaves, and the id that it gives.
pub record Fresh (n n' : Uuid) (id : ℕ) : Type 0 where
  pub valid : IsValid n'
  pub same_node : n'.node ≡ n.node
  pub same_base : n'.base_wall ≡ n.base_wall
  pub reads : id ≡ compose (n'.timestamp - epoch) n'.node n'.step
  pub in_time : epoch ≤ n'.timestamp
  pub later : (n.timestamp < n'.timestamp) ⊎ ((n.timestamp ≡ n'.timestamp) × (n.step < n'.step))

module _ (elapsed : ℕ → ℕ) where
  wait_next-lt :
      (fuel : ℕ) (n : Uuid) (k now later k' : ℕ)
      → wait_next elapsed fuel n k now ≡ some (later, k')
      → n.timestamp < later
  unfolding wait_next
  wait_next-lt zero n k now later k' e = cc
  wait_next-lt (suc fuel) n k now later k' e =
      ground (arith, wait_next-lt fuel n (k + 1) (now_ms elapsed n k) later k')

  finish-timestamp : (n : Uuid) (step now : ℕ) → (finish n step now).0.timestamp ≡ now
  unfolding finish
  finish-timestamp n step now = refl

  finish-Fresh :
      (n : Uuid) (step now : ℕ)
      → IsValid n
      → epoch ≤ now
      → now < epoch + 2 ^ 42
      → step ≤ step_max
      → (n.timestamp < now) ⊎ ((n.timestamp ≡ now) × (n.step < step))
      → Fresh n (finish n step now).0 (finish n step now).1
  unfolding finish
  finish-Fresh n step now v after' before' hs l = record {
    valid = record {
      node_fits = v.node_fits;
      step_fits = hs;
      base_after = v.base_after;
      past = inr after';
      time_fits = before';
    };
    same_node = refl;
    same_base = refl;
    reads = finish-compose n step now (after', omega arith) v.node_fits hs;
    in_time = after';
    later = l;
  }

  -- the reading that a call goes by
  abbrev clamped : Uuid → ℕ → ℕ
  clamped n k = if ltb (now_ms elapsed n k) n.timestamp then n.timestamp else now_ms elapsed n k

  abbrev emitted : Uuid → ℕ → ℕ → ℕ → Uuid × ℕ × ℕ
  emitted n step now k' = ((finish n step now).0, (finish n step now).1, k')

  -- the branches of `Generate`
  module _ (fuel : ℕ) (n : Uuid) (k : ℕ) where
    generate_new :
        nat_eqb n.timestamp (clamped n k) ≡ false
        → generate elapsed fuel n k ≡ some (emitted n 0 (clamped n k) (k + 1))
    unfolding generate
    generate_new h = rw h

    generate_same :
        nat_eqb n.timestamp (clamped n k) ≡ true
        → nat_eqb (bit_and (n.step + 1) step_max) 0 ≡ false
        → generate elapsed fuel n k
          ≡ some (emitted n (bit_and (n.step + 1) step_max) (clamped n k) (k + 1))
    unfolding generate
    generate_same h g = rw (h, g)

    generate_full :
        nat_eqb n.timestamp (clamped n k) ≡ true
        → nat_eqb (bit_and (n.step + 1) step_max) 0 ≡ true
        → generate elapsed fuel n k ≡ (
            wait_next elapsed fuel n (k + 1) (clamped n k) >>= λ (later, k').
            some (emitted n 0 later k'))
    unfolding generate
    generate_full h g = rw (h, g)

  -- Each id comes with a state that is later than the one before.
  pub generate-Fresh :
      (fuel : ℕ) (n : Uuid) (k : ℕ) (n' : Uuid) (id k' : ℕ)
      → IsValid n
      → n'.timestamp < epoch + 2 ^ 42
      → generate elapsed fuel n k ≡ some (n', id, k')
      → Fresh n n' id
  generate-Fresh fuel n k n' id k' v fits e =
      elim (Bool-cases (nat_eqb n.timestamp (clamped n k))) [
        | inr new ↦
            moved 0 (clamped n k) (k + 1) (sym (generate_new fuel n k new) ∙ e)
              (λ h. finish-Fresh n 0 (clamped n k) v (ground arith) h (omega arith) (ground arith))
        | inl same ↦ elim (Bool-cases (nat_eqb (bit_and (n.step + 1) step_max) 0)) [
          | inr left ↦
              moved (bit_and (n.step + 1) step_max) (clamped n k) (k + 1)
                (sym (generate_same fuel n k same left) ∙ e)
                (λ h.
                  finish-Fresh n (bit_and (n.step + 1) step_max) (clamped n k) v (ground arith) h
                    (omega (arith, next_step n.step)) (ground (arith, next_step n.step)))
          | inl full ↦
              let ((later, j), waits, gives) =
                >>=-eq-some (wait_next elapsed fuel n (k + 1) (clamped n k)) _
                  (sym (generate_full fuel n k same full) ∙ e) in
              let past = wait_next-lt fuel n (k + 1) (clamped n k) later j waits in
              moved 0 later j gives
                (λ h. finish-Fresh n 0 later v (ground arith) h (omega arith) (inl past))
        ]
      ]
    where
      moved :
          (step now j : ℕ)
          → some (emitted n step now j) ≡ some (n', id, k')
          → (now < epoch + 2 ^ 42 → Fresh n (finish n step now).0 (finish n step now).1)
          → Fresh n n' id
      moved step now j same f =
          let p : emitted n step now j ≡ (n', id, k') = cc in
          let h : (finish n step now).0.timestamp < epoch + 2 ^ 42 =
            subst (λ (r : Uuid × ℕ × ℕ). r.0.timestamp < epoch + 2 ^ 42) (sym p) fits in
          subst (λ (r : Uuid × ℕ × ℕ). Fresh n r.0 r.1) p
            (f (subst (λ t. t < epoch + 2 ^ 42) (finish-timestamp n step now) h))

  wait_next-reading :
      (fuel : ℕ) (n : Uuid) (k now later k' : ℕ)
      → now ≡ now_ms elapsed n (k - 1)
      → 0 < k
      → wait_next elapsed fuel n k now ≡ some (later, k')
      → (later ≡ now_ms elapsed n (k' - 1)) × (k ≤ k') × (k' ≤ k + fuel)
  unfolding wait_next
  wait_next-reading zero n k now later k' h p e = cc
  wait_next-reading (suc fuel) n k now later k' h p e =
      let back : k + 1 - 1 ≡ k = omega arith in
      let again =
        wait_next-reading fuel n (k + 1) (now_ms elapsed n k) later k' (rw back refl)
          (omega arith) in
      ground (arith, again)

  wait_next_stops :
      (fuel : ℕ) (n : Uuid) (k now : ℕ)
      → n.timestamp < now
      → 0 < fuel
      → wait_next elapsed fuel n k now ≡ some (now, k)
  unfolding wait_next
  wait_next_stops zero n k now h f = absurd (omega arith)
  wait_next_stops (suc fuel) n k now h f = ground arith

  wait_next_goes :
      (fuel : ℕ) (n : Uuid) (k now : ℕ)
      → leb now n.timestamp ≡ true
      → wait_next elapsed (suc fuel) n k now ≡ wait_next elapsed fuel n (k + 1) (now_ms elapsed n k)
  unfolding wait_next
  wait_next_goes fuel n k now h = rw h

  -- The wait for the next millisecond ends once a reading is past the timestamp.
  wait_next_total :
      (j fuel : ℕ) (n : Uuid) (k now : ℕ)
      → n.timestamp < now_ms elapsed n (k + j)
      → j + 1 < fuel
      → (r : ℕ × ℕ) × (wait_next elapsed fuel n k now ≡ some r)
  wait_next_total j zero n k now h f = absurd (omega arith)
  wait_next_total zero (suc fuel) n k now h f = elim (Bool-cases (leb now n.timestamp)) [
    | inr past ↦ ((now, k), wait_next_stops (suc fuel) n k now (ground arith) (omega arith))
    | inl behind ↦
        let same : k + 0 ≡ k = omega arith in
        let ahead = subst (λ i. n.timestamp < now_ms elapsed n i) same h in
        (
          (now_ms elapsed n k, k + 1),
          wait_next_goes fuel n k now behind
              ∙ wait_next_stops fuel n (k + 1) (now_ms elapsed n k) ahead (omega arith),
        )
  ]
  wait_next_total (suc j) (suc fuel) n k now h f = elim (Bool-cases (leb now n.timestamp)) [
    | inr past ↦ ((now, k), wait_next_stops (suc fuel) n k now (ground arith) (omega arith))
    | inl behind ↦
        let same : k + suc j ≡ k + 1 + j = omega arith in
        let ahead = subst (λ i. n.timestamp < now_ms elapsed n i) same h in
        let (r, e) = wait_next_total j fuel n (k + 1) (now_ms elapsed n k) ahead (omega arith) in
        (r, wait_next_goes fuel n k now behind ∙ e)
  ]

  -- `Generate` returns when one of the next `j + 1` readings after its first is past the timestamp,
  -- with fuel for `j + 2` of them.
  pub generate_total :
      (j fuel : ℕ) (n : Uuid) (k : ℕ)
      → n.timestamp < now_ms elapsed n (k + 1 + j)
      → j + 1 < fuel
      → (r : Uuid × ℕ × ℕ) × (generate elapsed fuel n k ≡ some r)
  generate_total j fuel n k h f = elim (Bool-cases (nat_eqb n.timestamp (clamped n k))) [
    | inr new ↦ (emitted n 0 (clamped n k) (k + 1), generate_new fuel n k new)
    | inl same ↦ elim (Bool-cases (nat_eqb (bit_and (n.step + 1) step_max) 0)) [
      | inr left ↦ (
        emitted n (bit_and (n.step + 1) step_max) (clamped n k) (k + 1),
        generate_same fuel n k same left,
      )
      | inl full ↦
          let ((later, k'), e) = wait_next_total j fuel n (k + 1) (clamped n k) h f in
          (emitted n 0 later k', generate_full fuel n k same full ∙ rw e refl)
    ]
  ]

  -- A timestamp that is not ahead of the clock stays so: it is the last reading of the call.
  pub generate-reading :
      (fuel : ℕ) (n : Uuid) (k : ℕ) (n' : Uuid) (id k' : ℕ)
      → n.timestamp ≤ now_ms elapsed n k
      → generate elapsed fuel n k ≡ some (n', id, k')
      → (n'.timestamp ≡ now_ms elapsed n (k' - 1)) × (k < k') × (k' ≤ k + 1 + fuel)
  generate-reading fuel n k n' id k' h e = elim (Bool-cases (nat_eqb n.timestamp (clamped n k))) [
    | inr new ↦
        moved 0 (clamped n k) (k + 1) (sym (generate_new fuel n k new) ∙ e)
          (at_k, omega arith, omega arith)
    | inl same ↦ elim (Bool-cases (nat_eqb (bit_and (n.step + 1) step_max) 0)) [
      | inr left ↦
          moved (bit_and (n.step + 1) step_max) (clamped n k) (k + 1)
            (sym (generate_same fuel n k same left) ∙ e) (at_k, omega arith, omega arith)
      | inl full ↦
          let ((later, j), waits, gives) =
            >>=-eq-some (wait_next elapsed fuel n (k + 1) (clamped n k)) _
              (sym (generate_full fuel n k same full) ∙ e) in
          let (at, low, high) =
            wait_next-reading fuel n (k + 1) (clamped n k) later j at_k (omega arith) waits in
          moved 0 later j gives (at, omega arith, high)
    ]
  ]
    where
      at_k : clamped n k ≡ now_ms elapsed n (k + 1 - 1)
      at_k = let back : k + 1 - 1 ≡ k = omega arith in rw back (ground arith)

      moved :
          (step now j : ℕ)
          → some (emitted n step now j) ≡ some (n', id, k')
          → (now ≡ now_ms elapsed n (j - 1)) × (k < j) × (j ≤ k + 1 + fuel)
          → (n'.timestamp ≡ now_ms elapsed n (k' - 1)) × (k < k') × (k' ≤ k + 1 + fuel)
      moved step now j same h =
          let p : emitted n step now j ≡ (n', id, k') = cc in
          subst
            (λ (r : Uuid × ℕ × ℕ).
              (r.0.timestamp ≡ now_ms elapsed n (r.2 - 1)) × (k < r.2) × (r.2 ≤ k + 1 + fuel))
            p (finish-timestamp n step now ∙ h.0, h.1, h.2)
