-- ===== src/Stop/Lease.antt =====
-- A stop ends, and gives up the node's lease only when nothing runs.
use grain.Base.{
  ℕ, zero, suc, ◌+◌, ◌≤◌, ◌<◌, ◌≡◌, refl, subst, ◌⊎◌, inl, inr, Bool, true, false, not, ◌&&◌,
  Option, none, some, List, [], ◌∷◌, ◌++◌, All, nat_eqb, leb, if◌then◌else◌, Bool-cases,
  Option-cases, arith,
}
use grain.Stop.{
  Resources, Effect, before_quit, after_quit, cancel_keep_alive, revoke, close_client, stop_rpc,
  release_etcd, Calls, start, Process, left_of, poison_all, no_one, Drain, stop_actors_impl,
  stop_actors, wait_stop_signal,
}

abbrev pub keeps_lease : Effect → Bool
keeps_lease (revoke lease) = false
keeps_lease _ = true

abbrev pub AllKeep : List Effect → Type 0
AllKeep effects = All (λ e. keeps_lease e ≡ true) effects

AllKeep-append : (xs ys : List Effect) → AllKeep xs → AllKeep ys → AllKeep (xs ++ ys)
AllKeep-append [] ys h g = g
AllKeep-append (e ∷ xs) ys (k, h) g = (k, AllKeep-append xs ys h g)

AllKeep-poison_all : (ps : List ℕ) → AllKeep (poison_all ps)
AllKeep-poison_all [] = tt
AllKeep-poison_all (p ∷ ps) = (refl, AllKeep-poison_all ps)

all_claimed : (vs : List Process) → no_one (left_of false vs) ≡ true → vs ≡ []
all_claimed [] h = refl
all_claimed (v ∷ vs) h = cc

-- What one phase of the drain ends with: nothing that gives up the lease, and where it drained,
-- nobody that it claims is left at its last look.
abbrev Drained : (ℕ → List Process) → Bool → Drain → Type 0
Drained look first d =
    AllKeep d.effects
    × ((if d.drained then no_one (left_of first (look d.last_look)) else true) ≡ true)

abbrev OnSome : {A : Type 0} → (A → Type 0) → Option A → Type 0
OnSome P none = Unit
OnSome P (some a) = P a

module _ (look : ℕ → List Process) (time : ℕ → ℕ) (wait : ℕ) where
  impl-Drained :
      (fuel : ℕ) (first : Bool) (deadline k : ℕ) (effects : List Effect)
      → AllKeep effects
      → OnSome (Drained look first) (stop_actors_impl look time wait fuel first deadline k effects)
  unfolding stop_actors_impl
  impl-Drained zero first deadline k effects keep = tt
  impl-Drained (suc fuel) first deadline k effects keep =
      let left = left_of first (look k) in
      let keep' = AllKeep-append effects (poison_all left) keep (AllKeep-poison_all left) in
      elim (Bool-cases (no_one left)) [
        | inl done ↦ rw done (keep', done)
        | inr more ↦ elim (Bool-cases (leb deadline (time k))) [
          | inl late ↦ rw (more, late) (keep', refl)
          | inr early ↦
              rw (more, early)
                (impl-Drained fuel first deadline (k + 1) (effects ++ poison_all left) keep')
        ]
      ]

  -- With the deadline passed `n` looks on, a phase ends on fuel for more looks than that.
  impl-ends :
      (fuel n : ℕ) (first : Bool) (deadline k : ℕ) (effects : List Effect)
      → n < fuel
      → deadline ≤ time (k + n)
      → (d : Drain) × (stop_actors_impl look time wait fuel first deadline k effects ≡ some d)
  unfolding stop_actors_impl
  impl-ends zero n first deadline k effects f h = absurd (omega arith)
  impl-ends (suc fuel) zero first deadline k effects f h =
      let at_k : deadline ≤ time k = subst (λ i. deadline ≤ time i) (omega arith) h in
      elim (Bool-cases (no_one (left_of first (look k)))) [
        | inl done ↦ rw done (_, refl)
        | inr more ↦ elim (Bool-cases (leb deadline (time k))) [
          | inl late ↦ rw (more, late) (_, refl)
          | inr early ↦ absurd (ground (arith, at_k, early))
        ]
      ]
  impl-ends (suc fuel) (suc n) first deadline k effects f h =
      elim (Bool-cases (no_one (left_of first (look k)))) [
        | inl done ↦ rw done (_, refl)
        | inr more ↦ elim (Bool-cases (leb deadline (time k))) [
          | inl late ↦ rw (more, late) (_, refl)
          | inr early ↦
              rw (more, early)
                (impl-ends fuel n first deadline (k + 1)
                  (effects ++ poison_all (left_of first (look k))) (omega (arith, f))
                  (subst (λ i. deadline ≤ time i) (omega arith) h))
        ]
      ]

  -- A stop ends: where the clock of each phase reaches its deadline within `n` looks, fuel for `n + 1`
  -- looks a phase is enough, however many actors never stop.
  pub wait_stop_signal-ends :
      (n : ℕ) (signal : Bool) (x : Resources)
      → ((k : ℕ) → time k + wait ≤ time (k + n))
      → (d : Drain) × (wait_stop_signal look time wait (suc n) signal x ≡ some d)
  unfolding wait_stop_signal stop_actors
  wait_stop_signal-ends n signal x passes =
      let effects : List Effect = if signal then before_quit ∷ [] else [] in
      let (d, e) =
        impl-ends (suc n) n true (time 0 + wait) 0 effects (omega arith)
          (subst (λ i. time 0 + wait ≤ time i) (omega arith) (passes 0)) in
      let k = d.last_look + 1 in
      let (d', e') =
        impl-ends (suc n) n false (time k + wait) k d.effects (omega arith) (passes k) in
      rw (e, e') (_, refl)

  release-AllKeep : (x : Resources) → AllKeep (release_etcd false x).1
  unfolding release_etcd
  release-AllKeep x = elim (Bool-cases (x.client && not (nat_eqb x.lease_id 0))) [
    | inl e ↦ ground arith
    | inr e ↦ ground arith
  ]

  begins : (signal : Bool) → AllKeep (if signal then before_quit ∷ [] else [])
  begins true = (refl, tt)
  begins false = tt

  abbrev Kept : Drain → Type 0
  Kept d = (look d.last_look ≡ []) ⊎ AllKeep d.effects

  -- the two phases together, and what follows them
  Kept-at_end :
      (x : Resources) (first last : Drain)
      → Drained look true first
      → Drained look false last
      → Kept (record last {
        drained = first.drained && last.drained;
        effects =
            last.effects
            ++ ((release_etcd (first.drained && last.drained) x).1 ++ (stop_rpc ∷ after_quit ∷ []));
      })
  Kept-at_end x first last (keep, _) (keep', done) =
      elim (Bool-cases (first.drained && last.drained)) [
        | inl all ↦ inl (all_claimed (look last.last_look) (ground (arith, all, done)))
        | inr some_left ↦ rw some_left (
            inr (
              AllKeep-append last.effects ((release_etcd false x).1 ++ (stop_rpc ∷ after_quit ∷ []))
                keep'
                (AllKeep-append (release_etcd false x).1 (stop_rpc ∷ after_quit ∷ [])
                  (release-AllKeep x) (refl, (refl, tt)))))
      ]

  stop-Kept :
      (fuel : ℕ) (signal : Bool) (x : Resources)
      → OnSome Kept (wait_stop_signal look time wait fuel signal x)
  unfolding wait_stop_signal stop_actors
  stop-Kept fuel signal x =
      let effects : List Effect = if signal then before_quit ∷ [] else [] in
      elim (Option-cases (stop_actors_impl look time wait fuel true (time 0 + wait) 0 effects)) [
        | inl e ↦ rw e tt
        | inr (first, e) ↦
            let one =
              subst (OnSome (Drained look true)) e
                (impl-Drained fuel true (time 0 + wait) 0 effects (begins signal)) in
            let k = first.last_look + 1 in
            elim (Option-cases
              (stop_actors_impl look time wait fuel false (time k + wait) k first.effects)) [
                | inl g ↦ rw (e, g) tt
                | inr (last, g) ↦
                    rw (e, g)
                      (Kept-at_end x first last one (
                        subst (OnSome (Drained look false)) g
                          (impl-Drained fuel false (time k + wait) k first.effects one.0)))
              ]
      ]

  -- The node's lease, and with it the locks of its grains, is given up only when nothing runs: where a
  -- stop ends, the registry was empty at the last look, or nothing the stop did revoked a lease.
  pub lease_kept :
      (fuel : ℕ) (signal : Bool) (x : Resources) (d : Drain)
      → wait_stop_signal look time wait fuel signal x ≡ some d
      → (look d.last_look ≡ []) ⊎ All (λ e. keeps_lease e ≡ true) d.effects
  lease_kept fuel signal x d h = subst (OnSome Kept) h (stop-Kept fuel signal x)

-- A start that fails after its lease was granted leaves nothing behind: it cancels the keepalive,
-- revokes the lease and closes the client, in this order.
pub start-gives_up :
    (calls : Calls) (lease : ℕ)
    → calls.new_client ≡ true
    → calls.grant ≡ some lease
    → 0 < lease
    → (start calls).2 ≡ false
    → start calls ≡ (
      record { cancel_func = false; client = false; lease_id = 0 },
      cancel_keep_alive ∷ revoke lease ∷ close_client ∷ [],
      false,
    )
unfolding start release_etcd
start-gives_up calls lease client granted positive failed = ground (arith, client, granted, failed)
