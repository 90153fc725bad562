-- ===== src/Timer/Ticks.antt =====
-- When the timer of a repeated delivery calls, and when it no longer does.
use grain.Base.{
  ℕ, ◌+◌, ◌≤◌, Bool, true, false, List, [], ◌∷◌, ◌++◌, ◌≡◌, ◌≢◌, subst, Bool-cases, inl, inr, arith,
}
use grain.Base.Tally.{tally, tally_here, tally-append}
use grain.Timer.{
  state_done, Pc, spinning, testing, calling, running, retesting, resetting, stopping,
}
use grain.Timer.Moves.{System, Reach, Later, here, onward}
use grain.Timer.Inv.{
  Group, waiters, callers, active, stoppers, weight, Inv, Reach-Inv, Bounded, Step-Bounded,
}

-- in the callback
abbrev pub is_callback : Pc → Bool
is_callback spinning = true
is_callback testing = true
is_callback calling = true
is_callback running = true
is_callback retesting = true
is_callback resetting = true
is_callback _ = false

-- where `t` is used
abbrev pub uses_timer : Pc → Bool
uses_timer resetting = true
uses_timer stopping = true
uses_timer _ = false

callback_weight :
    (p : Pc) → is_callback p ≡ true → weight waiters p + weight callers p + weight active p ≡ 1
callback_weight p h = ground arith

two_of :
    (w : Group) (ts xs ys zs : List Pc) (p q : Pc)
    → ts ≡ xs ++ (p ∷ (ys ++ (q ∷ zs)))
    → weight w p + weight w q ≤ tally weight w ts
two_of w ts xs ys zs p q e = rw e (
    omega
      (arith, tally-append weight w xs (p ∷ (ys ++ (q ∷ zs))), tally-append weight w ys (q ∷ zs)))

-- Two calls never overlap: no two goroutines are in the callback at once, and none is while the timer
-- is armed.
pub callbacks_alone :
    {x : System} (xs ys zs : List Pc) (p q : Pc)
    → Reach x
    → x.threads ≡ xs ++ (p ∷ (ys ++ (q ∷ zs)))
    → is_callback p ≡ true
    → (is_callback q ≡ false) × (x.timer.armed ≡ false)
callbacks_alone {x} xs ys zs p q r e h =
    let v = Reach-Inv r in
    let one = callback_weight p h in
    let w = two_of waiters x.threads xs ys zs p q e in
    let c = two_of callers x.threads xs ys zs p q e in
    let a = two_of active x.threads xs ys zs p q e in
    (
      elim (Bool-cases (is_callback q)) [
        | inl t ↦ absurd (let other = callback_weight q t in omega (arith, v.alone, one, w, c, a))
        | inr f ↦ f
      ],
      ground (arith, v.alone, one, w, c, a),
    )

-- However soon the timer fires, `t` is assigned wherever it is used.
pub t_assigned :
    {x : System} (xs ys : List Pc) (p : Pc)
    → Reach x
    → x.threads ≡ xs ++ (p ∷ ys)
    → uses_timer p ≡ true
    → x.timer.assigned ≡ true
t_assigned {x} xs ys p r e h =
    let v = Reach-Inv r in
    let there : weight active p + weight stoppers p
        ≤ tally weight active x.threads + tally weight stoppers x.threads =
      rw e (omega (arith, tally_here weight active xs ys p, tally_here weight stoppers xs ys p)) in
    ground (arith, v.waits, v.starts, v.assigned_after, there, h)

-- A repeated delivery goes on until it is cancelled: with no goroutine left the timer is armed.
pub ticks_on :
    {x : System} → Reach x → x.timer.state ≢ state_done → x.threads ≡ [] → x.timer.armed ≡ true
ticks_on {x} r h e =
    let v : Inv x.timer (λ w. tally weight w []) =
      subst (λ ts. Inv x.timer (λ w. tally weight w ts)) e (Reach-Inv r) in
    ground (arith, v.ticks h)

later-Bounded :
    {x y : System} (limit : ℕ)
    → Later x y
    → Bounded x.timer (λ w. tally weight w x.threads) limit
    → Bounded y.timer (λ w. tally weight w y.threads) limit
later-Bounded limit here v = v
later-Bounded limit (onward l st) v = Step-Bounded limit st (later-Bounded limit l v)

-- Cancelling ends the calls: whatever happens after the cancel function's swap, at most one more call
-- begins, that of a callback that had made its test before; and none where there is no such callback.
pub cancel_ends :
    {x y : System}
    → Reach x
    → x.timer.state ≡ state_done
    → Later x y
    → (y.timer.runs ≤ x.timer.runs + tally weight callers x.threads)
      × (tally weight callers x.threads ≤ 1)
cancel_ends {x} {y} r h l =
    let v = Reach-Inv r in
    let limit = x.timer.runs + tally weight callers x.threads in
    let b =
      later-Bounded limit l
        (record { done = h; no_storer = ground (arith, v.starts, h); few = omega arith }) in
    (omega (arith, b.few), omega (arith, v.alone))
