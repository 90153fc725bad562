-- ===== src/Watch/Loss.antt =====
-- What a node does when it can no longer follow the members, or loses its lease.
use grain.Base.{
  ℕ, zero, suc, ◌+◌, ◌≡◌, ap, ◌∙◌, Bool, true, not, ◌&&◌, List, [], ◌∷◌, ◌++◌, if◌then◌else◌, Bytes,
  Option, Bool-cases, inl, inr, arith,
}
use grain.AddrHash.{NodeState}
use grain.Routes.{Provider, get_nodes}
use grain.Watch.{
  Response, events, terminated, Effect, member_changed, force_stop, parse_events, watch_lost,
  watch_loop, watch_members, keep_alive,
}

abbrev pub changes : List Effect → ℕ
changes [] = 0
changes (member_changed seen ∷ effects) = suc (changes effects)
changes (force_stop ∷ effects) = changes effects

abbrev pub stops : List Effect → ℕ
stops [] = 0
stops (member_changed seen ∷ effects) = stops effects
stops (force_stop ∷ effects) = suc (stops effects)

-- the responses that come before the watch is lost, and whether it is
abbrev pub batches : List Response → ℕ
batches [] = 0
batches (terminated ∷ wch) = 0
batches (events kvs ∷ wch) = suc (batches wch)

abbrev pub is_lost : Bool → List Response → Bool
is_lost closed [] = closed
is_lost closed (terminated ∷ wch) = true
is_lost closed (events kvs ∷ wch) = is_lost closed wch

changes-append : (xs ys : List Effect) → changes (xs ++ ys) ≡ changes xs + changes ys
changes-append [] ys = omega arith
changes-append (member_changed seen ∷ xs) ys = omega (arith, changes-append xs ys)
changes-append (force_stop ∷ xs) ys = changes-append xs ys

stops-append : (xs ys : List Effect) → stops (xs ++ ys) ≡ stops xs + stops ys
stops-append [] ys = omega arith
stops-append (member_changed seen ∷ xs) ys = stops-append xs ys
stops-append (force_stop ∷ xs) ys = omega (arith, stops-append xs ys)

-- how often the loss of the watch stops the system
abbrev pub must_stop : (lost stopping stopping' has_system : Bool) → ℕ
must_stop lost stopping stopping' has_system =
    if lost && not stopping && not stopping' && has_system then 1 else 0

lost-counts :
    (stopping stopping' has_system : Bool)
    → (changes (watch_lost stopping stopping' has_system) ≡ 0)
      × (stops (watch_lost stopping stopping' has_system)
          ≡ must_stop true stopping stopping' has_system)
lost-counts stopping stopping' has_system = ground arith

module _ (unmarshal : Bytes → Option NodeState) (closed stopping stopping' has_system : Bool) where
  watch_loop-counts :
      (wch : List Response) (x : Provider) (effects : List Effect)
      → (let done = (watch_loop unmarshal closed stopping stopping' has_system wch x effects).1 in
          (changes done ≡ changes effects + batches wch)
          × (stops done
              ≡ stops effects + must_stop (is_lost closed wch) stopping stopping' has_system))
  unfolding watch_loop
  watch_loop-counts [] x effects =
      let (c, s) = lost-counts stopping stopping' has_system in
      elim (Bool-cases closed) [
        | inl e ↦ rw e (
          changes-append effects (watch_lost stopping stopping' has_system)
              ∙ ap (λ n. changes effects + n) c,
          stops-append effects (watch_lost stopping stopping' has_system)
              ∙ ap (λ n. stops effects + n) s,
        )
        | inr e ↦ rw e (changes-append effects [], stops-append effects [])
      ]
  watch_loop-counts (terminated ∷ wch) x effects =
      let (c, s) = lost-counts stopping stopping' has_system in
      (
        changes-append effects (watch_lost stopping stopping' has_system)
            ∙ ap (λ n. changes effects + n) c,
        stops-append effects (watch_lost stopping stopping' has_system)
            ∙ ap (λ n. stops effects + n) s,
      )
  watch_loop-counts (events kvs ∷ wch) x effects =
      let seen = member_changed (get_nodes (parse_events unmarshal kvs x)) ∷ [] in
      let (c, s) = watch_loop-counts wch (parse_events unmarshal kvs x) (effects ++ seen) in
      (omega (arith, c, changes-append effects seen), omega (arith, s, stops-append effects seen))

  keep_alive-stops :
      (answers : ℕ)
      → stops (keep_alive stopping has_system answers closed)
        ≡ must_stop closed stopping stopping has_system
  unfolding keep_alive
  keep_alive-stops zero = ground arith
  keep_alive-stops (suc answers) = keep_alive-stops answers

  -- A node that loses what it knows of the cluster stops, and only then: each batch of changes is
  -- told to the system once, and the watch stops the system once where its channel ends or fails, and
  -- so does the end of the lease's channel; neither where the node is stopping already.
  pub watch_members-ForceStop :
      (watch : ℕ → List Response) (rev : ℕ) (x : Provider) (answers : ℕ)
      → (let done = (watch_members unmarshal closed stopping stopping' has_system watch rev x).1 in
          let wch = watch (rev + 1) in
          (changes done ≡ batches wch)
          × (stops done ≡ must_stop (is_lost closed wch) stopping stopping' has_system)
          × (stops (keep_alive stopping has_system answers closed)
              ≡ must_stop closed stopping stopping has_system))
  unfolding watch_members
  watch_members-ForceStop watch rev x answers =
      let (c, s) = watch_loop-counts (watch (rev + 1)) x [] in
      (omega (arith, c), omega (arith, s), keep_alive-stops answers)
