-- ===== src/Watch/Members.antt =====
-- A node's start, its registration and its watch of the members: what the table ends with.
use grain.Base.{
  ℕ, ◌+◌, ◌≡◌, refl, ◌∙◌, inl, inr, Bool, Option, some, List, [], ◌∷◌, ◌++◌, All, take, drop, Bytes,
  Option-cases,
}
use grain.Base.Maybe.{maybe, ◌>>=◌}
use grain.AddrHash.{NodeState}
use grain.Routes.{Provider, publish_nodes_locked, apply_members}
use grain.Routes.Fresh.{Published}
use grain.Node.{get_member_path}
use grain.Watch.{
  Event, Response, events, terminated, Got, Effect, get_member_prefix, start_table, load_members,
  parse_events, watch_loop, watch_members, call_responses,
}
use grain.Watch.History.{
  last_write, state_of, concat, Watched, last_write-append, came_later, history_splits,
}
use grain.Watch.Table.{reading, IsMember, decoded, parse_events-reading}
use grain.Watch.Follow.{
  Act, act_all, MembersAt, Fits, Settled, loaded-reading, under_prefix, publish-Published,
  act_all-Settled, act_all-Published, parse_events-Published,
}

All-split : (P : Event → Type 0) (xs ys : List Event) → All P (xs ++ ys) → All P xs × All P ys
All-split P [] ys h = (tt, h)
All-split P (x ∷ xs) ys (p, h) = let (q, r) = All-split P xs ys h in ((p, q), r)

module _ (cluster_name : Bytes) (unmarshal : Bytes → Option NodeState)
    (closed stopping stopping' has_system : Bool) where
  watch_loop-reading :
      (wch : List Response) (x : Provider) (effects : List Effect) (id : ℕ)
      → All (λ (e : Event). IsMember cluster_name e.key) (call_responses wch)
      → reading (watch_loop unmarshal closed stopping stopping' has_system wch x effects).0 id
        ≡ maybe
            (reading x id)
            (decoded cluster_name unmarshal)
            (last_write (call_responses wch) (get_member_path cluster_name id))
  unfolding watch_loop
  watch_loop-reading [] x effects id m = refl
  watch_loop-reading (terminated ∷ wch) x effects id m = refl
  watch_loop-reading (events kvs ∷ wch) x effects id m =
      let path = get_member_path cluster_name id in
      let (m', ms) = All-split (λ e. IsMember cluster_name e.key) kvs (call_responses wch) m in
      let first = parse_events-reading cluster_name unmarshal kvs x id m' in
      let rest = watch_loop-reading wch (parse_events unmarshal kvs x) _ id ms in
      let whole = last_write-append kvs (call_responses wch) path in
      elim (Option-cases (last_write (call_responses wch) path)) [
        | inl h ↦ rest ∙ rw (h, whole, h) first
        | inr (w, h) ↦ rest ∙ rw (h, whole, h) refl
      ]

  watch_loop-Published :
      (wch : List Response) (x : Provider) (effects : List Effect)
      → Published x
      → Published (watch_loop unmarshal closed stopping stopping' has_system wch x effects).0
  unfolding watch_loop
  watch_loop-Published [] x effects p = p
  watch_loop-Published (terminated ∷ wch) x effects p = p
  watch_loop-Published (events kvs ∷ wch) x effects p =
      watch_loop-Published wch (parse_events unmarshal kvs x) _
        (parse_events-Published cluster_name unmarshal kvs x p)

  -- `start` of the provider, with what `register` does to the table between the load and the watch
  unfoldable pub start_members :
      Option Got → List Act → (ℕ → List Response) → Provider → Option (Provider × List Effect)
  start_members rsp acts watch x =
      load_members unmarshal rsp (start_table x) >>= (λ (loaded : Provider × ℕ). some (
        watch_members unmarshal closed stopping stopping' has_system watch loaded.1
          (act_all cluster_name unmarshal acts loaded.0)))

  -- No change of the members is missed, and none is undone: once the watch has delivered etcd's
  -- history so far, the table of a node that started has for each id what etcd holds under its key,
  -- and this is what routing gets; whatever table it had before, however often `register` loaded the
  -- members again and claimed an id, where etcd's answers are those of one history.
  pub start_members-follow :
      (got : Got) (acts : List Act) (watch : ℕ → List Response) (x : Provider)
      (history : List (List Event)) (id : ℕ)
      → MembersAt cluster_name (concat (take got.revision history)) got.kvs
      → All
          (Fits cluster_name
            (concat (take got.revision history))
            (concat (drop got.revision history)))
          acts
      → Watched (get_member_prefix cluster_name) history watch
      → All (λ (e : Event). IsMember cluster_name e.key) (call_responses (watch (got.revision + 1)))
      → (out : Provider × List Effect) × (start_members (some got) acts watch x ≡ some out)
        × (reading out.0 id
            ≡ (state_of (concat history) (get_member_path cluster_name id) >>= unmarshal))
        × Published out.0
  unfolding start_members load_members watch_members start_table
  start_members-follow got acts watch x history id at fits watched m =
      let path = get_member_path cluster_name id in
      let earlier = concat (take got.revision history) in
      let later = concat (drop got.revision history) in
      let x0 = publish_nodes_locked (apply_members unmarshal got.kvs (start_table x)) in
      let x1 = act_all cluster_name unmarshal acts x0 in
      let none_yet : Settled cluster_name unmarshal earlier later x0 id = inr (
        loaded-reading cluster_name unmarshal earlier got.kvs (start_table x) id at
        ∙ elim (Option-cases (state_of earlier path)) [
          | inl h ↦ rw h refl
          | inr (v, h) ↦ rw h refl
        ]) in
      let settled = act_all-Settled cluster_name unmarshal earlier later acts x0 id fits none_yet in
      let came =
        came_later (get_member_prefix cluster_name) history watch got.revision path watched
          (under_prefix cluster_name id) in
      let whole = history_splits history got.revision path in
      (
        _,
        refl,
        watch_loop-reading (watch (got.revision + 1)) x1 [] id m
            ∙ elim (Option-cases (last_write later path)) [
              | inr (w, h) ↦ rw (came, h, whole, h) refl
              | inl h ↦ elim settled [
                | inl (w, h') ↦ absurd (cc (h, h'))
                | inr s ↦ rw (came, h, whole, h) s
              ]
            ],
        watch_loop-Published (watch (got.revision + 1)) x1 [] (
            act_all-Published cluster_name unmarshal acts x0
              (publish-Published (apply_members unmarshal got.kvs (start_table x)))),
      )
