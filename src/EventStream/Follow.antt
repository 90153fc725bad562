-- ===== src/EventStream/Follow.antt =====
-- An event stream that starts, and what it sends then.
use grain.Base.{
  ℕ, ◌+◌, ◌^◌, ◌<◌, ◌≡◌, ◌≢◌, refl, sym, ap, ◌∙◌, subst, inl, inr, Bool, true, false, Option, none,
  some, List, [], ◌∷◌, ◌++◌, All, take, drop, append_assoc, Bytes, ◌==◌, Bool-cases, Option-cases,
  bytes_comparable, nat_comparable, arith,
}
use grain.Base.Decimal.{format_uint}
use grain.Base.Maybe.{maybe}
use grain.ActorId.{slash, index_byte, ActorId, new_actor_ref_from_aid}
use grain.SafeMap.{Items, items_get}
use grain.SafeMap.Iter.Kept.{to_list}
use grain.Watch.{Event, Response, Got, as_puts, call_responses, watch_event_stream}
use grain.Watch.History.{
  last_write, state_of, concat, has_prefix, GotAll, Watched, last_write-append, last_write-values,
  concat-split, came_later, has_prefix-append,
}
use grain.EventStream.{
  EventStream, Effect, tell, tell_all, new_event_stream, get_event_stream_watch_path,
  event_stream_watch_name, broadcast_publish,
}
use grain.EventStream.Key.{get_event_name_path-plain}
use grain.EventStream.Listed.{listed, watch_callbacks, ref_of}
use grain.EventStream.Listed.Calls.{entry_path, IsEntry, watch_callbacks-listed}

-- `Started`, once the provider has called back for all that etcd gave, and whether it poisons itself
unfoldable pub started : EventStream → Option Got → (watch : ℕ → List Response) → EventStream × Bool
started x rsp watch =
    maybe (x, true) (λ es. (watch_callbacks es x, false)) (watch_event_stream rsp watch)

under_prefix :
    (cluster_name e : Bytes) (n : ℕ)
    → cluster_name ≢ []
    → index_byte cluster_name slash ≡ none
    → index_byte e slash ≡ none
    → has_prefix (get_event_stream_watch_path cluster_name) (entry_path cluster_name e n) ≡ true
unfolding new_event_stream
under_prefix cluster_name e n named ck ek =
    let tail : Bytes = slash ∷ (event_stream_watch_name ++ (slash ∷ [])) in
    let rest : Bytes = e ++ (slash ∷ format_uint n) in
    let x =
      new_event_stream (new_actor_ref_from_aid []) n (get_event_stream_watch_path cluster_name) in
    ap (has_prefix (get_event_stream_watch_path cluster_name))
      (get_event_name_path-plain x cluster_name e refl named ck ek)
    ∙ subst (λ key. has_prefix (slash ∷ (cluster_name ++ tail)) key ≡ true)
        (ap (λ s. slash ∷ s) (append_assoc cluster_name tail rest))
        (has_prefix-append (slash ∷ (cluster_name ++ tail)) rest)

-- the event is told to the actor
abbrev pub Tells : ActorId → Bytes → List Effect → Type 0
Tells ref e effects = (xs : List Effect) × (ys : List Effect) × (effects ≡ xs ++ (tell ref e ∷ ys))

tell_all-Tells :
    (actors : Items ℕ ActorId) (e : Bytes) (n : ℕ) (ref : ActorId)
    → items_get actors n ≡ some ref
    → Tells ref e (tell_all e actors)
tell_all-Tells [] e n ref h = absurd (cc h)
tell_all-Tells ((k, r) ∷ actors) e n ref h = elim (Bool-cases (k == n)) [
  | inl t ↦
      let same : r ≡ ref = ground (arith, h, t) in
      ([], tell_all e actors, ap (λ r. tell r e ∷ tell_all e actors) same)
  | inr f ↦
      let (xs, ys, at) = tell_all-Tells actors e n ref (ground (arith, h, f)) in
      (tell r e ∷ xs, ys, ap (λ l. tell r e ∷ l) at)
]

broadcast-Tells :
    (x : EventStream) (e : Bytes) (n : ℕ) (ref : ActorId)
    → listed x e n ≡ some ref
    → Tells ref e (broadcast_publish x e)
unfolding broadcast_publish
broadcast-Tells x e n ref h = elim (Option-cases (items_get x.event_stream_maps e)) [
  | inl g ↦
      absurd (cc (h, ap (λ (o : Option (Items ℕ ActorId)). items_get (maybe [] (λ a. a) o) n) g))
  | inr (actors, g) ↦
      let found : items_get actors n ≡ some ref =
        sym (ap (λ (o : Option (Items ℕ ActorId)). items_get (maybe [] (λ a. a) o) n) g) ∙ h in
      rw g (tell_all-Tells actors e n ref found)
]

-- What is put for a load and what comes after it say together what the whole history says.
whole_history :
    (puts calls earlier later : List Event) (path : Bytes)
    → last_write puts path ≡ maybe none (λ v. some (some v)) (state_of earlier path)
    → last_write calls path ≡ last_write later path
    → maybe none ref_of (last_write (puts ++ calls) path)
      ≡ ref_of (state_of (earlier ++ later) path)
whole_history puts calls earlier later path loaded came =
    rw (last_write-append puts calls path, last_write-append earlier later path, came, loaded)
      (elim (Option-cases (last_write later path)) [
        | inr (w, h) ↦ rw h refl
        | inl h ↦ elim (Option-cases (last_write earlier path)) [
          | inl g ↦ rw (h, g) refl
          | inr (some v, g) ↦ rw (h, g) refl
          | inr (none, g) ↦ rw (h, g) refl
        ]
      ])

-- Every node that etcd lists for an event gets what is published to all, and no node is listed that
-- etcd does not list: once the watch has delivered etcd's history so far, an event stream that started
-- with nothing holds, for each event and node, the actor whose id etcd holds under the node's key, and
-- tells it a published event; where etcd's answers are those of one history, and the keys of the event
-- stream are what nodes register.
pub started-follow :
    (self : ActorId) (node_id : ℕ) (cluster_name : Bytes) (got : Got) (watch : ℕ → List Response)
    (history : List (List Event)) (e : Bytes) (n : ℕ)
    → cluster_name ≢ []
    → index_byte cluster_name slash ≡ none
    → index_byte e slash ≡ none
    → n < 2 ^ 63
    → GotAll (get_event_stream_watch_path cluster_name) (concat (take got.revision history)) got.kvs
    → Watched (get_event_stream_watch_path cluster_name) history watch
    → All (IsEntry cluster_name) (as_puts got.kvs ++ call_responses (watch (got.revision + 1)))
    → let (x, poisons) =
        started
          (new_event_stream self node_id (get_event_stream_watch_path cluster_name))
          (some got)
          watch in
      let held = state_of (concat history) (entry_path cluster_name e n) in
      (poisons ≡ false)
      × (listed x e n ≡ ref_of held)
      × All (λ aid. Tells (new_actor_ref_from_aid aid) e (broadcast_publish x e)) (to_list held)
unfolding started watch_event_stream new_event_stream
started-follow self node_id cluster_name got watch history e n named ck ek sn snapshot watched
      entries =
    let prefix = get_event_stream_watch_path cluster_name in
    let path = entry_path cluster_name e n in
    let earlier = concat (take got.revision history) in
    let later = concat (drop got.revision history) in
    let puts = as_puts got.kvs in
    let calls = call_responses (watch (got.revision + 1)) in
    let inside = under_prefix cluster_name e n named ck ek in
    let loaded : last_write puts path ≡ maybe none (λ v. some (some v)) (state_of earlier path) =
      last_write-values path got.kvs (state_of earlier path) (snapshot path ∙ rw inside refl) in
    let came = came_later prefix history watch got.revision path watched inside in
    let seen : maybe none ref_of (last_write (puts ++ calls) path)
        ≡ ref_of (state_of (concat history) path) =
      whole_history puts calls earlier later path loaded came
      ∙ ap (λ es. ref_of (state_of es path)) (concat-split got.revision history) in
    let x = watch_callbacks (puts ++ calls) (new_event_stream self node_id prefix) in
    let lists : listed x e n ≡ ref_of (state_of (concat history) path) =
      watch_callbacks-listed cluster_name (puts ++ calls) (new_event_stream self node_id prefix) e n
        named ck ek sn entries
      ∙ seen in
    (refl, lists, tells x (state_of (concat history) path) lists)
  where
    tells :
        (x : EventStream) (held : Option Bytes)
        → listed x e n ≡ ref_of held
        → All (λ aid. Tells (new_actor_ref_from_aid aid) e (broadcast_publish x e)) (to_list held)
    tells x none h = tt
    tells x (some aid) h = (broadcast-Tells x e n (new_actor_ref_from_aid aid) h, tt)
