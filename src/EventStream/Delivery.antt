-- ===== src/EventStream/Delivery.antt =====
-- Whom an event reaches on a node: the actors whose last request was to subscribe.
use grain.Base.{
  ℕ, ◌≡◌, refl, ap, ◌∙◌, subst, Bool, true, false, ◌&&◌, List, [], ◌∷◌, if◌then◌else◌, Bytes, ◌==◌,
  ==→eq, bytes_comparable, Bool-cases, Option-cases, inl, inr,
}
use grain.Base.Maybe.{maybe}
use grain.ActorId.{ActorId, new_actor_ref_from_aid}
use grain.SafeMap.{Items, items_get, items_set, items_delete}
use grain.SafeMap.Assoc.{get-set, get-delete}
use grain.EventStream.Entries.{
  told, Keyed, AllKeyed, All-delete, All-items_get, entries, entries-absent, entries-delete,
  told-tell_all, entries-set,
}
use grain.EventStream.{
  EventStream, register_event_stream, unregister_event_stream, subscribe, remove_subscriber,
  unsubscribe, on_publish, Request, subscribe_to, unsubscribe_from, publish_global, publish_local,
  receive,
}

-- what the last request about an event and an actor asked for, `was` where there is none
abbrev pub wanted : (e a : Bytes) → ℕ → List (Request × Bool) → ℕ
wanted e a was [] = was
wanted e a was ((subscribe_to f b, ok) ∷ rs) = wanted e a (if f == e && b == a then 1 else was) rs
wanted e a was ((unsubscribe_from f b, ok) ∷ rs) =
    wanted e a (if f == e && b == a then 0 else was) rs
wanted e a was ((r, ok) ∷ rs) = wanted e a was rs

-- The requests come one after the other, each with how the provider's calls go for it.
unfoldable pub run : EventStream → List (Request × Bool) → EventStream
run x [] = x
run x ((r, ok) ∷ rs) = run (receive ok x r).0 rs

-- how often a publication of `e` reaches `a`
abbrev reach : Items Bytes (Items Bytes ActorId) → (e a : Bytes) → ℕ
reach sub e a = maybe 0 (λ actors. entries actors a) (items_get sub e)

reach-set :
    (sub : Items Bytes (Items Bytes ActorId)) (f e a : Bytes) (actors : Items Bytes ActorId)
    → reach (items_set sub f actors) e a ≡ (if f == e then entries actors a else reach sub e a)
reach-set sub f e a actors =
    rw (get-set sub f actors e)
      (elim (Bool-cases (f == e)) [ inl h ↦ rw h refl | inr h ↦ rw h refl ])

reach-delete :
    (sub : Items Bytes (Items Bytes ActorId)) (f e a : Bytes)
    → reach (items_delete sub f) e a ≡ (if f == e then 0 else reach sub e a)
reach-delete sub f e a =
    rw (get-delete sub f e) (elim (Bool-cases (f == e)) [ inl h ↦ rw h refl | inr h ↦ rw h refl ])

told-on_publish :
    (x : EventStream) (e a : Bytes) → AllKeyed x.sub → told a (on_publish x e) ≡ reach x.sub e a
unfolding on_publish
told-on_publish x e a h = elim (Option-cases (items_get x.sub e)) [
  | inl g ↦ rw g refl
  | inr (actors, g) ↦ rw g (told-tell_all actors e a (All-items_get Keyed x.sub e h g))
]

register-sub :
    (ok : Bool) (x : EventStream) (f : Bytes) → (register_event_stream ok x f).0.sub ≡ x.sub
unfolding register_event_stream
register-sub true x f = refl
register-sub false x f = refl

unregister-sub :
    (ok : Bool) (x : EventStream) (f : Bytes) → (unregister_event_stream ok x f).0.sub ≡ x.sub
unfolding unregister_event_stream
unregister-sub false x f = refl
unregister-sub true x f = elim (Option-cases (items_get x.event_stream_maps f)) [
  | inl e ↦ rw e refl
  | inr (actors, e) ↦ rw e refl
]

-- What a request does to the subscribers: `after` is the table it leaves.
record Serves (before after : Items Bytes (Items Bytes ActorId)) (f b : Bytes) (n : ℕ)
    : Type 0 where
  keyed : AllKeyed after
  counts : (e a : Bytes) → reach after e a ≡ (if f == e && b == a then n else reach before e a)

added-Serves :
    (sub : Items Bytes (Items Bytes ActorId)) (f b : Bytes) (actors : Items Bytes ActorId)
    → AllKeyed sub
    → Keyed actors
    → ((a : Bytes) → reach sub f a ≡ entries actors a)
    → Serves sub (items_set sub f (items_set actors b (new_actor_ref_from_aid b))) f b 1
unfolding new_actor_ref_from_aid
added-Serves sub f b actors h k same = record {
  keyed = (
    (refl, All-delete (λ kv. kv.1.full_path ≡ kv.0) actors b k),
    All-delete (λ kv. Keyed kv.1) sub f h,
  );
  counts = λ e a.
      let now = reach-set sub f e a (items_set actors b (new_actor_ref_from_aid b)) in
      let one = entries-set actors b a (new_actor_ref_from_aid b) in
      elim (Bool-cases (f == e)) [
        | inl g ↦
            let was : reach sub e a ≡ entries actors a =
              subst (λ i. reach sub i a ≡ entries actors a) (==→eq f e g) (same a) in
            now ∙ rw (g, was) one
        | inr g ↦ now ∙ rw g refl
      ];
}

-- the table after the last entry or one of several entries of an event is gone
removed-Serves :
    (ok : Bool) (x : EventStream) (f b : Bytes) (actors left : Items Bytes ActorId)
    → AllKeyed x.sub
    → Keyed left
    → ((a : Bytes) → reach x.sub f a ≡ entries actors a)
    → ((a : Bytes) → entries left a ≡ (if b == a then 0 else entries actors a))
    → Serves x.sub (remove_subscriber ok x f left).0.sub f b 0
removed-Serves ok x f b actors [] h k same gone =
    rw (unregister-sub ok (record x { sub = items_delete x.sub f }) f) (record {
      keyed = All-delete (λ kv. Keyed kv.1) x.sub f h;
      counts = λ e a.
          let now = reach-delete x.sub f e a in
          elim (Bool-cases (f == e)) [
            | inl g ↦
                let was : reach x.sub e a ≡ entries actors a =
                  subst (λ i. reach x.sub i a ≡ entries actors a) (==→eq f e g) (same a) in
                now ∙ rw (g, was) (gone a)
            | inr g ↦ now ∙ rw g refl
          ];
    })
removed-Serves ok x f b actors (kv ∷ left) h k same gone = record {
  keyed = (k, All-delete (λ kv. Keyed kv.1) x.sub f h);
  counts = λ e a.
      let now = reach-set x.sub f e a (kv ∷ left) in
      elim (Bool-cases (f == e)) [
        | inl g ↦
            let was : reach x.sub e a ≡ entries actors a =
              subst (λ i. reach x.sub i a ≡ entries actors a) (==→eq f e g) (same a) in
            now ∙ rw (g, was) (gone a)
        | inr g ↦ now ∙ rw g refl
      ];
}

-- nothing to do, where the actor is no subscriber
absent-Serves :
    (sub : Items Bytes (Items Bytes ActorId)) (f b : Bytes)
    → AllKeyed sub
    → reach sub f b ≡ 0
    → Serves sub sub f b 0
absent-Serves sub f b h none_there = record {
  keyed = h;
  counts = λ e a. elim (Bool-cases (f == e)) [
    | inr g ↦ rw g refl
    | inl g ↦ elim (Bool-cases (b == a)) [
      | inr i ↦ rw (g, i) refl
      | inl i ↦
          let same_e = ==→eq f e g in
          let same_a = ==→eq b a i in
          rw (g, i)
            (subst (λ k. reach sub k a ≡ 0) same_e
              (subst (λ k. reach sub f k ≡ 0) same_a none_there))
    ]
  ];
}

subscribe-Serves :
    (ok : Bool) (x : EventStream) (f b : Bytes)
    → AllKeyed x.sub
    → Serves x.sub (subscribe ok x f b).0.sub f b 1
unfolding subscribe
subscribe-Serves ok x f b h = elim (Option-cases (items_get x.sub f)) [
  | inl e ↦ rw (e, register-sub ok x f) (added-Serves x.sub f b [] h tt (λ a. rw e refl))
  | inr (actors, e) ↦
      rw e (added-Serves x.sub f b actors h (All-items_get Keyed x.sub f h e) (λ a. rw e refl))
]

unsubscribe-Serves :
    (ok : Bool) (x : EventStream) (f b : Bytes)
    → AllKeyed x.sub
    → Serves x.sub (unsubscribe ok x f b).0.sub f b 0
unfolding unsubscribe
unsubscribe-Serves ok x f b h = elim (Option-cases (items_get x.sub f)) [
  | inl e ↦ rw e (absent-Serves x.sub f b h (rw e refl))
  | inr (actors, e) ↦ elim (Option-cases (items_get actors b)) [
    | inl g ↦ rw (e, g) (absent-Serves x.sub f b h (rw e (entries-absent actors b g)))
    | inr (ref, g) ↦
        rw (e, g)
          (removed-Serves ok x f b actors (items_delete actors b) h
            (All-delete (λ kv. kv.1.full_path ≡ kv.0) actors b (All-items_get Keyed x.sub f h e))
            (λ a. rw e refl) (entries-delete actors b))
  ]
]

run_reaches :
    (rs : List (Request × Bool)) (x : EventStream) (e a : Bytes)
    → AllKeyed x.sub
    → AllKeyed (run x rs).sub × (reach (run x rs).sub e a ≡ wanted e a (reach x.sub e a) rs)
unfolding run receive
run_reaches [] x e a h = (h, refl)
run_reaches ((subscribe_to f b, ok) ∷ rs) x e a h =
    let one = subscribe-Serves ok x f b h in
    let (k, c) = run_reaches rs (subscribe ok x f b).0 e a one.keyed in
    (k, c ∙ ap (λ n. wanted e a n rs) (one.counts e a))
run_reaches ((unsubscribe_from f b, ok) ∷ rs) x e a h =
    let one = unsubscribe-Serves ok x f b h in
    let (k, c) = run_reaches rs (unsubscribe ok x f b).0 e a one.keyed in
    (k, c ∙ ap (λ n. wanted e a n rs) (one.counts e a))
run_reaches ((publish_global f, ok) ∷ rs) x e a h = run_reaches rs x e a h
run_reaches ((publish_local f, ok) ∷ rs) x e a h = run_reaches rs x e a h

-- After any requests, and whichever calls of the provider failed, an event published on the node goes
-- once to each actor whose last request about it was to subscribe, and to nobody else; where the event
-- stream had no subscribers at first.
pub publish_reaches :
    (rs : List (Request × Bool)) (x : EventStream) (e a : Bytes)
    → x.sub ≡ []
    → told a (on_publish (run x rs) e) ≡ wanted e a 0 rs
publish_reaches rs x e a empty =
    let start : AllKeyed x.sub = rw empty tt in
    let none_yet : reach x.sub e a ≡ 0 = rw empty refl in
    let (k, c) = run_reaches rs x e a start in
    told-on_publish (run x rs) e a k ∙ (c ∙ ap (λ n. wanted e a n rs) none_yet)
