-- ===== src/EventStream/Entries.antt =====
-- The subscribers of one event, as an association list.
use grain.Base.{
  ℕ, ◌+◌, ◌≡◌, refl, subst, true, false, none, some, List, [], ◌∷◌, All, if◌then◌else◌, Bytes, ◌==◌,
  ==→eq, bytes_comparable, Bool-cases, inl, inr, arith,
}
use grain.ActorId.{ActorId}
use grain.SafeMap.{Items, items_get, items_set, items_delete}
use grain.EventStream.{Effect, tell, tell_all}

-- how many messages go to an actor
abbrev pub told : Bytes → List Effect → ℕ
told a [] = 0
told a (tell ref e ∷ effects) = (if ref.full_path == a then 1 else 0) + told a effects
told a (f ∷ effects) = told a effects

-- Subscribers are kept under their own id.
abbrev pub Keyed : Items Bytes ActorId → Type 0
Keyed actors = All (λ kv. kv.1.full_path ≡ kv.0) actors

abbrev pub AllKeyed : Items Bytes (Items Bytes ActorId) → Type 0
AllKeyed sub = All (λ kv. Keyed kv.1) sub

pub All-delete :
    {V : Type 0} (P : Bytes × V → Type 0) (items : Items Bytes V) (key : Bytes)
    → All P items
    → All P (items_delete items key)
All-delete P [] key h = tt
All-delete P ((k, v) ∷ items) key (p, h) = elim (Bool-cases (k == key)) [
  | inl e ↦ rw e (All-delete P items key h)
  | inr e ↦ rw e (p, All-delete P items key h)
]

get_same :
    {V : Type 0} (items : Items Bytes V) (k key : Bytes) (v : V)
    → (k == key) ≡ true
    → items_get ((k, v) ∷ items) key ≡ some v
get_same items k key v e = rw e refl

get_other :
    {V : Type 0} (items : Items Bytes V) (k key : Bytes) (v : V)
    → (k == key) ≡ false
    → items_get ((k, v) ∷ items) key ≡ items_get items key
get_other items k key v e = rw e refl

pub All-items_get :
    {V : Type 0} (Q : V → Type 0) (items : Items Bytes V) (key : Bytes) {v : V}
    → All (λ kv. Q kv.1) items
    → items_get items key ≡ some v
    → Q v
All-items_get Q [] key h e = absurd (cc e)
All-items_get Q ((k, v) ∷ items) key (q, h) e = elim (Bool-cases (k == key)) [
  | inl same ↦ subst Q (cc (get_same items k key v same, e)) q
  | inr other ↦ All-items_get Q items key h (cc (get_other items k key v other, e))
]

-- the messages that publishing to these subscribers sends to an actor
abbrev pub entries : Items Bytes ActorId → Bytes → ℕ
entries [] a = 0
entries ((k, ref) ∷ actors) a = (if k == a then 1 else 0) + entries actors a

pub entries-absent :
    (actors : Items Bytes ActorId) (a : Bytes) → items_get actors a ≡ none → entries actors a ≡ 0
entries-absent [] a h = refl
entries-absent ((k, ref) ∷ actors) a h = elim (Bool-cases (k == a)) [
  | inl e ↦ absurd (cc (get_same actors k a ref e, h))
  | inr e ↦ rw e (omega (arith, entries-absent actors a (cc (get_other actors k a ref e, h))))
]

pub entries-delete :
    (actors : Items Bytes ActorId) (b a : Bytes)
    → entries (items_delete actors b) a ≡ (if b == a then 0 else entries actors a)
entries-delete [] b a = elim (Bool-cases (b == a)) [ inl e ↦ rw e refl | inr e ↦ rw e refl ]
entries-delete ((k, ref) ∷ actors) b a =
    let ih = entries-delete actors b a in
    elim (Bool-cases (k == b)) [
      | inl e ↦
          let same : k ≡ b = ==→eq k b e in
          elim (Bool-cases (b == a)) [
            | inl g ↦ rw (e, g) (ground (arith, ih, g))
            | inr g ↦ rw (e, same, g) (ground (arith, ih, g))
          ]
      | inr e ↦ elim (Bool-cases (b == a)) [
        | inl g ↦
            let other : (k == a) ≡ false = subst (λ c. (k == c) ≡ false) (==→eq b a g) e in
            rw (e, g, other) (ground (arith, ih, g))
        | inr g ↦ rw (e, g) (ground (arith, ih, g))
      ]
    ]

pub told-tell_all :
    (actors : Items Bytes ActorId) (e a : Bytes)
    → Keyed actors
    → told a (tell_all e actors) ≡ entries actors a
told-tell_all [] e a h = refl
told-tell_all ((k, ref) ∷ actors) e a (p, h) = rw p (omega (arith, told-tell_all actors e a h))

pub entries-set :
    (actors : Items Bytes ActorId) (b a : Bytes) (ref : ActorId)
    → entries (items_set actors b ref) a ≡ (if b == a then 1 else entries actors a)
entries-set actors b a ref =
    let rest = entries-delete actors b a in
    elim (Bool-cases (b == a)) [
      | inl e ↦ rw e (ground (arith, rest, e))
      | inr e ↦ rw e (ground (arith, rest, e))
    ]
