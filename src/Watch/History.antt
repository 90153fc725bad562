-- ===== src/Watch/History.antt =====
-- What etcd holds: its history is the list of the events of each revision, and a key has the value of
-- the last event on it.
use grain.Base.{
  ℕ, ◌+◌, ◌-◌, ◌≡◌, refl, sym, ap, ◌∙◌, inl, inr, Bool, true, false, ◌&&◌, Option, none, some, List,
  [], ◌∷◌, ◌++◌, nat_eqb, if◌then◌else◌, take, drop, take-append-drop, append_assoc, Bytes, ◌==◌,
  ==_cases, bytes_comparable, Bool-cases, Option-cases, arith,
}
use grain.Base.Maybe.{maybe, maybe_self}
use grain.Routes.{EventType, put_event, delete_event}
use grain.SafeMap.Iter.Kept.{to_list, values}
use grain.Watch.{Event, Response, as_puts, call_responses}

-- what an event makes of its key
abbrev pub written : EventType → Bytes → Option Bytes
written put_event value = some value
written delete_event value = none

-- the last of the events on a key, if there is one, and what it made of it
abbrev pub last_write : List Event → Bytes → Option (Option Bytes)
last_write [] key = none
last_write (e ∷ es) key =
    let this = if e.key == key then some (written e.event_type e.value) else none in
    maybe this some (last_write es key)

abbrev pub state_of : List Event → Bytes → Option Bytes
state_of es key = maybe none (λ w. w) (last_write es key)

abbrev pub concat : List (List Event) → List Event
concat [] = []
concat (es ∷ ess) = es ++ concat ess

abbrev pub has_prefix : Bytes → Bytes → Bool
has_prefix [] key = true
has_prefix (c ∷ prefix) [] = false
has_prefix (c ∷ prefix) (b ∷ key) = nat_eqb c b && has_prefix prefix key

abbrev pub under : Bytes → List Event → List Event
under prefix [] = []
under prefix (e ∷ es) =
    let rest = under prefix es in if has_prefix prefix e.key then e ∷ rest else rest

-- A Get of a prefix gives each key under it once, with its value after the events `es`.
abbrev pub GotAll : Bytes → List Event → List (Bytes × Bytes) → Type 0
GotAll prefix es kvs =
    (key : Bytes)
    → values key kvs ≡ (if has_prefix prefix key then to_list (state_of es key) else [])

-- A watch of a prefix gives all events under it from a revision on, in their order.
abbrev pub Watched : Bytes → List (List Event) → (ℕ → List Response) → Type 0
Watched prefix history watch =
    (start : ℕ) → call_responses (watch start) ≡ under prefix (concat (drop (start - 1) history))

pub last_write-append :
    (xs ys : List Event) (key : Bytes)
    → last_write (xs ++ ys) key ≡ maybe (last_write xs key) some (last_write ys key)
last_write-append [] ys key = sym (maybe_self (last_write ys key))
last_write-append (e ∷ xs) ys key =
    let ih = last_write-append xs ys key in
    elim (Option-cases (last_write ys key)) [
      | inl h ↦ rw (ih, h) refl
      | inr (w, h) ↦ rw (ih, h) refl
    ]

pub last_write-under :
    (prefix : Bytes) (es : List Event) (key : Bytes)
    → has_prefix prefix key ≡ true
    → last_write (under prefix es) key ≡ last_write es key
last_write-under prefix [] key p = refl
last_write-under prefix (e ∷ es) key p =
    let ih = last_write-under prefix es key p in
    elim (==_cases e.key key) [
      | inl same ↦ rw (ap (has_prefix prefix) same ∙ p, ih) refl
      | inr other ↦ elim (Bool-cases (has_prefix prefix e.key)) [
        | inl t ↦ rw (t, ih) refl
        | inr f ↦ rw (f, other, ih) (sym (maybe_self (last_write es key)))
      ]
    ]

pub concat-append : (xs ys : List (List Event)) → concat (xs ++ ys) ≡ concat xs ++ concat ys
concat-append [] ys = refl
concat-append (es ∷ xs) ys =
    ap (λ l. es ++ l) (concat-append xs ys) ∙ sym (append_assoc es (concat xs) (concat ys))

-- the events up to a revision, and those after it
pub concat-split :
    (n : ℕ) (history : List (List Event))
    → concat (take n history) ++ concat (drop n history) ≡ concat history
concat-split n history =
    sym (concat-append (take n history) (drop n history)) ∙ ap concat (take-append-drop n history)

values-none :
    (key : Bytes) (kvs : List (Bytes × Bytes))
    → values key kvs ≡ []
    → last_write (as_puts kvs) key ≡ none
values-none key [] h = refl
values-none key ((k, v) ∷ kvs) h = elim (Bool-cases (k == key)) [
  | inl t ↦ absurd (ground (arith, h, t))
  | inr f ↦ rw (f, values-none key kvs (ground (arith, h, f))) refl
]

-- Putting the keys of a Get one after the other leaves each its value.
pub last_write-values :
    (key : Bytes) (kvs : List (Bytes × Bytes)) (o : Option Bytes)
    → values key kvs ≡ to_list o
    → last_write (as_puts kvs) key ≡ maybe none (λ v. some (some v)) o
last_write-values key kvs none h = values-none key kvs h
last_write-values key [] (some w) h = cc
last_write-values key ((k, v) ∷ kvs) (some w) h = elim (Bool-cases (k == key)) [
  | inl t ↦
      let here : v ≡ w = ground (arith, h, t) in
      rw (t, values-none key kvs (ground (arith, h, t)), here) refl
  | inr f ↦ rw (f, last_write-values key kvs (some w) (ground (arith, h, f))) refl
]

pub has_prefix-append : (prefix s : Bytes) → has_prefix prefix (prefix ++ s) ≡ true
has_prefix-append [] s = refl
has_prefix-append (c ∷ prefix) s = ground (arith, has_prefix-append prefix s)

-- What a watch from the next revision on says of a key is what came after that revision.
pub came_later :
    (prefix : Bytes) (history : List (List Event)) (watch : ℕ → List Response) (rev : ℕ)
    (path : Bytes)
    → Watched prefix history watch
    → has_prefix prefix path ≡ true
    → last_write (call_responses (watch (rev + 1))) path
      ≡ last_write (concat (drop rev history)) path
came_later prefix history watch rev path watched inside =
    let next : rev + 1 - 1 ≡ rev = omega arith in
    ap (λ es. last_write es path) (watched (rev + 1))
    ∙ last_write-under prefix (concat (drop (rev + 1 - 1) history)) path inside
    ∙ ap (λ n. last_write (concat (drop n history)) path) next

-- The whole history, from what came up to a revision and after it.
pub history_splits :
    (history : List (List Event)) (rev : ℕ) (path : Bytes)
    → last_write (concat history) path
      ≡ maybe
          (last_write (concat (take rev history)) path)
          some
          (last_write (concat (drop rev history)) path)
history_splits history rev path =
    ap (λ l. last_write l path) (sym (concat-split rev history))
    ∙ last_write-append (concat (take rev history)) (concat (drop rev history)) path
