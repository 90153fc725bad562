-- ===== src/Activation/Memory.antt =====
-- A store of keys in place of etcd, for tests.
use grain.Base.{
  ◌≡◌, refl, ◌∙◌, Bool, true, false, none, some, if◌then◌else◌, Bytes, ◌==◌, ==_self, ==_cases, ap,
  bytes_comparable, Option-cases, inl, inr,
}
use grain.Base.Maybe.{maybe}
use grain.SafeMap.{Items, items_get, items_set, items_delete}
use grain.SafeMap.Assoc.{get-set}
use grain.Activation.{Etcd}

-- a store that never fails a transaction
abbrev pub create_in : Items Bytes Bytes → Bytes → Bytes → Items Bytes Bytes × Bool
create_in s key val = maybe (items_set s key val, true) (λ _. (s, false)) (items_get s key)

abbrev pub delete_in : Items Bytes Bytes → Bytes → Bytes → Items Bytes Bytes × Bool
delete_in s key val =
    maybe (s, false) (λ old. if old == val then (items_delete s key, true) else (s, false))
      (items_get s key)

pub create_in-succeeds :
    (s : Items Bytes Bytes) (key val : Bytes)
    → (create_in s key val).1 ≡ true
    → (items_get s key ≡ none) × (items_get (create_in s key val).0 key ≡ some val)
create_in-succeeds s key val h = elim (Option-cases (items_get s key)) [
  | inl e ↦ (e, rw e (get-set s key val key ∙ rw (==_self key) refl))
  | inr (old, e) ↦ let fails : (create_in s key val).1 ≡ false = rw e refl in absurd (cc (fails, h))
]

pub create_in-keeps :
    (s : Items Bytes Bytes) (key val other old : Bytes)
    → items_get s other ≡ some old
    → items_get (create_in s key val).0 other ≡ some old
create_in-keeps s key val other old h = elim (Option-cases (items_get s key)) [
  | inr (v, e) ↦ rw e h
  | inl absent ↦ elim (==_cases key other) [
    | inl same ↦ absurd (cc (ap (items_get s) same, absent, h))
    | inr differs ↦ rw absent (get-set s key val other ∙ rw differs h)
  ]
]

abbrev pub in_memory : Etcd
in_memory = record {
  Store = Items Bytes Bytes;
  lookup = items_get;
  create = create_in;
  delete_equal = delete_in;
  create_succeeds = create_in-succeeds;
  create_keeps = create_in-keeps;
}
