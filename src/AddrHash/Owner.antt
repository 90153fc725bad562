-- ===== src/AddrHash/Owner.antt =====
-- The owner of a grain: the best of the eligible addresses, the same at every node that knows the
-- same members, and moved by a change of members only where it must.
use grain.Base.{
  ◌≡◌, refl, sym, ap, subst, ◌∙◌, ◌⊎◌, inl, inr, true, List, [], ◌∷◌, All, Bytes, ◌==◌, ==→eq,
  ==_self, bytes_comparable, Bool-cases, arith,
}
use grain.Base.Order.{contains}
use grain.AddrHash.{NodeState, fnv32a_start, consider_all, calc_addr_by_kind8_name}
use grain.AddrHash.Winner.{
  candidate, eligible, prefer, prefer_antisym, ends, eligible_skip, eligible_take,
}

contains_every :
    (P : Bytes → Type 0) (l : List Bytes) → ((b : Bytes) → contains l b ≡ true → P b) → All P l
contains_every P [] h = tt
contains_every P (x ∷ l) h =
    (h x (ground (arith, ==_self x)), contains_every P l (λ b c. h b (ground arith)))

every_contains :
    (P : Bytes → Type 0) (l : List Bytes) (b : Bytes) → All P l → contains l b ≡ true → P b
every_contains P [] b h c = cc
every_contains P (x ∷ l) b h c = elim (Bool-cases (x == b)) [
  | inl e ↦ subst P (==→eq x b e) h.0
  | inr e ↦ every_contains P l b h.1 (ground arith)
]

some_contains : (l : List Bytes) → (l ≡ []) ⊎ ((x : Bytes) × (contains l x ≡ true))
some_contains [] = inl refl
some_contains (x ∷ l) = inr (x, ground (arith, ==_self x))

-- Among the addresses, and preferred to each of them.
abbrev pub Winner : Bytes → List Bytes → Bytes → Type 0
Winner name addrs a = (contains addrs a ≡ true) × All (λ b. prefer name a b ≡ true) addrs

-- The owner is an eligible address that is preferred to every eligible one: by a higher score, or
-- by the same score and a smaller address. Only where no member is eligible it is empty.
pub owner_wins :
    (nodes : List NodeState) (kind name : Bytes)
    → ((eligible kind nodes ≡ []) × (calc_addr_by_kind8_name nodes kind name ≡ []))
      ⊎ Winner name (eligible kind nodes) (calc_addr_by_kind8_name nodes kind name)
unfolding calc_addr_by_kind8_name
owner_wins nodes kind name =
    let r = (consider_all kind (fnv32a_start name) (0, []) nodes).1 in
    let (from, over, all) = ends kind name nodes 0 [] (inl (refl, refl)) in
    elim (some_contains (eligible kind nodes)) [
      | inl nothing ↦
          inl (nothing, elim from [ inl e ↦ e | inr c ↦ absurd (ground (arith, nothing, c)) ])
      | inr (x, c) ↦ inr (elim from [
        | inl e ↦ absurd ((all x c).0 e)
        | inr c' ↦ (c', contains_every _ (eligible kind nodes) (λ b m. (all b m).1))
      ])
    ]

Winner-unique :
    (name : Bytes) (ls ms : List Bytes) (a b : Bytes)
    → Winner name ls a
    → Winner name ms b
    → contains ls b ≡ true
    → contains ms a ≡ true
    → a ≡ b
Winner-unique name ls ms a b (_, p) (_, q) c d =
    prefer_antisym name a b (every_contains (λ x. prefer name a x ≡ true) ls b p c)
      (every_contains (λ x. prefer name b x ≡ true) ms a q d)

-- Taking members away leaves the owner of a name as it is, unless its own address is taken away.
pub owner_stays :
    (ms ns : List NodeState) (kind name : Bytes)
    → ((b : Bytes) → contains (eligible kind ms) b ≡ true → contains (eligible kind ns) b ≡ true)
    → contains (eligible kind ms) (calc_addr_by_kind8_name ns kind name) ≡ true
    → calc_addr_by_kind8_name ms kind name ≡ calc_addr_by_kind8_name ns kind name
owner_stays ms ns kind name sub has = elim (owner_wins ms kind name) [
  | inl (nothing, _) ↦ absurd (ground (arith, nothing, has))
  | inr w ↦ elim (owner_wins ns kind name) [
    | inl (nothing, _) ↦
        absurd (ground (arith, nothing, sub (calc_addr_by_kind8_name ns kind name) has))
    | inr v ↦ Winner-unique name (eligible kind ms) (eligible kind ns) _ _ w v has (sub _ w.0)
  ]
]

-- Two member lists with the same eligible addresses, in whatever order and however often, give
-- every name the same owner.
pub owner_agrees :
    (ms ns : List NodeState) (kind name : Bytes)
    → ((b : Bytes) → contains (eligible kind ms) b ≡ contains (eligible kind ns) b)
    → calc_addr_by_kind8_name ms kind name ≡ calc_addr_by_kind8_name ns kind name
owner_agrees ms ns kind name same = elim (owner_wins ns kind name) [
  | inr v ↦ owner_stays ms ns kind name (λ b c. sym (same b) ∙ c) (same _ ∙ v.0)
  | inl (nothing, e) ↦ elim (owner_wins ms kind name) [
    | inl (_, e') ↦ e' ∙ sym e
    | inr w ↦ absurd (ground (arith, nothing, w.0, same (calc_addr_by_kind8_name ms kind name)))
  ]
]

-- A member that joins takes names over for itself only: every name keeps its owner or goes to the
-- new member's address.
pub owner_joined :
    (node : NodeState) (nodes : List NodeState) (kind name : Bytes)
    → (calc_addr_by_kind8_name (node ∷ nodes) kind name ≡ calc_addr_by_kind8_name nodes kind name)
      ⊎ (calc_addr_by_kind8_name (node ∷ nodes) kind name ≡ node.address)
owner_joined node nodes kind name = elim (Bool-cases (candidate kind node)) [
  | inr c ↦
      let l = eligible_skip kind name node nodes c in
      inl (owner_agrees (node ∷ nodes) nodes kind name (λ b. ap (λ es. contains es b) l))
  | inl c ↦
      let r = calc_addr_by_kind8_name (node ∷ nodes) kind name in
      let (l, _) = eligible_take kind name node nodes c in
      elim (owner_wins (node ∷ nodes) kind name) [
        | inl (nothing, _) ↦ absurd (ground (arith, nothing, l))
        | inr w ↦ elim (Bool-cases (node.address == r)) [
          | inl e ↦ inr (sym (==→eq node.address r e))
          | inr e ↦ inl (
              sym (
                owner_stays nodes (node ∷ nodes) kind name
                  (λ b m. ap (λ es. contains es b) l ∙ ground (arith, m))
                  (ground (arith, w.0, l, e))))
        ]
      ]
]
