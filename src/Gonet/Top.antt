-- ===== src/Gonet/Top.antt =====
-- The address that comes first.
use grain.Base.{
  ◌≡◌, refl, ◌∙◌, ◌⊎◌, inl, inr, true, false, Option, none, some, List, [], ◌∷◌, All, if◌then◌else◌,
  Bytes, ◌==◌, ==_self, bytes_comparable, Bool-cases, arith,
}
use grain.Base.Maybe.{maybe}
use grain.Base.Order.{contains, bytes_leb_self, bytes_leb_antisym, bytes_leb_trans, bytes_ltb→leb}
use grain.Gonet.{
  is_private, filter_ips, is_before, insert, stable_sort, select_inner_ips, first_of, Interface,
  candidates_of, get_top_inner_ip, inner_ips, enumerate_inner_ips,
}

leq_self : (a : Bytes) → is_before a a ≡ false
unfolding is_before
leq_self a = elim (Bool-cases (is_private a)) [
  | inl p ↦ rw p (ground (arith, bytes_leb_self a))
  | inr p ↦ rw p (ground (arith, bytes_leb_self a))
]

-- as on bytes, by whether the two are private
leq_antisym : (a b : Bytes) → is_before b a ≡ false → is_before a b ≡ false → a ≡ b
unfolding is_before
leq_antisym a b h g = elim (Bool-cases (is_private a)) [
  | inl p ↦ elim (Bool-cases (is_private b)) [
    | inl q ↦ ground (arith, bytes_leb_antisym a b, p, q, h, g)
    | inr q ↦ absurd (ground (arith, p, q, h, g))
  ]
  | inr p ↦ elim (Bool-cases (is_private b)) [
    | inl q ↦ absurd (ground (arith, p, q, h, g))
    | inr q ↦ ground (arith, bytes_leb_antisym a b, p, q, h, g)
  ]
]

leq_trans : (a b c : Bytes) → is_before b a ≡ false → is_before c b ≡ false → is_before c a ≡ false
unfolding is_before
leq_trans a b c h g = elim (Bool-cases (is_private a)) [
  | inl p ↦ elim (Bool-cases (is_private b)) [
    | inl q ↦ elim (Bool-cases (is_private c)) [
      | inl r ↦ ground (arith, bytes_leb_trans a b c, p, q, r, h, g)
      | inr r ↦ rw (p, r) refl
    ]
    | inr q ↦ elim (Bool-cases (is_private c)) [
      | inl r ↦ absurd (ground (arith, p, q, r, h, g))
      | inr r ↦ rw (p, r) refl
    ]
  ]
  | inr p ↦ elim (Bool-cases (is_private b)) [
    | inl q ↦ absurd (ground (arith, p, q, h, g))
    | inr q ↦ elim (Bool-cases (is_private c)) [
      | inl r ↦ absurd (ground (arith, p, q, r, h, g))
      | inr r ↦ ground (arith, bytes_leb_trans a b c, p, q, r, h, g)
    ]
  ]
]

-- of two addresses one is not after the other
leq_total : (a b : Bytes) → is_before a b ≡ true → is_before b a ≡ false
unfolding is_before
leq_total a b h = elim (Bool-cases (is_private a)) [
  | inl p ↦ elim (Bool-cases (is_private b)) [
    | inl q ↦ ground (arith, bytes_ltb→leb a b, p, q, h)
    | inr q ↦ rw (p, q) refl
  ]
  | inr p ↦ elim (Bool-cases (is_private b)) [
    | inl q ↦ absurd (ground (arith, p, q, h))
    | inr q ↦ ground (arith, bytes_ltb→leb a b, p, q, h)
  ]
]

first-insert :
    (x : Bytes) (l : List Bytes)
    → first_of (insert x l)
      ≡ maybe (some x) (λ y. if is_before y x then some y else some x) (first_of l)
unfolding insert
first-insert x [] = refl
first-insert x (y ∷ ys) = elim (Bool-cases (is_before y x)) [
  | inl h ↦ rw h refl
  | inr h ↦ rw h refl
]

-- nothing in the list comes before `a`
abbrev pub IsFirst : Bytes → List Bytes → Type 0
IsFirst a l = All (λ z. is_before z a ≡ false) l

First-trans : (a b : Bytes) (l : List Bytes) → is_before b a ≡ false → IsFirst b l → IsFirst a l
First-trans a b [] h f = tt
First-trans a b (z ∷ l) h (g, f) = (leq_trans a b z h g, First-trans a b l h f)

-- What the sort puts first: one of the list, with nothing before it.
abbrev pub Chosen : Option Bytes → List Bytes → Type 0
Chosen chosen l =
    ((chosen ≡ none) × (l ≡ []))
    ⊎ ((a : Bytes) × (chosen ≡ some a) × (contains l a ≡ true) × IsFirst a l)

sort-Chosen : (l : List Bytes) → Chosen (first_of (stable_sort l)) l
unfolding stable_sort
sort-Chosen [] = inl (refl, refl)
sort-Chosen (x ∷ l) = elim (sort-Chosen l) [
  | inl (e, g) ↦
      inr
        (x, first-insert x (stable_sort l) ∙ rw e refl, rw (==_self x) refl, (leq_self x, rw g tt))
  | inr (a, e, c, f) ↦ elim (Bool-cases (is_before a x)) [
    | inl h ↦ inr (
      a,
      first-insert x (stable_sort l) ∙ rw (e, h) refl,
      elim (Bool-cases (x == a)) [ inl s ↦ rw s refl | inr s ↦ rw (s, c) refl ],
      (leq_total a x h, f),
    )
    | inr h ↦ inr (
      x,
      first-insert x (stable_sort l) ∙ rw (e, h) refl,
      rw (==_self x) refl,
      (leq_self x, First-trans x a l h f),
    )
  ]
]

-- The address that a host tells the cluster is one of the usable IPv4 addresses of its interfaces that
-- are up and not loopback, none of them is ordered before it, private ones first and then by their
-- bytes, and there is none just where no address is usable; where nothing was found before.
pub top-Chosen :
    (ifaces : List Interface)
    → Chosen (get_top_inner_ip none (some ifaces)).1 (filter_ips (candidates_of ifaces))
unfolding get_top_inner_ip inner_ips enumerate_inner_ips select_inner_ips
top-Chosen ifaces = sort-Chosen (filter_ips (candidates_of ifaces))
