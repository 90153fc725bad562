-- ===== src/Node/Ids.antt =====
-- The node ids that are free, and the key of a member.
use grain.Base.{
  ℕ, zero, suc, ◌+◌, ◌≤◌, ◌<◌, ◌≡◌, refl, subst, ◌∙◌, ◌&&◌, Bool, true, false, none, some, List, [],
  ◌∷◌, ◌++◌, All, get_or, length, nat_eqb, if◌then◌else◌, Bytes, bytes_comparable, nat_comparable,
  Option-cases, leb, ltb, ==_cases, inl, inr, arith,
}
use grain.Base.Decimal.{format_uint, digits-AllDigits}
use grain.Base.Maybe.{maybe}
use grain.ActorId.{slash}
use grain.SafeMap.{items_get}
use grain.Uuid.{node_max}
use grain.Routes.{Provider, has_slash, after_last_slash}
use grain.Node.{get_member_path, free_from, free_node_ids, member_segment}

-- no entry of the member table is under this id
abbrev pub IsFree : Provider → ℕ → Type 0
IsFree x id = items_get x.node_map (format_uint id) ≡ none

pub All-map : {P Q : ℕ → Type 0} (l : List ℕ) → ((n : ℕ) → P n → Q n) → All P l → All Q l
All-map [] f h = tt
All-map (n ∷ l) f (p, h) = (f n p, All-map l f h)

pub All-get : (P : ℕ → Type 0) (l : List ℕ) (i d : ℕ) → i < length l → All P l → P (get_or l i d)
All-get P [] i d h a = absurd (omega arith)
All-get P (n ∷ l) zero d h (p, a) = p
All-get P (n ∷ l) (suc i) d h (p, a) = All-get P l i d (omega arith) a

free_from-All :
    (x : Provider) (count id : ℕ)
    → All (λ k. (id ≤ k) × (k < id + count) × IsFree x k) (free_from x count id)
free_from-All x zero id = tt
free_from-All x (suc count) id =
    let rest : All (λ k. (id ≤ k) × (k < id + suc count) × IsFree x k)
        (free_from x count (id + 1)) =
      All-map (free_from x count (id + 1)) (λ k a. (omega (arith, a.0), omega (arith, a.1), a.2))
        (free_from-All x count (id + 1)) in
    elim (Option-cases (items_get x.node_map (format_uint id))) [
      | inl e ↦ rw e ((omega arith, omega arith, e), rest)
      | inr (n, e) ↦ rw e rest
    ]

pub free_node_ids-All :
    (x : Provider) → All (λ k. (1 ≤ k) × (k < 1 + node_max) × IsFree x k) (free_node_ids x)
unfolding free_node_ids
free_node_ids-All x = free_from-All x node_max 1

abbrev pub times : ℕ → List ℕ → ℕ
times n [] = 0
times n (m ∷ l) = (if nat_eqb n m then 1 else 0) + times n l

abbrev pub is_free : Provider → ℕ → Bool
is_free x id = maybe true (λ _. false) (items_get x.node_map (format_uint id))

times_from :
    (x : Provider) (count id k : ℕ)
    → times k (free_from x count id)
      ≡ (if leb id k && ltb k (id + count) && is_free x k then 1 else 0)
times_from x zero id k = ground arith
times_from x (suc count) id k = elim (==_cases id k) [
  | inl same ↦ elim (Option-cases (items_get x.node_map (format_uint id))) [
    | inl e ↦
        let here = subst (λ i. items_get x.node_map (format_uint i) ≡ none) same e in
        rw (same, here) (ground (arith, times_from x count (k + 1) k))
    | inr (n, e) ↦
        let here = subst (λ i. items_get x.node_map (format_uint i) ≡ some n) same e in
        rw (same, here) (ground (arith, times_from x count (k + 1) k))
  ]
  | inr other ↦ elim (Option-cases (items_get x.node_map (format_uint id))) [
    | inl e ↦ rw e (ground (arith, other, times_from x count (id + 1) k))
    | inr (n, e) ↦ rw e (ground (arith, other, times_from x count (id + 1) k))
  ]
]

-- `freeNodeIds` lists an id once where it is one of 1 to 1023 and the member table has no entry of
-- it, and else not at all.
pub times-free_node_ids :
    (x : Provider) (id : ℕ)
    → times id (free_node_ids x) ≡ (if leb 1 id && leb id node_max && is_free x id then 1 else 0)
unfolding free_node_ids
times-free_node_ids x id = times_from x node_max 1 id ∙ ground arith

has_slash-append : (xs ys : Bytes) → has_slash ys ≡ true → has_slash (xs ++ ys) ≡ true
has_slash-append [] ys h = h
has_slash-append (b ∷ xs) ys h = ground (arith, has_slash-append xs ys h)

after_last-append :
    (xs ys : Bytes) → has_slash ys ≡ true → after_last_slash (xs ++ ys) ≡ after_last_slash ys
after_last-append [] ys h = refl
after_last-append (b ∷ xs) ys h = rw (has_slash-append xs ys h) (after_last-append xs ys h)

digits_have_no_slash : (l : Bytes) → All (λ b. (48 ≤ b) × (b ≤ 57)) l → has_slash l ≡ false
digits_have_no_slash [] h = refl
digits_have_no_slash (b ∷ l) (d, h) = ground (arith, d, digits_have_no_slash l h)

-- A member's key is read back into its id: the member table is keyed by ids.
pub after_last_slash-get_member_path :
    (cluster_name : Bytes) (id : ℕ)
    → after_last_slash (get_member_path cluster_name id) ≡ format_uint id
unfolding get_member_path
after_last_slash-get_member_path cluster_name id =
    let plain = digits_have_no_slash (format_uint id) (digits-AllDigits (suc id) id) in
    let tail : Bytes = member_segment ++ (slash ∷ format_uint id) in
    let last : has_slash (slash ∷ format_uint id) ≡ true = refl in
    let first : has_slash (slash ∷ tail) ≡ true = refl in
    after_last-append (slash ∷ cluster_name) (slash ∷ tail) first
    ∙ (after_last-append (slash ∷ member_segment) (slash ∷ format_uint id) last ∙ rw plain refl)
