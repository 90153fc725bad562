-- ===== src/AddrHash/Winner.antt =====
-- What the loop of `CalcAddrByKind8Name` ends on, turn by turn.
use grain.Base.{
  ℕ, ◌≡◌, ◌≢◌, refl, sym, subst, ◌⊎◌, inl, inr, Bool, true, false, not, ◌&&◌, ◌||◌, List, [], ◌∷◌,
  ltb, nat_eqb, if◌then◌else◌, Bytes, ◌==◌, ==→eq, ==_self, ==_cases, bytes_comparable, Bool-cases,
  arith,
}
use grain.Base.Order.{
  bytes_leb, bytes_ltb→leb, bytes_leb_self, bytes_leb_antisym, bytes_leb_trans, contains,
}
use grain.AddrHash.{NodeState, fmix32, fnv32a_add, fnv32a_start, consider, consider_all}

-- a member that may be chosen for a kind
abbrev pub candidate : Bytes → NodeState → Bool
candidate kind node = contains node.kinds kind && not (node.address == [])

abbrev pub eligible : Bytes → List NodeState → List Bytes
eligible kind [] = []
eligible kind (node ∷ nodes) =
    if candidate kind node then node.address ∷ eligible kind nodes else eligible kind nodes

-- the score of an address for a name
unfoldable pub score : Bytes → Bytes → ℕ
score name addr = fmix32 (fnv32a_add (fnv32a_start name) addr)

-- a higher score, or the same and an address that is not after
abbrev pub prefer : Bytes → Bytes → Bytes → Bool
prefer name a b =
    ltb (score name b) (score name a) || (nat_eqb (score name a) (score name b) && bytes_leb a b)

pub prefer_self : (name a : Bytes) → prefer name a a ≡ true
prefer_self name a = ground (arith, bytes_leb_self a)

pub prefer_antisym : (name a b : Bytes) → prefer name a b ≡ true → prefer name b a ≡ true → a ≡ b
prefer_antisym name a b p q = ground (arith, bytes_leb_antisym a b)

prefer_trans :
    (name a b c : Bytes) → prefer name a b ≡ true → prefer name b c ≡ true → prefer name a c ≡ true
prefer_trans name a b c p q = ground (arith, bytes_leb_trans a b c)

-- the address that the loop holds, with its score
abbrev pub Holds : Bytes → ℕ × Bytes → Type 0
Holds name (s, a) = ((a ≡ []) × (s ≡ 0)) ⊎ ((a ≢ []) × (s ≡ score name a))

module _ (kind name : Bytes) where
  consider_skip :
      (s : ℕ) (a : Bytes) (node : NodeState)
      → candidate kind node ≡ false
      → consider kind (fnv32a_start name) (s, a) node ≡ (s, a)
  unfolding consider
  consider_skip s a node h = ground arith

  -- A turn keeps the held address or takes the new one, whichever is preferred.
  consider_take :
      (s : ℕ) (a : Bytes) (node : NodeState)
      → Holds name (s, a)
      → candidate kind node ≡ true
      → (consider kind (fnv32a_start name) (s, a) node ≡ (score name node.address, node.address))
          × ((a ≡ []) ⊎ (prefer name node.address a ≡ true))
        ⊎ ((consider kind (fnv32a_start name) (s, a) node ≡ (s, a))
            × (a ≢ [])
            × (prefer name a node.address ≡ true))
  unfolding consider score
  consider_take s a node h c = ground (arith, ==_cases a [], bytes_ltb→leb node.address a)

  pub eligible_skip :
      (node : NodeState) (nodes : List NodeState)
      → candidate kind node ≡ false
      → eligible kind (node ∷ nodes) ≡ eligible kind nodes
  eligible_skip node nodes h = rw h

  pub eligible_take :
      (node : NodeState) (nodes : List NodeState)
      → candidate kind node ≡ true
      → (eligible kind (node ∷ nodes) ≡ node.address ∷ eligible kind nodes) × (node.address ≢ [])
  eligible_take node nodes h = (rw h, λ e. ground (arith, e))

  -- what the loop ends on, from what it holds
  abbrev pub Ends : ℕ × Bytes → List Bytes → Bytes → Type 0
  Ends (s, a) addrs r =
      ((r ≡ a) ⊎ (contains addrs r ≡ true))
      × ((a ≡ []) ⊎ (prefer name r a ≡ true))
      × ((b : Bytes) → contains addrs b ≡ true → (r ≢ []) × (prefer name r b ≡ true))

  -- a turn that takes `x`, and one that keeps the address held
  Ends-took :
      (s : ℕ) (a x : Bytes) (addrs : List Bytes) (r : Bytes)
      → (a ≡ []) ⊎ (prefer name x a ≡ true)
      → x ≢ []
      → Ends (score name x, x) addrs r
      → Ends (s, a) (x ∷ addrs) r
  Ends-took s a x addrs r better some' (from, over, all) =
      let beats_x : prefer name r x ≡ true = ground (arith, some') in
      let some_r : r ≢ [] = λ e. ground (arith, all r, some') in
      (
        inr (ground (arith, ==_self x)),
        ground (arith, prefer_trans name r x a),
        λ b c. (some_r, ground (arith, all b, ==→eq x b)),
      )

  Ends-kept :
      (s : ℕ) (a x : Bytes) (addrs : List Bytes) (r : Bytes)
      → prefer name a x ≡ true
      → a ≢ []
      → Ends (s, a) addrs r
      → Ends (s, a) (x ∷ addrs) r
  Ends-kept s a x addrs r better held (from, over, all) =
      let beats_x : prefer name r x ≡ true = ground (arith, held, prefer_trans name r a x) in
      let some_r : r ≢ [] = λ e. ground (arith, all r, held) in
      (ground arith, over, λ b c. (some_r, ground (arith, all b, ==→eq x b)))

  after_turn :
      (node : NodeState) (nodes : List NodeState) (s : ℕ) (a : Bytes) (best : ℕ × Bytes)
      (addrs more : List Bytes)
      → consider kind (fnv32a_start name) (s, a) node ≡ best
      → more ≡ addrs
      → Ends (s, a) addrs (consider_all kind (fnv32a_start name) best nodes).1
      → Ends (s, a) more (consider_all kind (fnv32a_start name) (s, a) (node ∷ nodes)).1
  unfolding consider_all
  after_turn node nodes s a best addrs more e l h =
      subst (λ es. Ends (s, a) es (consider_all kind (fnv32a_start name) (s, a) (node ∷ nodes)).1)
        (sym l)
        (subst (λ t. Ends (s, a) addrs (consider_all kind (fnv32a_start name) t nodes).1) (sym e) h)

  pub ends :
      (nodes : List NodeState) (s : ℕ) (a : Bytes)
      → Holds name (s, a)
      → Ends (s, a) (eligible kind nodes) (consider_all kind (fnv32a_start name) (s, a) nodes).1
  unfolding consider_all
  ends [] s a h = (inl refl, inr (prefer_self name a), λ b c. cc)
  ends (node ∷ nodes) s a h = elim (Bool-cases (candidate kind node)) [
    | inr c ↦
        after_turn node nodes s a (s, a) _ _ (consider_skip s a node c) (eligible_skip node nodes c)
          (ends nodes s a h)
    | inl c ↦
        let x = node.address in
        let (l, some') = eligible_take node nodes c in
        elim (consider_take s a node h c) [
          | inl (e, better) ↦
              after_turn node nodes s a (score name x, x) _ _ e l
                (Ends-took s a x (eligible kind nodes) _ better some'
                  (ends nodes (score name x) x (inr (some', refl))))
          | inr (e, held, better) ↦
              after_turn node nodes s a (s, a) _ _ e l
                (Ends-kept s a x (eligible kind nodes) _ better held (ends nodes s a h))
        ]
  ]
