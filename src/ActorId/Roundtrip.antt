-- ===== src/ActorId/Roundtrip.antt =====
-- Ids that the constructors build are read back into the parts that they were built of.
use grain.Base.{
  ℕ, suc, ◌+◌, ◌≡◌, ◌≢◌, refl, ap, ◌∙◌, ◌⊎◌, inl, inr, true, false, none, some, [], ◌∷◌, ◌++◌,
  nat_eqb, length, take, drop, Bytes, ◌==◌, bytes_comparable, Option-cases, arith,
}
use grain.ActorId.{
  slash, at_sign, default_act_direct, default_act_cluster, index_byte, index_any, CacheParse,
  parse_addr, parse_cache, validate_name, ActorId, new_actor_ref_from_aid, new_direct_actor_ref,
  new_cluster_actor_ref, is_direct, is_cluster, get_cluster_actor_ref,
}

pub index_byte-append :
    (a b : Bytes) (c : ℕ) → index_byte a c ≡ none → index_byte (a ++ (c ∷ b)) c ≡ some (length a)
index_byte-append [] b c h = ground arith
index_byte-append (x ∷ a) b c h = ground (arith, index_byte-append a b c)

pub take-length-append : (a b : Bytes) → take (length a) (a ++ b) ≡ a
take-length-append [] b = refl
take-length-append (x ∷ a) b = ap (λ t. x ∷ t) (take-length-append a b)

pub drop-length-append : (a b : Bytes) (c : ℕ) → drop (length a + 1) (a ++ (c ∷ b)) ≡ b
drop-length-append [] b c = refl
drop-length-append (x ∷ a) b c =
    let next : suc (length a) + 1 ≡ suc (length a + 1) = omega arith in
    rw next (drop-length-append a b c)

index_any-none :
    (s : Bytes) → index_any s ≡ none → (index_byte s slash ≡ none) × (index_byte s at_sign ≡ none)
index_any-none [] h = (refl, refl)
index_any-none (b ∷ s) h = ground (arith, index_any-none s)

-- What a name that passes the check has.
pub validate_name_lem :
    (s : Bytes)
    → validate_name s ≡ none
    → (s ≢ []) × (index_byte s slash ≡ none) × (index_byte s at_sign ≡ none)
unfolding validate_name
validate_name_lem s h =
    let clean : index_any s ≡ none = elim (Option-cases (index_any s)) [
      | inl g ↦ g
      | inr (i, g) ↦ absurd (ground (arith, g))
    ] in
    let (no_slash, no_at) = index_any-none s clean in (λ e. ground (arith, e), no_slash, no_at)

-- The parts of "typ/kind/name", with what follows the second slash left whole.
parse_two_slashes :
    (typ kind name : Bytes)
    → index_byte typ slash ≡ none
    → index_byte kind slash ≡ none
    → index_byte name slash ≡ none
    → parse_cache (typ ++ (slash ∷ (kind ++ (slash ∷ name)))) ≡ parse_addr typ kind name
unfolding parse_cache
parse_two_slashes typ kind name ht hk hn =
    let tail = kind ++ (slash ∷ name) in
    rw
      (
        index_byte-append typ tail slash ht,
        drop-length-append typ tail slash,
        take-length-append typ (slash ∷ tail),
        index_byte-append kind name slash hk,
        drop-length-append kind name slash,
        take-length-append kind (slash ∷ name),
        hn,
      )
      refl

parse_addr_at :
    (typ kind name addr : Bytes)
    → index_byte name at_sign ≡ none
    → index_byte addr at_sign ≡ none
    → parse_addr typ kind (name ++ (at_sign ∷ addr))
      ≡ record { d8c = typ; kind = kind; name = name; direct_addr = addr }
parse_addr_at typ kind name addr hn ha =
    rw
      (
        index_byte-append name addr at_sign hn,
        drop-length-append name addr at_sign,
        take-length-append name (at_sign ∷ addr),
        ha,
      )
      refl

no_slash-append :
    (a b : Bytes) (c : ℕ)
    → nat_eqb c slash ≡ false
    → index_byte a slash ≡ none
    → index_byte b slash ≡ none
    → index_byte (a ++ (c ∷ b)) slash ≡ none
no_slash-append [] b c hc ha hb = ground arith
no_slash-append (x ∷ a) b c hc ha hb = ground (arith, no_slash-append a b c)

cluster_parsed :
    (kind name : Bytes)
    → validate_name kind ≡ none
    → validate_name name ≡ none
    → (new_cluster_actor_ref kind name).cache_parse
      ≡ record { d8c = default_act_cluster; kind = kind; name = name; direct_addr = [] }
unfolding new_cluster_actor_ref new_actor_ref_from_aid
cluster_parsed kind name hk hn =
    let (_, ks, _) = validate_name_lem kind hk in
    let (_, ns, na) = validate_name_lem name hn in
    parse_two_slashes default_act_cluster kind name refl ks ns ∙ rw na refl

-- A reference to an actor of a node is read back from its id: type direct, its kind, its name and
-- its address, and it counts as direct, not as a grain, where the kind and the name pass the check
-- and the address has neither separator.
pub new_direct-parses :
    (kind name addr : Bytes)
    → validate_name kind ≡ none
    → validate_name name ≡ none
    → index_byte addr slash ≡ none
    → index_byte addr at_sign ≡ none
    → ((new_direct_actor_ref kind name addr).cache_parse
        ≡ record { d8c = default_act_direct; kind = kind; name = name; direct_addr = addr })
      × (is_direct (new_direct_actor_ref kind name addr) ≡ true)
      × (is_cluster (new_direct_actor_ref kind name addr) ≡ false)
unfolding new_direct_actor_ref new_actor_ref_from_aid is_direct is_cluster
new_direct-parses kind name addr hk hn hs ha =
    let (_, ks, _) = validate_name_lem kind hk in
    let (_, ns, na) = validate_name_lem name hn in
    let parsed : parse_cache
          (default_act_direct ++ (slash ∷ (kind ++ (slash ∷ (name ++ (at_sign ∷ addr))))))
        ≡ record { d8c = default_act_direct; kind = kind; name = name; direct_addr = addr } =
      parse_two_slashes default_act_direct kind (name ++ (at_sign ∷ addr)) refl ks
        (no_slash-append name addr at_sign refl ns hs)
      ∙ parse_addr_at default_act_direct kind name addr na ha in
    (
      parsed,
      ap (λ (c : CacheParse). c.d8c == default_act_direct) parsed,
      ap (λ (c : CacheParse). c.d8c == default_act_cluster) parsed,
    )

-- `GetClusterActorRef` panics just where the kind or the name fails the check; else it gives a
-- reference that is read back from its id as a grain of that kind and name, with no address.
pub get_cluster-parses :
    (kind name : Bytes)
    → ((get_cluster_actor_ref kind name ≡ none)
        × ((validate_name kind ≢ none) ⊎ (validate_name name ≢ none)))
      ⊎ ((x : ActorId) × (get_cluster_actor_ref kind name ≡ some x)
          × (validate_name kind ≡ none)
          × (validate_name name ≡ none)
          × (x.cache_parse
              ≡ record { d8c = default_act_cluster; kind = kind; name = name; direct_addr = [] })
          × (is_cluster x ≡ true)
          × (is_direct x ≡ false))
unfolding get_cluster_actor_ref is_cluster is_direct
get_cluster-parses kind name = elim (Option-cases (validate_name kind)) [
  | inr (e, hk) ↦ inl (rw hk refl, inl (λ h. cc))
  | inl hk ↦ elim (Option-cases (validate_name name)) [
    | inr (e, hn) ↦ inl (rw (hk, hn) refl, inr (λ h. cc))
    | inl hn ↦
        let parsed = cluster_parsed kind name hk hn in
        inr (
          new_cluster_actor_ref kind name,
          rw (hk, hn) refl,
          hk,
          hn,
          parsed,
          ap (λ (c : CacheParse). c.d8c == default_act_cluster) parsed,
          ap (λ (c : CacheParse). c.d8c == default_act_direct) parsed,
        )
  ]
]
