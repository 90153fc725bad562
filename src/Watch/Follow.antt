-- ===== src/Watch/Follow.antt =====
-- From the load of a start on, the watch brings the member table to what etcd holds, whatever
-- `register` did to it between the two.
use grain.Base.{
  ℕ, ◌≡◌, ◌⊎◌, refl, sym, ap, ◌∙◌, subst, inl, inr, true, Option, none, some, List, [], ◌∷◌, ◌++◌,
  All, append_assoc, Bytes, ==_cases, bytes_comparable, Option-cases,
}
use grain.Base.Maybe.{maybe}
use grain.Base.Decimal.{format_uint}
use grain.ActorId.{slash}
use grain.AddrHash.{NodeState}
use grain.Routes.{
  Provider, put_event, apply_member_locked, apply_members, parse_watch, publish_nodes_locked,
  get_nodes,
}
use grain.Routes.Fresh.{Published}
use grain.Node.{get_member_path, member_segment}
use grain.Watch.{Event, get_member_prefix, parse_events}
use grain.Watch.History.{
  last_write, state_of, has_prefix, GotAll, last_write-append, last_write-values, has_prefix-append,
}
use grain.Watch.Table.{reading, IsMember, decoded, parse_events-reading, apply_members-reading}

-- What `register` does to the table: each lost race loads it again, a claim writes its own key.
pub data Act : Type 0 where
  reload : List (Bytes × Bytes) → Act
  claim : (id : ℕ) (value : Bytes) → Act

pub publish-Published : (x : Provider) → Published (publish_nodes_locked x)
unfolding get_nodes
publish-Published x = record { together = refl }

module _ (cluster_name : Bytes) where
  -- A Get of the members after the events `es`
  abbrev pub MembersAt : List Event → List (Bytes × Bytes) → Type 0
  MembersAt es kvs =
      GotAll (get_member_prefix cluster_name) es kvs
      × All (λ (kv : Bytes × Bytes). IsMember cluster_name kv.0) kvs

  -- Where `later` follows the events `earlier`: a load is of some moment on the way, and a claim's
  -- key was written on the way.
  abbrev pub Fits : (earlier later : List Event) → Act → Type 0
  Fits earlier later (reload kvs) =
      (early : List Event) × (rest : List Event) × (later ≡ early ++ rest)
      × MembersAt (earlier ++ early) kvs
  Fits earlier later (claim id value) =
      (w : Option Bytes) × (last_write later (get_member_path cluster_name id) ≡ some w)

  pub under_prefix :
      (id : ℕ)
      → has_prefix (get_member_prefix cluster_name) (get_member_path cluster_name id) ≡ true
  unfolding get_member_prefix get_member_path
  under_prefix id =
      let tail : Bytes = slash ∷ (member_segment ++ (slash ∷ [])) in
      subst (λ key. has_prefix (slash ∷ (cluster_name ++ tail)) key ≡ true)
        (ap (λ s. slash ∷ s) (append_assoc cluster_name tail (format_uint id)))
        (has_prefix-append (slash ∷ (cluster_name ++ tail)) (format_uint id))

module _ (cluster_name : Bytes) (unmarshal : Bytes → Option NodeState) where
  abbrev pub act : Act → Provider → Provider
  act (reload kvs) x = publish_nodes_locked (apply_members unmarshal kvs x)
  act (claim id value) x = parse_watch unmarshal put_event (get_member_path cluster_name id) value x

  abbrev pub act_all : List Act → Provider → Provider
  act_all [] x = x
  act_all (a ∷ acts) x = act_all acts (act a x)

  -- What the watch has still to bring, or the table has it.
  abbrev pub Settled : (earlier later : List Event) → Provider → ℕ → Type 0
  Settled earlier later x id =
      ((w : Option Bytes) × (last_write later (get_member_path cluster_name id) ≡ some w))
      ⊎ (reading x id
          ≡ decoded cluster_name unmarshal (state_of earlier (get_member_path cluster_name id)))

  pub loaded-reading :
      (es : List Event) (kvs : List (Bytes × Bytes)) (x : Provider) (id : ℕ)
      → MembersAt cluster_name es kvs
      → reading (apply_members unmarshal kvs x) id
        ≡ maybe (reading x id) (λ v. unmarshal v) (state_of es (get_member_path cluster_name id))
  loaded-reading es kvs x id (snapshot, m) =
      let path = get_member_path cluster_name id in
      let put =
        last_write-values path kvs (state_of es path)
          (snapshot path ∙ rw (under_prefix cluster_name id) refl) in
      apply_members-reading cluster_name unmarshal kvs x id m
      ∙ rw put
          (elim (Option-cases (state_of es path)) [ inl h ↦ rw h refl | inr (v, h) ↦ rw h refl ])

  -- where nothing is written on the way, a load there gives what was there before
  unchanged :
      (earlier early rest : List Event) (key : Bytes)
      → last_write (early ++ rest) key ≡ none
      → state_of (earlier ++ early) key ≡ state_of earlier key
  unchanged earlier early rest key h =
      let split = last_write-append early rest key in
      elim (Option-cases (last_write early key)) [
        | inl n ↦ rw (last_write-append earlier early key, n) refl
        | inr (w, n) ↦ elim (Option-cases (last_write rest key)) [
          | inl r ↦ absurd (
              let wrong : last_write (early ++ rest) key ≡ some w = split ∙ rw (r, n) refl in
              cc (wrong, h))
          | inr (v, r) ↦ absurd (
              let wrong : last_write (early ++ rest) key ≡ some v = split ∙ rw (r) refl in
              cc (wrong, h))
        ]
      ]

  claim-Settled :
      (earlier later : List Event) (k : ℕ) (value : Bytes) (x : Provider) (id : ℕ)
      → Fits cluster_name earlier later (claim k value)
      → Settled earlier later x id
      → Settled earlier later (act (claim k value) x) id
  claim-Settled earlier later k value x id f (inl s) = inl s
  claim-Settled earlier later k value x id (w, f) (inr s) =
      let path = get_member_path cluster_name in
      elim (==_cases (path k) (path id)) [
        | inl same ↦ inl (w, ap (last_write later) (sym same) ∙ f)
        | inr other ↦
            let put : Event = record { event_type = put_event; key = path k; value = value } in
            inr (
              parse_events-reading cluster_name unmarshal (put ∷ []) x id ((k, refl), tt)
              ∙ rw other s)
      ]

  reload-Settled :
      (earlier later : List Event) (kvs : List (Bytes × Bytes)) (x : Provider) (id : ℕ)
      → Fits cluster_name earlier later (reload kvs)
      → Settled earlier later x id
      → Settled earlier later (act (reload kvs) x) id
  reload-Settled earlier later kvs x id f (inl s) = inl s
  reload-Settled earlier later kvs x id (early, rest, split, at) (inr s) =
      let path = get_member_path cluster_name id in
      elim (Option-cases (last_write later path)) [
        | inr (w, h) ↦ inl (w, h)
        | inl h ↦
            let same =
              unchanged earlier early rest path (ap (λ l. last_write l path) (sym split) ∙ h) in
            inr (
              loaded-reading (earlier ++ early) kvs x id at
              ∙ rw same (elim (Option-cases (state_of earlier path)) [
                | inl e ↦ rw e (s ∙ rw e refl)
                | inr (v, e) ↦ rw e refl
              ]))
      ]

  pub act_all-Settled :
      (earlier later : List Event) (acts : List Act) (x : Provider) (id : ℕ)
      → All (Fits cluster_name earlier later) acts
      → Settled earlier later x id
      → Settled earlier later (act_all acts x) id
  act_all-Settled earlier later [] x id f s = s
  act_all-Settled earlier later (claim k value ∷ acts) x id (f, fs) s =
      act_all-Settled earlier later acts (act (claim k value) x) id fs
        (claim-Settled earlier later k value x id f s)
  act_all-Settled earlier later (reload kvs ∷ acts) x id (f, fs) s =
      act_all-Settled earlier later acts (act (reload kvs) x) id fs
        (reload-Settled earlier later kvs x id f s)

  pub act_all-Published :
      (acts : List Act) (x : Provider) → Published x → Published (act_all acts x)
  unfolding parse_watch
  act_all-Published [] x p = p
  act_all-Published (claim k value ∷ acts) x p = act_all-Published acts _ (
      publish-Published
        (apply_member_locked unmarshal put_event (get_member_path cluster_name k) value x))
  act_all-Published (reload kvs ∷ acts) x p =
      act_all-Published acts _ (publish-Published (apply_members unmarshal kvs x))

  pub parse_events-Published :
      (es : List Event) (x : Provider) → Published x → Published (parse_events unmarshal es x)
  unfolding parse_watch
  parse_events-Published [] x p = p
  parse_events-Published (e ∷ es) x p =
      parse_events-Published es _
        (publish-Published (apply_member_locked unmarshal e.event_type e.key e.value x))
