-- ===== src/Watch/Table.antt =====
-- The member table of a node against what etcd holds.
use grain.Base.{
  ℕ, ◌≡◌, refl, sym, ap, ◌∙◌, inl, inr, Option, List, [], ◌∷◌, ◌++◌, All, if◌then◌else◌, Bytes,
  ◌==◌, ==_self, ==_cases, bytes_comparable, Bool-cases, Option-cases,
}
use grain.Base.Decimal.{format_uint}
use grain.Base.Maybe.{maybe, ◌>>=◌}
use grain.ActorId.{slash}
use grain.AddrHash.{NodeState}
use grain.SafeMap.{items_get}
use grain.SafeMap.Assoc.{get-set, get-delete}
use grain.Routes.{
  Provider, EventType, put_event, delete_event, after_last_slash, apply_member_locked,
  apply_members, parse_watch,
}
use grain.Node.{get_member_path, member_segment}
use grain.Node.Ids.{after_last_slash-get_member_path}
use grain.Watch.{Event, parse_events, as_puts}
use grain.Watch.History.{written, last_write}

-- what the table says of a node
abbrev pub reading : Provider → ℕ → Option NodeState
reading x id = items_get x.node_map (format_uint id)

module _ (cluster_name : Bytes) where
  -- the key of a node
  abbrev pub IsMember : Bytes → Type 0
  IsMember key = (k : ℕ) × (key ≡ get_member_path cluster_name k)

  same_entry :
      (key : Bytes) (id : ℕ)
      → IsMember key
      → (after_last_slash key == format_uint id) ≡ (key == get_member_path cluster_name id)
  unfolding get_member_path
  same_entry key id (k, here) =
      let entry : after_last_slash key ≡ format_uint k =
        ap after_last_slash here ∙ after_last_slash-get_member_path cluster_name k in
      elim (==_cases key (get_member_path cluster_name id)) [
        | inl e ↦
            let found : after_last_slash key ≡ format_uint id =
              ap after_last_slash e ∙ after_last_slash-get_member_path cluster_name id in
            ap (λ l. l == format_uint id) found
            ∙ ==_self (format_uint id)
            ∙ sym (
                ap (λ l. l == get_member_path cluster_name id) e
                ∙ ==_self (get_member_path cluster_name id))
        | inr other ↦ elim (==_cases (after_last_slash key) (format_uint id)) [
          | inr f ↦ f ∙ sym other
          | inl e ↦ absurd (
              let key_of : Bytes → Bytes =
                λ d. slash ∷ (cluster_name ++ (slash ∷ (member_segment ++ (slash ∷ d)))) in
              let same : key ≡ get_member_path cluster_name id = here ∙ ap key_of (sym entry ∙ e) in
              let hit =
                ap (λ l. l == get_member_path cluster_name id) same
                ∙ ==_self (get_member_path cluster_name id) in
              cc (hit, other))
        ]
      ]

  module _ (unmarshal : Bytes → Option NodeState) where
    -- what the table makes of a member's value; a key that is gone, or not JSON, is no member
    abbrev pub decoded : Option Bytes → Option NodeState
    decoded w = w >>= unmarshal

    apply-reading :
        (op : EventType) (key value : Bytes) (x : Provider) (id : ℕ)
        → IsMember key
        → reading (apply_member_locked unmarshal op key value x) id ≡ (
            if key == get_member_path cluster_name id
            then decoded (written op value)
            else reading x id)
    unfolding apply_member_locked
    apply-reading delete_event key value x id m =
        get-delete x.node_map (after_last_slash key) (format_uint id)
        ∙ rw (same_entry key id m) refl
    apply-reading put_event key value x id m = elim (Option-cases (unmarshal value)) [
      | inl h ↦ rw h (
          get-delete x.node_map (after_last_slash key) (format_uint id)
          ∙ rw (same_entry key id m) refl)
      | inr (a, h) ↦ rw h (
          get-set x.node_map (after_last_slash key) a (format_uint id)
          ∙ rw (same_entry key id m) refl)
    ]

    pub parse_events-reading :
        (es : List Event) (x : Provider) (id : ℕ)
        → All (λ (e : Event). IsMember e.key) es
        → reading (parse_events unmarshal es x) id
          ≡ maybe (reading x id) decoded (last_write es (get_member_path cluster_name id))
    unfolding parse_watch
    parse_events-reading [] x id m = refl
    parse_events-reading (e ∷ es) x id (m, ms) =
        let this = apply-reading e.event_type e.key e.value x id m in
        let rest =
          parse_events-reading es (parse_watch unmarshal e.event_type e.key e.value x) id ms in
        elim (Option-cases (last_write es (get_member_path cluster_name id))) [
          | inl h ↦ rw h (
              rest
              ∙ rw h (
                  this ∙ elim (Bool-cases (e.key == get_member_path cluster_name id)) [
                    | inl t ↦ rw t refl
                    | inr f ↦ rw f refl
                  ]))
          | inr (w, h) ↦ rw h (rest ∙ rw h refl)
        ]

    pub apply_members-reading :
        (kvs : List (Bytes × Bytes)) (x : Provider) (id : ℕ)
        → All (λ (kv : Bytes × Bytes). IsMember kv.0) kvs
        → reading (apply_members unmarshal kvs x) id
          ≡ maybe
              (reading x id)
              decoded
              (last_write (as_puts kvs) (get_member_path cluster_name id))
    apply_members-reading [] x id m = refl
    apply_members-reading ((key, value) ∷ kvs) x id (m, ms) =
        let this = apply-reading put_event key value x id m in
        let rest =
          apply_members-reading kvs (apply_member_locked unmarshal put_event key value x) id ms in
        elim (Option-cases (last_write (as_puts kvs) (get_member_path cluster_name id))) [
          | inl h ↦ rw h (
              rest
              ∙ rw h (
                  this ∙ elim (Bool-cases (key == get_member_path cluster_name id)) [
                    | inl t ↦ rw t refl
                    | inr f ↦ rw f refl
                  ]))
          | inr (w, h) ↦ rw h (rest ∙ rw h refl)
        ]
