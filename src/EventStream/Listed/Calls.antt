-- ===== src/EventStream/Listed/Calls.antt =====
-- The calls of the watch, key by key.
use grain.Base.{
  ℕ, ◌^◌, ◌<◌, ◌≡◌, ◌≢◌, refl, sym, ap, ◌∙◌, Bool, true, false, ◌&&◌, Option, none, some, List, [],
  ◌∷◌, All, if◌then◌else◌, Bytes, ◌==◌, ==_self, ==_cases, bytes_comparable, nat_comparable,
  Bool-cases, Option-cases, inl, inr,
}
use grain.Base.Decimal.{format_uint}
use grain.Base.Maybe.{maybe, ◌>>=◌}
use grain.ActorId.{slash, index_byte, new_actor_ref_from_aid}
use grain.Watch.{Event}
use grain.Watch.History.{written, last_write}
use grain.EventStream.{
  EventStream, new_event_stream, split_n, trim_prefix, atoi_uint64, get_event_stream_watch_path,
  get_event_name_path, parse_watch_event_stream,
}
use grain.EventStream.Key.{
  get_event_name_path-plain, parts_of_plain, atoi-format, parse_watch-get_event_name_path,
}
use grain.EventStream.Listed.{
  listed, watch_callback, watch_callbacks, is_readable, ref_of, apply-listed,
}

and_false : (b : Bool) → (b && false) ≡ false
and_false false = refl
and_false true = refl

-- the parts of a key that name an event and a node
abbrev event_and_node : List Bytes → Option (Bytes × ℕ)
event_and_node (c ∷ s ∷ event_name ∷ id ∷ []) = atoi_uint64 id >>= (λ n. some (event_name, n))
event_and_node _ = none

module _ (cluster_name : Bytes) where
  -- the key under which the node `n` registers for an event
  abbrev pub entry_path : Bytes → ℕ → Bytes
  entry_path event_name n =
      get_event_name_path
        (new_event_stream (new_actor_ref_from_aid []) n (get_event_stream_watch_path cluster_name))
        event_name

  -- What `registerEventStream` and `unregisterEventStream` write: an event without a slash in its
  -- name, under the number of a node, with an actor's id.
  abbrev pub IsEntry : Event → Type 0
  IsEntry ev =
      (event_name : Bytes) × (n : ℕ) × (ev.key ≡ entry_path event_name n)
      × (index_byte event_name slash ≡ none)
      × (n < 2 ^ 63)
      × (is_readable ev.event_type ev.value ≡ true)

module _ (cluster_name : Bytes) where
  path-parts :
      (e : Bytes) (n : ℕ)
      → cluster_name ≢ []
      → index_byte cluster_name slash ≡ none
      → index_byte e slash ≡ none
      → n < 2 ^ 63
      → event_and_node (split_n 3 (trim_prefix (entry_path cluster_name e n))) ≡ some (e, n)
  unfolding new_event_stream
  path-parts e n named ck ek small =
      ap (λ p. event_and_node (split_n 3 (trim_prefix p)))
        (get_event_name_path-plain
          (new_event_stream (new_actor_ref_from_aid []) n
            (get_event_stream_watch_path cluster_name))
          cluster_name e refl named ck ek)
      ∙ ap event_and_node (parts_of_plain cluster_name e (format_uint n) ck ek)
      ∙ ap (λ o. o >>= (λ n. some (e, n))) (atoi-format n small)

  same_path :
      (e' e : Bytes) (k n : ℕ)
      → cluster_name ≢ []
      → index_byte cluster_name slash ≡ none
      → index_byte e' slash ≡ none
      → index_byte e slash ≡ none
      → k < 2 ^ 63
      → n < 2 ^ 63
      → (entry_path cluster_name e' k == entry_path cluster_name e n) ≡ ((e' == e) && (k == n))
  same_path e' e k n named ck ek' ek sk sn =
      elim (==_cases (entry_path cluster_name e' k) (entry_path cluster_name e n)) [
        | inl same ↦
            let parts : some (e', k) ≡ some (e, n) =
              sym (path-parts e' k named ck ek' sk)
              ∙ ap (λ p. event_and_node (split_n 3 (trim_prefix p))) same
              ∙ path-parts e n named ck ek sn in
            let es : e' ≡ e = cc parts in
            let ns : k ≡ n = cc parts in
            ap (λ p. p == entry_path cluster_name e n) same
            ∙ ==_self (entry_path cluster_name e n)
            ∙ sym (rw (ap (λ c. c == e) es ∙ ==_self e, ap (λ c. c == n) ns ∙ ==_self n) refl)
        | inr other ↦ elim (==_cases e' e) [
          | inr f ↦ other ∙ rw f refl
          | inl es ↦ elim (==_cases k n) [
            | inr f ↦ other ∙ rw f (sym (and_false (e' == e)))
            | inl ns ↦
                let hit =
                  ap (λ c. entry_path cluster_name c k == entry_path cluster_name e n) es
                  ∙ ap (λ c. entry_path cluster_name e c == entry_path cluster_name e n) ns
                  ∙ ==_self (entry_path cluster_name e n) in
                absurd (cc (hit, other))
          ]
        ]
      ]

  callback-listed :
      (ev : Event) (x : EventStream) (e' e : Bytes) (k n : ℕ)
      → cluster_name ≢ []
      → index_byte cluster_name slash ≡ none
      → index_byte e' slash ≡ none
      → index_byte e slash ≡ none
      → k < 2 ^ 63
      → n < 2 ^ 63
      → ev.key ≡ entry_path cluster_name e' k
      → is_readable ev.event_type ev.value ≡ true
      → listed (watch_callback x ev) e n ≡ (
          if ev.key == entry_path cluster_name e n
          then ref_of (written ev.event_type ev.value)
          else listed x e n)
  unfolding new_event_stream
  callback-listed ev x e' e k n named ck ek' ek sk sn at r =
      ap (λ p. listed (maybe x (λ y. y) (parse_watch_event_stream x ev.event_type p ev.value)) e n)
        at
      ∙ ap (λ o. listed (maybe x (λ y. y) o) e n)
          (parse_watch-get_event_name_path
            (new_event_stream (new_actor_ref_from_aid []) k
              (get_event_stream_watch_path cluster_name))
            x ev.event_type cluster_name e' ev.value refl named ck ek' sk)
      ∙ apply-listed x ev.event_type e' e ev.value k n r
      ∙ ap (λ b. if b then ref_of (written ev.event_type ev.value) else listed x e n)
          (sym (
            ap (λ p. p == entry_path cluster_name e n) at
            ∙ same_path e' e k n named ck ek' ek sk sn))

  pub watch_callbacks-listed :
      (es : List Event) (x : EventStream) (e : Bytes) (n : ℕ)
      → cluster_name ≢ []
      → index_byte cluster_name slash ≡ none
      → index_byte e slash ≡ none
      → n < 2 ^ 63
      → All (IsEntry cluster_name) es
      → listed (watch_callbacks es x) e n
        ≡ maybe (listed x e n) ref_of (last_write es (entry_path cluster_name e n))
  watch_callbacks-listed [] x e n named ck ek sn h = refl
  watch_callbacks-listed (ev ∷ es) x e n named ck ek sn ((e', k, at, ek', sk, r), hs) =
      let step = callback-listed ev x e' e k n named ck ek' ek sk sn at r in
      let rest = watch_callbacks-listed es (watch_callback x ev) e n named ck ek sn hs in
      elim (Option-cases (last_write es (entry_path cluster_name e n))) [
        | inl h ↦ rw h (
            rest
            ∙ rw h (
                step ∙ elim (Bool-cases (ev.key == entry_path cluster_name e n)) [
                  | inl t ↦ rw t refl
                  | inr f ↦ rw f refl
                ]))
        | inr (w, h) ↦ rw h (rest ∙ rw h refl)
      ]
