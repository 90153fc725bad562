-- ===== src/EventStream/Listed.antt =====
-- What a node lists for an event, against the writes under the keys of the event stream.
pub mod Calls
use grain.Base.{
  ℕ, zero, suc, ◌^◌, ◌<◌, ◌≡◌, ◌≢◌, refl, sym, ap, ◌∙◌, subst, Bool, true, false, not, ◌&&◌, ◌||◌,
  Option, none, some, List, [], ◌∷◌, ◌++◌, All, if◌then◌else◌, Bytes, ◌==◌, ==_self, ==_cases,
  bytes_comparable, nat_comparable, Bool-cases, Option-cases, inl, inr, arith,
}
use grain.Base.Decimal.{format_uint}
use grain.Base.Maybe.{maybe, ◌>>=◌}
use grain.ActorId.{slash, index_byte, ActorId, new_actor_ref_from_aid}
use grain.SafeMap.{items_get, items_set, items_delete}
use grain.SafeMap.Assoc.{get-set, get-delete}
use grain.Routes.{EventType, put_event, delete_event}
use grain.Watch.{Event}
use grain.Watch.History.{written, last_write}
use grain.EventStream.{
  EventStream, new_event_stream, get_or_create, split_n, trim_prefix, atoi_uint64,
  get_event_stream_watch_path, get_event_name_path, event_stream_watch_name, apply_entry,
  parse_watch_event_stream,
}
use grain.EventStream.Key.{
  plain_path, get_event_name_path-plain, parts_of_plain, atoi-format,
  parse_watch-get_event_name_path,
}

-- the node `n` among those of an event
abbrev pub listed : EventStream → Bytes → ℕ → Option ActorId
listed x e n = items_get (get_or_create x.event_stream_maps e) n

-- `f`, which `watchEventStream` gives to the provider: an error changes nothing
abbrev pub watch_callback : EventStream → Event → EventStream
watch_callback x ev = maybe x (λ y. y) (parse_watch_event_stream x ev.event_type ev.key ev.value)

-- its calls, in order
abbrev pub watch_callbacks : List Event → EventStream → EventStream
watch_callbacks [] x = x
watch_callbacks (ev ∷ es) x = watch_callbacks es (watch_callback x ev)

-- a value that is an actor's id, where there is one
abbrev pub is_readable : EventType → Bytes → Bool
is_readable delete_event value = true
is_readable put_event value =
    let ref = new_actor_ref_from_aid value in
    not (ref.cache_parse.kind == [] || ref.cache_parse.name == [])

abbrev pub ref_of : Option Bytes → Option ActorId
ref_of w = w >>= (λ aid. some (new_actor_ref_from_aid aid))

set-listed :
    (x : EventStream) (e' e : Bytes) (actors : List (ℕ × ActorId)) (n : ℕ)
    → listed (record x { event_stream_maps = items_set x.event_stream_maps e' actors }) e n
      ≡ (if e' == e then items_get actors n else listed x e n)
set-listed x e' e actors n = elim (Bool-cases (e' == e)) [
  | inl t ↦ rw (get-set x.event_stream_maps e' actors e, t) refl
  | inr f ↦ rw (get-set x.event_stream_maps e' actors e, f) refl
]

pub apply-listed :
    (x : EventStream) (op : EventType) (e' e value : Bytes) (k n : ℕ)
    → is_readable op value ≡ true
    → listed (maybe x (λ y. y) (apply_entry x op e' k value)) e n
      ≡ (if (e' == e) && (k == n) then ref_of (written op value) else listed x e n)
apply-listed x delete_event e' e value k n r =
    let ref = new_actor_ref_from_aid value in
    elim (Option-cases (items_get x.event_stream_maps e')) [
      | inl h ↦ elim (==_cases e' e) [
        | inr f ↦ rw (h, f) refl
        | inl same ↦
            let nobody : listed x e n ≡ none = subst (λ e. listed x e n ≡ none) same (rw h refl) in
            elim (Bool-cases ((e' == e) && (k == n))) [
              | inl t ↦ rw (h, t) nobody
              | inr g ↦ rw (h, g) refl
            ]
      ]
      | inr (actors, h) ↦ rw h (
          set-listed x e' e (items_delete actors k) n ∙ elim (==_cases e' e) [
            | inr f ↦ rw f refl
            | inl same ↦
                let here : listed x e n ≡ items_get actors n =
                  subst (λ e. listed x e n ≡ items_get actors n) same (rw h refl) in
                rw (ap (λ c. c == e) same ∙ ==_self e, get-delete actors k n, here) refl
          ])
    ]
apply-listed x put_event e' e value k n r =
    let ref = new_actor_ref_from_aid value in
    let good : (ref.cache_parse.kind == [] || ref.cache_parse.name == []) ≡ false =
      ground (arith, r) in
    rw good (
      set-listed x e' e (items_set (get_or_create x.event_stream_maps e') k ref) n
      ∙ elim (==_cases e' e) [
        | inr f ↦ rw f refl
        | inl same ↦
            let here : items_get (get_or_create x.event_stream_maps e') n ≡ listed x e n =
              ap (λ e. listed x e n) same in
            rw
              (
                ap (λ c. c == e) same ∙ ==_self e,
                get-set (get_or_create x.event_stream_maps e') k ref n,
                here,
              )
              refl
      ])
