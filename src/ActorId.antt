-- ===== src/ActorId.antt =====
-- actor_parse.go, actor_name.go, actor_wrapper.go and reply_ref.go: the text of an actor id,
-- "type/kind/name" with an optional "@addr", what may stand in one, and reading it back.
use grain.Base.Maybe.{maybe}
pub mod Split
pub mod Roundtrip
pub mod Reply
mod Tests
use grain.Base.{
  ℕ, zero, suc, ◌+◌, ◌*◌, ◌-◌, ◌/◌, ◌%◌, ◌^◌, Bool, true, false, not, ◌&&◌, ◌||◌, Option, none,
  some, List, [], ◌∷◌, ◌++◌, nat_eqb, ltb, leb, if◌then◌else◌, take, drop, Bytes, ◌==◌,
  bytes_comparable,
}

-- '/' and '@'
abbrev pub slash : ℕ
slash = 47

abbrev pub at_sign : ℕ
at_sign = 64

-- config.go: "direct", "cluster", "reply"
abbrev pub default_act_direct : Bytes
default_act_direct = 100 ∷ 105 ∷ 114 ∷ 101 ∷ 99 ∷ 116 ∷ []

abbrev pub default_act_cluster : Bytes
default_act_cluster = 99 ∷ 108 ∷ 117 ∷ 115 ∷ 116 ∷ 101 ∷ 114 ∷ []

abbrev pub default_reply_kind : Bytes
default_reply_kind = 114 ∷ 101 ∷ 112 ∷ 108 ∷ 121 ∷ []

-- `strings.IndexByte`; `none` is its -1
abbrev pub index_byte : Bytes → ℕ → Option ℕ
index_byte [] c = none
index_byte (b ∷ s) c =
    let rest = index_byte s c in if nat_eqb b c then some 0 else maybe none (λ i. some (suc i)) rest

pub record CacheParse : Type 0 where
  pub d8c : Bytes
  pub kind : Bytes
  pub name : Bytes
  pub direct_addr : Bytes

abbrev pub empty_parse : CacheParse
empty_parse = record { d8c = []; kind = []; name = []; direct_addr = [] }

-- the end of `parseCache`: the address off the last part
abbrev pub parse_addr : Bytes → Bytes → Bytes → CacheParse
parse_addr typ kind name =
    maybe (record { d8c = typ; kind = kind; name = name; direct_addr = [] })
      (λ k.
        let direct_addr = drop (k + 1) name in
        record {
          d8c = typ;
          kind = kind;
          name = take k name;
          direct_addr =
              maybe direct_addr (λ k2. take k2 direct_addr) (index_byte direct_addr at_sign);
        })
      (index_byte name at_sign)

unfoldable pub parse_cache : Bytes → CacheParse
parse_cache full_path =
    maybe empty_parse
      (λ i.
        let rest = drop (i + 1) full_path in
        maybe empty_parse
          (λ j.
            let name = drop (j + 1) rest in
            maybe (parse_addr (take i full_path) (take j rest) name) (λ _. empty_parse)
              (index_byte name slash))
          (index_byte rest slash))
      (index_byte full_path slash)

-- `strings.IndexAny(name, "/@")`; `none` is its -1
abbrev pub index_any : Bytes → Option ℕ
index_any [] = none
index_any (b ∷ s) =
    let rest = index_any s in
    if nat_eqb b slash || nat_eqb b at_sign then some 0 else maybe none (λ i. some (suc i)) rest

-- What is wrong with a name: the error without its text.
pub data NameError : Type 0 where
  name_is_empty : NameError
  name_contains : ℕ → NameError

-- `ValidateActorName` and `validateKindName`, which differ in the message; `none` is no error.
unfoldable pub validate_name : Bytes → Option NameError
validate_name name =
    if name == []
    then some name_is_empty
    else maybe none (λ i. some (name_contains i)) (index_any name)

-- `actorIdWrapper` less the system and the route cache
pub record ActorId : Type 0 where
  pub cache_parse : CacheParse
  pub full_path : Bytes

unfoldable pub new_actor_ref_from_aid : Bytes → ActorId
new_actor_ref_from_aid aid = record { cache_parse = parse_cache aid; full_path = aid }

pub new_direct_actor_ref : Bytes → Bytes → Bytes → ActorId
new_direct_actor_ref kind name addr =
    new_actor_ref_from_aid
      (default_act_direct ++ (slash ∷ (kind ++ (slash ∷ (name ++ (at_sign ∷ addr))))))

unfoldable pub new_cluster_actor_ref : Bytes → Bytes → ActorId
new_cluster_actor_ref kind name =
    new_actor_ref_from_aid (default_act_cluster ++ (slash ∷ (kind ++ (slash ∷ name))))

unfoldable pub is_direct : ActorId → Bool
is_direct x = x.cache_parse.d8c == default_act_direct

unfoldable pub is_cluster : ActorId → Bool
is_cluster x = x.cache_parse.d8c == default_act_cluster

unfoldable pub is_ask : ActorId → Bool
is_ask x = x.cache_parse.kind == default_reply_kind

-- `GetClusterActorRef`; `none` is its panic
pub get_cluster_actor_ref : Bytes → Bytes → Option ActorId
get_cluster_actor_ref kind name =
    maybe (maybe (some (new_cluster_actor_ref kind name)) (λ _. none) (validate_name name))
      (λ _. none) (validate_name kind)
