-- ===== src/ActorId/Tests.antt =====
-- Runs of the id parser, and the results at concrete inputs.
use grain.Base.{arith, ◌≡◌, refl, true, some, [], ◌∷◌, ◌++◌, Bytes}
use grain.ActorId.{
  slash, at_sign, default_reply_kind, empty_parse, parse_cache, validate_name, name_contains,
  new_actor_ref_from_aid, new_direct_actor_ref, is_ask,
}
use grain.ActorId.Split.{split, of_parts, parse_cache-by_split}
use grain.Base.Decimal.{digits, format_uint}
use grain.ActorId.Reply.{
  ReplyRef, get_id, of_actor_id, of_reply_ref, parse_uint64, of_actor_id-get_id,
}

-- "bob" and "n:1"
abbrev bob : Bytes
bob = 98 ∷ 111 ∷ 98 ∷ []

abbrev node_addr : Bytes
node_addr = 110 ∷ 58 ∷ 49 ∷ []

-- "a/b/bob@n:1@z": a second at sign ends the address
abbrev garbled : Bytes
garbled = 97 ∷ slash ∷ 98 ∷ slash ∷ bob ++ (at_sign ∷ node_addr) ++ (at_sign ∷ 122 ∷ [])

garbled_parts :
    parse_cache garbled
    ≡ record { d8c = 97 ∷ []; kind = 98 ∷ []; name = bob; direct_addr = node_addr }
unfolding parse_cache
garbled_parts = refl

-- "a/b/c/d"
too_many : parse_cache (97 ∷ slash ∷ 98 ∷ slash ∷ 99 ∷ slash ∷ 100 ∷ []) ≡ empty_parse
unfolding parse_cache
too_many = refl

bad_name : validate_name (98 ∷ at_sign ∷ []) ≡ some (name_contains 1)
unfolding validate_name
bad_name = refl

asks : is_ask (new_direct_actor_ref default_reply_kind bob node_addr) ≡ true
unfolding is_ask new_direct_actor_ref new_actor_ref_from_aid parse_cache
asks = refl

parse_cache-by_split_example : parse_cache garbled ≡ of_parts (split slash garbled)
parse_cache-by_split_example = parse_cache-by_split garbled

-- the last Ask that a uint64 numbers
abbrev last_ask : ReplyRef
last_ask = record { sn_id = 18446744073709551615; addr = node_addr }

of_actor_id-get_id_example :
    of_actor_id (new_actor_ref_from_aid (get_id last_ask)) ≡ of_reply_ref last_ask
of_actor_id-get_id_example = of_actor_id-get_id last_ask (omega arith) refl refl

-- A number past uint64 is cut to the largest one, also where no digit follows it; other text is zero.
cut : parse_uint64 0 (format_uint 18446744073709551616 ++ (at_sign ∷ [])) ≡ 18446744073709551615
unfolding digits
cut = refl

no_number : parse_uint64 0 (49 ∷ 45 ∷ []) ≡ 0
no_number = refl
