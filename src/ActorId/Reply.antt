-- ===== src/ActorId/Reply.antt =====
-- reply_ref.go: the reference of an Ask's sender, beside what another node makes of its id.
use grain.Base.{
  ℕ, suc, ◌+◌, ◌-◌, ◌*◌, ◌^◌, ◌≤◌, ◌<◌, ◌≡◌, ◌≢◌, refl, inl, inr, Bool, true, false, none, some, [],
  ◌∷◌, ◌++◌, All, ltb, if◌then◌else◌, Bytes, Bool-cases, arith,
}
use grain.Base.Decimal.{
  format_uint, read_digits, is_digit, read-digits, digits-AllDigits, digits-nonempty,
}
use grain.ActorId.{
  slash, at_sign, default_act_direct, default_reply_kind, index_byte, index_any, validate_name,
  ActorId, new_direct_actor_ref, new_actor_ref_from_aid, is_direct, is_cluster, is_ask,
}
use grain.ActorId.Roundtrip.{new_direct-parses}

-- `strconv.ParseUint(s, 10, 64)` less its error: 0 where a byte is no digit, and the largest uint64
-- once the digits so far pass it
abbrev pub parse_uint64 : (n : ℕ) → Bytes → ℕ
parse_uint64 n [] = n
parse_uint64 n (b ∷ s) =
    let n1 = n * 10 + (b - 48) in
    let rest = parse_uint64 n1 s in
    if is_digit b then (if ltb n1 (2 ^ 64) then rest else 2 ^ 64 - 1) else 0

-- `askSnId` of a reference read from an id
unfoldable pub ask_sn_id : ActorId → ℕ
ask_sn_id x = parse_uint64 0 x.cache_parse.name

-- `replyRef`
pub record ReplyRef : Type 0 where
  pub sn_id : ℕ
  pub addr : Bytes

-- its `GetId`
unfoldable pub get_id : ReplyRef → Bytes
get_id r =
    default_act_direct
    ++ (slash ∷ (default_reply_kind ++ (slash ∷ (format_uint r.sn_id ++ (at_sign ∷ r.addr)))))

-- What routing asks of an `ActorRef`.
pub record Ref : Type 0 where
  pub get_kind : Bytes
  pub get_name : Bytes
  pub get_direct_addr : Bytes
  pub direct : Bool
  pub cluster : Bool
  pub ask : Bool
  pub sn : ℕ

-- the methods of `replyRef`
unfoldable pub of_reply_ref : ReplyRef → Ref
of_reply_ref r = record {
  get_kind = default_reply_kind;
  get_name = format_uint r.sn_id;
  get_direct_addr = r.addr;
  direct = true;
  cluster = false;
  ask = true;
  sn = r.sn_id;
}

-- the methods of `actorIdWrapper`
unfoldable pub of_actor_id : ActorId → Ref
of_actor_id x = record {
  get_kind = x.cache_parse.kind;
  get_name = x.cache_parse.name;
  get_direct_addr = x.cache_parse.direct_addr;
  direct = is_direct x;
  cluster = is_cluster x;
  ask = is_ask x;
  sn = ask_sn_id x;
}

no_separator : (l : Bytes) → All (λ b. (48 ≤ b) × (b ≤ 57)) l → index_any l ≡ none
no_separator [] h = refl
no_separator (b ∷ l) (d, h) = ground (arith, d, no_separator l h)

digits_are_name : (l : Bytes) → l ≢ [] → All (λ b. (48 ≤ b) × (b ≤ 57)) l → validate_name l ≡ none
unfolding validate_name
digits_are_name [] ne h = absurd (ne refl)
digits_are_name (b ∷ l) ne h = let clean = no_separator (b ∷ l) h in rw clean refl

-- the decimal text of a number is a name
pub format_uint-name : (n : ℕ) → validate_name (format_uint n) ≡ none
format_uint-name n =
    digits_are_name (format_uint n) (digits-nonempty n n) (digits-AllDigits (suc n) n)

pub reply_is_name : validate_name default_reply_kind ≡ none
unfolding validate_name
reply_is_name = refl

grows : (acc n : ℕ) (s : Bytes) → read_digits acc s ≡ some n → acc ≤ n
grows acc n [] h = ground (arith, h)
grows acc n (b ∷ s) h = elim (Bool-cases (is_digit b)) [
  | inl d ↦ omega (arith, grows (acc * 10 + (b - 48)) n s (ground (arith, h, d)))
  | inr d ↦ absurd (ground (arith, h, d))
]

-- a number that fits is read as it is
parse_uint64-read :
    (acc n : ℕ) (s : Bytes) → read_digits acc s ≡ some n → n < 2 ^ 64 → parse_uint64 acc s ≡ n
parse_uint64-read acc n [] h small = ground (arith, h)
parse_uint64-read acc n (b ∷ s) h small = elim (Bool-cases (is_digit b)) [
  | inl d ↦
      let rest : read_digits (acc * 10 + (b - 48)) s ≡ some n = ground (arith, h, d) in
      let fits = grows (acc * 10 + (b - 48)) n s rest in
      elim (Bool-cases (ltb (acc * 10 + (b - 48)) (2 ^ 64))) [
        | inl t ↦ rw (d, t) (parse_uint64-read (acc * 10 + (b - 48)) n s rest small)
        | inr f ↦ absurd (ground (arith, f, fits, small))
      ]
  | inr d ↦ absurd (ground (arith, h, d))
]

-- An Ask's reply finds its way back: what another node makes of the id of the Ask's sender answers all
-- that routing asks as the sender itself does, the number of the Ask included; where that is a uint64
-- and the address has neither separator.
pub of_actor_id-get_id :
    (r : ReplyRef)
    → r.sn_id < 2 ^ 64
    → index_byte r.addr slash ≡ none
    → index_byte r.addr at_sign ≡ none
    → of_actor_id (new_actor_ref_from_aid (get_id r)) ≡ of_reply_ref r
unfolding of_actor_id of_reply_ref get_id ask_sn_id new_direct_actor_ref is_ask is_direct is_cluster
of_actor_id-get_id r small hs ha =
    let (parsed, _, _) =
      new_direct-parses default_reply_kind (format_uint r.sn_id) r.addr reply_is_name
        (format_uint-name r.sn_id) hs ha in
    let number =
      parse_uint64-read 0 r.sn_id (format_uint r.sn_id)
        (read-digits (suc r.sn_id) r.sn_id (omega arith)) small in
    rw (parsed, number) refl
