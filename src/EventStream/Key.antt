-- ===== src/EventStream/Key.antt =====
-- The key under which a node registers for an event, and how the other nodes read it.
use grain.Base.{
  ℕ, suc, ◌^◌, ◌≤◌, ◌<◌, ◌≡◌, ◌≢◌, refl, ap, subst, ◌∙◌, false, none, some, [], ◌∷◌, ◌++◌,
  append_assoc, append-nil, All, nat_eqb, Bytes, arith,
}
use grain.Base.Decimal.{format_uint, parse_uint, parse-format, digits-AllDigits, digits-nonempty}
use grain.Base.Maybe.{◌>>=◌}
use grain.ActorId.{slash, index_byte}
use grain.ActorId.Roundtrip.{index_byte-append, take-length-append, drop-length-append}
use grain.Routes.{EventType}
use grain.EventStream.{
  EventStream, replace_double, split_n, trim_prefix, atoi_uint64, event_stream_watch_name,
  get_event_stream_watch_path, get_event_name_path, apply_entry, with_parts,
  parse_watch_event_stream,
}

no_slash_digits : (l : Bytes) → All (λ b. (48 ≤ b) × (b ≤ 57)) l → index_byte l slash ≡ none
no_slash_digits [] h = refl
no_slash_digits (b ∷ l) (d, h) = ground (arith, d, no_slash_digits l h)

-- A part without a slash is left as it is.
replace-part :
    (xs ys : Bytes)
    → index_byte xs slash ≡ none
    → replace_double (xs ++ ys) ≡ xs ++ replace_double ys
replace-part [] ys h = refl
replace-part (b ∷ []) [] h = refl
replace-part (b ∷ []) (c ∷ ys) h = ground (arith, h)
replace-part (b ∷ c ∷ xs) ys h =
    let (plain, rest) = first_not b (c ∷ xs) h in
    rw plain (ap (λ t. b ∷ t) (replace-part (c ∷ xs) ys rest))
  where
    first_not :
        (b : ℕ) (s : Bytes)
        → index_byte (b ∷ s) slash ≡ none
        → (nat_eqb b slash ≡ false) × (index_byte s slash ≡ none)
    first_not b s h = ground (arith, h)

-- A slash before such a part stays alone.
replace-slash_part :
    (b : ℕ) (xs ys : Bytes)
    → index_byte (b ∷ xs) slash ≡ none
    → replace_double (slash ∷ ((b ∷ xs) ++ ys)) ≡ slash ∷ ((b ∷ xs) ++ replace_double ys)
replace-slash_part b xs ys h =
    let plain : nat_eqb b slash ≡ false = ground (arith, h) in
    rw plain (ap (λ t. slash ∷ t) (replace-part (b ∷ xs) ys h))

split-part :
    (n : ℕ) (xs ys : Bytes)
    → index_byte xs slash ≡ none
    → split_n (suc n) (xs ++ (slash ∷ ys)) ≡ xs ∷ split_n n ys
split-part n xs ys h =
    rw
      (
        index_byte-append xs ys slash h,
        take-length-append xs (slash ∷ ys),
        drop-length-append xs ys slash,
      )
      refl

atoi-digit : (b : ℕ) (s : Bytes) → 48 ≤ b → atoi_uint64 (b ∷ s) ≡ parse_uint (2 ^ 63) (b ∷ s)
atoi-digit b s h = ground (arith, h)

atoi_of_digits :
    (l : Bytes) → l ≢ [] → All (λ b. (48 ≤ b) × (b ≤ 57)) l → atoi_uint64 l ≡ parse_uint (2 ^ 63) l
atoi_of_digits [] ne h = absurd (ne refl)
atoi_of_digits (b ∷ s) ne (d, h) = atoi-digit b s d.0

-- `Atoi` reads back the number of a node.
pub atoi-format : (n : ℕ) → n < 2 ^ 63 → atoi_uint64 (format_uint n) ≡ some n
atoi-format n h =
    atoi_of_digits (format_uint n) (digits-nonempty n n) (digits-AllDigits (suc n) n)
    ∙ parse-format (2 ^ 63) n h

-- no two slashes meet
replace_last :
    (d : Bytes) → d ≢ [] → index_byte d slash ≡ none → replace_double (slash ∷ d) ≡ slash ∷ d
replace_last [] ne h = absurd (ne refl)
replace_last (e ∷ ds) ne h =
    subst (λ t. replace_double (slash ∷ t) ≡ slash ∷ t) (append-nil (e ∷ ds))
      (replace-slash_part e ds [] h)

-- the key of a registration, with the double slash that the prefix brings gone
abbrev pub plain_path : (cluster name d : Bytes) → Bytes
plain_path cluster name d =
    slash ∷ (cluster ++ (slash ∷ (event_stream_watch_name ++ (slash ∷ (name ++ (slash ∷ d))))))

path_is_plain :
    (cluster name d : Bytes)
    → cluster ≢ []
    → index_byte cluster slash ≡ none
    → index_byte name slash ≡ none
    → d ≢ []
    → index_byte d slash ≡ none
    → replace_double (get_event_stream_watch_path cluster ++ (slash ∷ (name ++ (slash ∷ d))))
      ≡ plain_path cluster name d
path_is_plain [] name d hc ck nk hd dk = absurd (hc refl)
path_is_plain (k ∷ cs) name d hc ck nk hd dk =
    let tail = name ++ (slash ∷ d) in
    let last : replace_double tail ≡ tail =
      replace-part name (slash ∷ d) nk ∙ ap (λ t. name ++ t) (replace_last d hd dk) in
    let front = slash ∷ (event_stream_watch_name ++ (slash ∷ slash ∷ tail)) in
    let middle : replace_double front
        ≡ slash ∷ (event_stream_watch_name ++ (slash ∷ replace_double tail)) =
      refl in
    let whole : get_event_stream_watch_path (k ∷ cs) ++ (slash ∷ tail)
        ≡ slash ∷ ((k ∷ cs) ++ front) =
      ap (λ t. slash ∷ t)
        (append_assoc (k ∷ cs) (slash ∷ (event_stream_watch_name ++ (slash ∷ [])))
          (slash ∷ tail)) in
    ap replace_double whole
    ∙ (replace-slash_part k cs front ck
        ∙ ap (λ t. slash ∷ ((k ∷ cs) ++ t))
            (middle ∙ ap (λ t. slash ∷ (event_stream_watch_name ++ (slash ∷ t))) last))

pub parts_of_plain :
    (cluster name d : Bytes)
    → index_byte cluster slash ≡ none
    → index_byte name slash ≡ none
    → split_n 3 (trim_prefix (plain_path cluster name d))
      ≡ cluster ∷ event_stream_watch_name ∷ name ∷ d ∷ []
parts_of_plain cluster name d ck nk =
    split-part 2 cluster (event_stream_watch_name ++ (slash ∷ (name ++ (slash ∷ d)))) ck
    ∙ ap (λ t. cluster ∷ t)
        (split-part 1 event_stream_watch_name (name ++ (slash ∷ d)) refl
          ∙ ap (λ t. event_stream_watch_name ∷ t) (split-part 0 name d nk))

-- the key of a registration
pub get_event_name_path-plain :
    (x : EventStream) (cluster_name event_name : Bytes)
    → x.event_stream_prefix ≡ get_event_stream_watch_path cluster_name
    → cluster_name ≢ []
    → index_byte cluster_name slash ≡ none
    → index_byte event_name slash ≡ none
    → get_event_name_path x event_name ≡ plain_path cluster_name event_name (format_uint x.node_id)
unfolding get_event_name_path
get_event_name_path-plain x cluster_name event_name prefix named ck ek =
    let d = format_uint x.node_id in
    ap (λ p. replace_double (p ++ (slash ∷ (event_name ++ (slash ∷ d))))) prefix
    ∙ path_is_plain cluster_name event_name d named ck ek (digits-nonempty x.node_id x.node_id)
        (no_slash_digits d (digits-AllDigits (suc x.node_id) x.node_id))

-- A registration is read back by every node: the key that a node writes for an event names that event
-- and that node to whoever watches, where the names of cluster and event have no slash, the cluster has
-- a name, and the node's number is an int64.
pub parse_watch-get_event_name_path :
    (x y : EventStream) (op : EventType) (cluster_name event_name value : Bytes)
    → x.event_stream_prefix ≡ get_event_stream_watch_path cluster_name
    → cluster_name ≢ []
    → index_byte cluster_name slash ≡ none
    → index_byte event_name slash ≡ none
    → x.node_id < 2 ^ 63
    → parse_watch_event_stream y op (get_event_name_path x event_name) value
      ≡ apply_entry y op event_name x.node_id value
unfolding parse_watch_event_stream
parse_watch-get_event_name_path x y op cluster_name event_name value prefix named ck ek small =
    let d = format_uint x.node_id in
    let path = get_event_name_path-plain x cluster_name event_name prefix named ck ek in
    ap (λ p. with_parts y op value (split_n 3 (trim_prefix p))) path
    ∙ (ap (with_parts y op value) (parts_of_plain cluster_name event_name d ck ek)
        ∙ ap (λ o. o >>= (λ node_id. apply_entry y op event_name node_id value))
            (atoi-format x.node_id small))
