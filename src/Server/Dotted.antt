-- ===== src/Server/Dotted.antt =====
-- The text of an IPv4 address.
use grain.Base.{
  ℕ, suc, ◌+◌, ◌≤◌, ◌≡◌, refl, sym, ap, ◌∙◌, subst, inl, inr, ◌⊎◌, true, false, ◌&&◌, none, some,
  List, [], ◌∷◌, ◌++◌, All, nat_eqb, length, length-drop, take, drop, Bytes, ◌==◌, ==→eq,
  bytes_comparable, Bool-cases, Option-cases, arith,
}
use grain.Base.Decimal.{format_uint, digits-AllDigits, parse_uint, parse-format}
use grain.Base.Maybe.{maybe}
use grain.Base.Order.{contains}
use grain.Gonet.{
  to4, v4_in_v6_prefix, candidates_of, filter_ips, is_usable, is_unspecified, Interface,
  get_top_inner_ip,
}
use grain.Gonet.Top.{top-Chosen}
use grain.Server.{
  dot, has_byte, ip_string, any_v4, any_v6, localhost, is_wildcard, left_bracket, right_bracket,
}
use grain.Server.Hosts.{has_byte-append, PlainHost}

digits-plain :
    (s : Bytes) (c : ℕ)
    → All (λ b. (48 ≤ b) × (b ≤ 57)) s
    → (c ≤ 47) ⊎ (58 ≤ c)
    → has_byte s c ≡ false
digits-plain [] c h o = refl
digits-plain (b ∷ s) c (p, h) o = ground (arith, p.0, p.1, o, digits-plain s c h o)

uint-plain : (n c : ℕ) → (c ≤ 47) ⊎ (58 ≤ c) → has_byte (format_uint n) c ≡ false
uint-plain n c o = digits-plain (format_uint n) c (digits-AllDigits (suc n) n) o

-- Text up to a separator that it does not have is determined.
first_part :
    (xs ys : Bytes) (c : ℕ) (r s : Bytes)
    → has_byte xs c ≡ false
    → has_byte ys c ≡ false
    → xs ++ (c ∷ r) ≡ ys ++ (c ∷ s)
    → (xs ≡ ys) × (r ≡ s)
first_part [] [] c r s h g e = (refl, ground (arith, e))
first_part [] (y ∷ ys) c r s h g e = absurd (ground (arith, e, g))
first_part (x ∷ xs) [] c r s h g e = absurd (ground (arith, e, h))
first_part (x ∷ xs) (y ∷ ys) c r s h g e =
    let (f, t) =
      first_part xs ys c r s (ground (arith, h)) (ground (arith, g)) (ground (arith, e)) in
    let same : x ≡ y = ground (arith, e) in (ground (arith, f, same), t)

-- "0" is the text of 0 only.
uint-zero : (n : ℕ) → format_uint n ≡ 48 ∷ [] → n ≡ 0
uint-zero n h =
    let back : parse_uint (n + 1) (48 ∷ []) ≡ some n =
      ap (parse_uint (n + 1)) (sym h) ∙ parse-format (n + 1) n (omega arith) in
    ground (arith, back)

ip_string-plain : (ip : Bytes) (c : ℕ) → (c ≤ 45) ⊎ (58 ≤ c) → has_byte (ip_string ip) c ≡ false
ip_string-plain [] c o = refl
ip_string-plain (b ∷ []) c o = uint-plain b c (ground (arith, o))
ip_string-plain (b ∷ d ∷ ip) c o =
    has_byte-append (format_uint b) (dot ∷ ip_string (d ∷ ip)) c
    ∙ rw (uint-plain b c (ground (arith, o))) (ground (arith, o, ip_string-plain (d ∷ ip) c o))

two_parts :
    (b c : ℕ) (r t : Bytes)
    → ip_string (b ∷ c ∷ r) ≡ 48 ∷ dot ∷ t
    → (b ≡ 0) × (ip_string (c ∷ r) ≡ t)
two_parts b c r t h =
    let (f, rest) =
      first_part (format_uint b) (48 ∷ []) dot (ip_string (c ∷ r)) t
        (uint-plain b dot (inl (omega arith))) refl h in
    (uint-zero b f, rest)

ip_string-any :
    (a b c d : ℕ)
    → ip_string (a ∷ b ∷ c ∷ d ∷ []) ≡ any_v4
    → is_unspecified (a ∷ b ∷ c ∷ d ∷ []) ≡ true
ip_string-any a b c d h =
    let (p, h1) = two_parts a b (c ∷ d ∷ []) _ h in
    let (q, h2) = two_parts b c (d ∷ []) _ h1 in
    let (r, h3) = two_parts c d [] _ h2 in let s = uint-zero d h3 in rw (p, q, r, s) refl

-- An address of four bytes that is not unspecified is no wildcard in its text.
ip_string-concrete :
    (ip : Bytes) → length ip ≡ 4 → is_unspecified ip ≡ false → is_wildcard (ip_string ip) ≡ false
ip_string-concrete (a ∷ b ∷ c ∷ d ∷ []) l u =
    let s = ip_string (a ∷ b ∷ c ∷ d ∷ []) in
    let dotted : has_byte s dot ≡ true =
      has_byte-append (format_uint a) (dot ∷ ip_string (b ∷ c ∷ d ∷ [])) dot ∙ ground arith in
    let other : (t : Bytes) → has_byte t dot ≡ false → (s == t) ≡ false = λ t h.
      elim (Bool-cases (s == t)) [
        | inl e ↦ absurd (cc (ap (λ l. has_byte l dot) (==→eq s t e), dotted, h))
        | inr f ↦ f
      ] in
    let not_any : (s == any_v4) ≡ false = elim (Bool-cases (s == any_v4)) [
      | inl e ↦ absurd (cc (ip_string-any a b c d (==→eq s any_v4 e), u))
      | inr f ↦ f
    ] in
    rw (other [] refl, not_any, other any_v6 refl) refl
ip_string-concrete _ l u = absurd (omega (arith, l))

length-to4 : (ip ip4 : Bytes) → to4 ip ≡ some ip4 → length ip4 ≡ 4
length-to4 ip ip4 h = elim (Bool-cases (nat_eqb (length ip) 4)) [
  | inl t ↦ ground (arith, h, t)
  | inr f ↦ elim (Bool-cases (nat_eqb (length ip) 16 && take 12 ip == v4_in_v6_prefix)) [
    | inl t ↦
        let sixteen : length ip ≡ 16 = ground (arith, t) in
        let rest : drop 12 ip ≡ ip4 = ground (arith, h, f, t) in
        ap length (sym rest) ∙ omega (arith, length-drop 12 ip, sixteen)
    | inr g ↦ absurd (ground (arith, h, f, g))
  ]
]

All-contains :
    (P : Bytes → Type 0) (l : List Bytes) (a : Bytes) → All P l → contains l a ≡ true → P a
All-contains P [] a h c = cc
All-contains P (x ∷ l) a (p, h) c = elim (Bool-cases (x == a)) [
  | inl e ↦ subst P (==→eq x a e) p
  | inr f ↦ All-contains P l a h (ground (arith, c, f))
]

-- what the filter of addresses lets through
Usable-filter :
    (l : List Bytes) → All (λ ip. (length ip ≡ 4) × (is_unspecified ip ≡ false)) (filter_ips l)
unfolding filter_ips
Usable-filter [] = tt
Usable-filter (ip ∷ l) = elim (Option-cases (to4 ip)) [
  | inl h ↦ rw h (Usable-filter l)
  | inr (ip4, h) ↦ elim (Bool-cases (is_usable ip4)) [
    | inl t ↦ rw (h, t) ((length-to4 ip ip4 h, ground (arith, t)), Usable-filter l)
    | inr f ↦ rw (h, f) (Usable-filter l)
  ]
]

-- The text that a host advertises for itself names one interface, and can be part of an address.
pub inner-concrete :
    (ifaces : List Interface)
    → (let inner = maybe localhost ip_string (get_top_inner_ip none (some ifaces)).1 in
        (is_wildcard inner ≡ false) × PlainHost inner)
inner-concrete ifaces =
    let l = filter_ips (candidates_of ifaces) in
    elim (top-Chosen ifaces) [
      | inl (e, nothing) ↦ rw e (refl, (refl, refl))
      | inr (ip, e, c, first) ↦
          let (four, concrete) =
            All-contains (λ ip. (length ip ≡ 4) × (is_unspecified ip ≡ false)) l ip
              (Usable-filter (candidates_of ifaces)) c in
          rw e (
            ip_string-concrete ip four concrete,
            (
              ip_string-plain ip left_bracket (inr (omega arith)),
              ip_string-plain ip right_bracket (inr (omega arith)),
            ),
          )
    ]
