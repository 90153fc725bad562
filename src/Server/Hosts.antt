-- ===== src/Server/Hosts.antt =====
-- Host and port in one text: net.SplitHostPort reads back what net.JoinHostPort writes.
use grain.Base.{
  ℕ, zero, suc, ◌+◌, ◌-◌, ◌≡◌, refl, sym, ap, ◌∙◌, inl, inr, false, ◌||◌, none, some, [], ◌∷◌, ◌++◌,
  nat_eqb, nat_eqb_iff, length-append, take, drop, length, Bytes, Bool-cases, Option-cases,
  append_assoc, arith,
}
use grain.ActorId.{index_byte}
use grain.ActorId.Roundtrip.{index_byte-append, take-length-append, drop-length-append}
use grain.Server.{
  colon, left_bracket, right_bracket, has_byte, last_index_byte, starts_with, split_host_port,
  join_host_port,
}

pub has_byte-append :
    (xs ys : Bytes) (c : ℕ) → has_byte (xs ++ ys) c ≡ has_byte xs c || has_byte ys c
has_byte-append [] ys c = refl
has_byte-append (x ∷ xs) ys c = ground (arith, has_byte-append xs ys c)

pub has_byte-take :
    (n : ℕ) (s : Bytes) (c : ℕ) → has_byte s c ≡ false → has_byte (take n s) c ≡ false
has_byte-take zero s c h = refl
has_byte-take (suc n) [] c h = refl
has_byte-take (suc n) (b ∷ s) c h = ground (arith, h, has_byte-take n s c)

pub has_byte-drop :
    (n : ℕ) (s : Bytes) (c : ℕ) → has_byte s c ≡ false → has_byte (drop n s) c ≡ false
has_byte-drop zero s c h = h
has_byte-drop (suc n) [] c h = refl
has_byte-drop (suc n) (b ∷ s) c h = ground (arith, h, has_byte-drop n s c)

index_byte-none : (s : Bytes) (c : ℕ) → has_byte s c ≡ false → index_byte s c ≡ none
index_byte-none [] c h = refl
index_byte-none (b ∷ s) c h = ground (arith, h, index_byte-none s c)

last_index-none : (s : Bytes) (c : ℕ) → has_byte s c ≡ false → last_index_byte s c ≡ none
last_index-none [] c h = refl
last_index-none (b ∷ s) c h = ground (arith, h, last_index-none s c)

last_index-append :
    (xs ys : Bytes) (c : ℕ)
    → has_byte ys c ≡ false
    → last_index_byte (xs ++ (c ∷ ys)) c ≡ some (length xs)
last_index-append [] ys c h = ground (arith, last_index-none ys c h)
last_index-append (x ∷ xs) ys c h = ground (arith, last_index-append xs ys c h)

none-last_index : (s : Bytes) (c : ℕ) → last_index_byte s c ≡ none → has_byte s c ≡ false
none-last_index [] c h = refl
none-last_index (b ∷ s) c h = elim (Option-cases (last_index_byte s c)) [
  | inl e ↦ ground (arith, none-last_index s c e, e, h)
  | inr (i, e) ↦ absurd (ground (arith, e, h))
]

pub drop_next : (i b : ℕ) (s : Bytes) → drop (i + 1) (b ∷ s) ≡ drop i s
drop_next i b s = let next : i + 1 ≡ suc i = omega arith in rw next refl

-- nothing follows the last index
pub after_last-none :
    (s : Bytes) (c i : ℕ) → last_index_byte s c ≡ some i → has_byte (drop (i + 1) s) c ≡ false
after_last-none [] c i h = cc
after_last-none (b ∷ s) c i h = elim (Option-cases (last_index_byte s c)) [
  | inl e ↦
      let first : i ≡ 0 = ground (arith, e, h) in
      rw (drop_next i b s, first) (none-last_index s c e)
  | inr (j, e) ↦
      let later : i ≡ j + 1 = ground (arith, e, h) in
      rw (drop_next i b s, later) (after_last-none s c j e)
]

-- and nothing precedes the first one
pub before_first-none :
    (s : Bytes) (c i : ℕ) → index_byte s c ≡ some i → has_byte (take i s) c ≡ false
before_first-none [] c i h = cc
before_first-none (b ∷ s) c zero h = refl
before_first-none (b ∷ s) c (suc i) h = elim (Option-cases (index_byte s c)) [
  | inl e ↦ absurd (ground (arith, e, h))
  | inr (j, e) ↦
      let later : i ≡ j = ground (arith, e, h) in
      let here : nat_eqb b c ≡ false = ground (arith, e, h) in
      rw (here, later) (before_first-none s c j e)
]

-- Hosts and ports that SplitHostPort can give.
abbrev pub PlainHost : Bytes → Type 0
PlainHost host = (has_byte host left_bracket ≡ false) × (has_byte host right_bracket ≡ false)

abbrev pub PlainPort : Bytes → Type 0
PlainPort port =
    (has_byte port colon ≡ false)
    × (has_byte port left_bracket ≡ false)
    × (has_byte port right_bracket ≡ false)

starts_with-none : (s : Bytes) (c : ℕ) → has_byte s c ≡ false → starts_with s c ≡ false
starts_with-none [] c h = refl
starts_with-none (b ∷ s) c h = ground (arith, h)

pub split-join :
    (host port : Bytes)
    → PlainHost host
    → PlainPort port
    → split_host_port (join_host_port host port) ≡ some (host, port)
unfolding split_host_port join_host_port
split-join host port (hl, hr) (pc, pl, pr) = elim (Bool-cases (has_byte host colon)) [
  | inr f ↦
      let whole = host ++ (colon ∷ port) in
      let at : last_index_byte whole colon ≡ some (length host) =
        last_index-append host port colon pc in
      let no_left : has_byte whole left_bracket ≡ false =
        has_byte-append host (colon ∷ port) left_bracket ∙ rw hl pl in
      let no_right : has_byte whole right_bracket ≡ false =
        has_byte-append host (colon ∷ port) right_bracket ∙ rw hr pr in
      let plain : starts_with whole left_bracket ≡ false =
        starts_with-none whole left_bracket no_left in
      rw (f, at, plain, take-length-append host (colon ∷ port), f, no_left, no_right)
        (ap (λ p. some (host, p)) (drop-length-append host port colon))
  | inl t ↦
      let rest = right_bracket ∷ colon ∷ port in
      let whole = left_bracket ∷ (host ++ rest) in
      let front = left_bracket ∷ (host ++ (right_bracket ∷ [])) in
      let shape : front ++ (colon ∷ port) ≡ whole =
        ap (λ l. left_bracket ∷ l) (append_assoc host (right_bracket ∷ []) (colon ∷ port)) in
      let end : length front ≡ suc (length host) + 1 =
        omega (arith, length-append host (right_bracket ∷ [])) in
      let at : last_index_byte whole colon ≡ some (suc (length host) + 1) =
        ap (λ l. last_index_byte l colon) (sym shape)
        ∙ last_index-append front port colon pc
        ∙ ap some end in
      let closed : index_byte whole right_bracket ≡ some (suc (length host)) =
        index_byte-append (left_bracket ∷ host) (colon ∷ port) right_bracket
          (index_byte-none (left_bracket ∷ host) right_bracket hr) in
      let no_left : has_byte (host ++ rest) left_bracket ≡ false =
        has_byte-append host rest left_bracket ∙ rw hl pl in
      let after : drop (suc (length host) + 1) whole ≡ colon ∷ port =
        drop-length-append (left_bracket ∷ host) (colon ∷ port) right_bracket in
      let inside : take (suc (length host) - 1) (host ++ rest) ≡ host =
        let one : suc (length host) - 1 ≡ length host = omega arith in
        rw one (take-length-append host rest) in
      let port_at : drop (suc (length host) + 1 + 1) whole ≡ port =
        ap (λ n. drop (n + 1) whole) (sym end)
        ∙ ap (drop (length front + 1)) (sym shape)
        ∙ drop-length-append front port colon in
      rw
        (
          t,
          at,
          closed,
          (nat_eqb_iff (suc (length host) + 1) (suc (length host) + 1)).1 refl,
          no_left,
          after,
          pr,
          inside,
          port_at,
        )
        refl
]
