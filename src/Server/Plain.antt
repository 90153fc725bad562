-- ===== src/Server/Plain.antt =====
-- What net.SplitHostPort gives can be joined again: its host has no bracket, its port no bracket and
-- no colon.
use grain.Base.{
  ℕ, zero, suc, ◌+◌, ◌-◌, ◌≡◌, refl, sym, ◌∙◌, subst, inl, inr, false, none, some, [], ◌∷◌, nat_eqb,
  nat_eqb_iff, take, drop, Bytes, Bool-cases, Option-cases, arith,
}
use grain.ActorId.{index_byte}
use grain.Server.{
  colon, left_bracket, right_bracket, has_byte, last_index_byte, starts_with, checked,
  split_host_port,
}
use grain.Server.Hosts.{
  PlainHost, PlainPort, has_byte-take, has_byte-drop, drop_next, after_last-none, before_first-none,
}

checked-some :
    (left right a b host port : Bytes)
    → checked left right a b ≡ some (host, port)
    → (has_byte left left_bracket ≡ false)
      × (has_byte right right_bracket ≡ false)
      × (a ≡ host)
      × (b ≡ port)
checked-some left right a b host port h = ground arith

inside-none :
    (end c : ℕ) (s : Bytes)
    → has_byte (take end s) c ≡ false
    → has_byte (take (end - 1) (drop 1 s)) c ≡ false
inside-none zero c s h = refl
inside-none (suc end) c [] h = has_byte-take (suc end - 1) [] c refl
inside-none (suc end) c (b ∷ s) h =
    let one : suc end - 1 ≡ end = omega arith in rw one (ground (arith, h))

further-none :
    (n c : ℕ) (s : Bytes) → has_byte (drop n s) c ≡ false → has_byte (drop (n + 1) s) c ≡ false
further-none n c [] h = has_byte-drop (n + 1) [] c refl
further-none zero c (b ∷ s) h = ground (arith, h)
further-none (suc n) c (b ∷ s) h =
    let next : n + 1 ≡ suc n = omega arith in
    rw (drop_next (suc n) b s)
      (subst (λ k. has_byte (drop k s) c ≡ false) next (further-none n c s h))

tail-none :
    (n c : ℕ) (s : Bytes) → has_byte (drop 1 s) c ≡ false → has_byte (drop (n + 1) s) c ≡ false
tail-none n c [] h = has_byte-drop (n + 1) [] c refl
tail-none n c (b ∷ s) h = rw (drop_next n b s) (has_byte-drop n s c h)

pub split_host_port-plain :
    (s host port : Bytes) → split_host_port s ≡ some (host, port) → PlainHost host × PlainPort port
unfolding split_host_port
split_host_port-plain s host port h = elim (Option-cases (last_index_byte s colon)) [
  | inl e ↦ absurd (let none_found : split_host_port s ≡ none = rw e refl in cc (h, none_found))
  | inr (i, e) ↦ elim (Bool-cases (starts_with s left_bracket)) [
    | inl t ↦ elim (Option-cases (index_byte s right_bracket)) [
      | inl f ↦
          absurd
            (let none_found : split_host_port s ≡ none = rw (e, t, f) refl in cc (h, none_found))
      | inr (end, f) ↦ elim (Bool-cases (nat_eqb (end + 1) i)) [
        | inr g ↦
            absurd (
              let none_found : split_host_port s ≡ none = rw (e, t, f, g) refl in
              cc (h, none_found))
        | inl g ↦
            let run : split_host_port s
                ≡ checked (drop 1 s) (drop (end + 1) s) (take (end - 1) (drop 1 s))
                    (drop (i + 1) s) =
              rw (e, t, f, g) refl in
            let (left, right, a, b) =
              checked-some (drop 1 s) (drop (end + 1) s) (take (end - 1) (drop 1 s))
                (drop (i + 1) s) host port (sym run ∙ h) in
            let same : end + 1 ≡ i = (nat_eqb_iff (end + 1) i).0 g in
            (
              (
                subst (λ l. has_byte l left_bracket ≡ false) a
                    (has_byte-take (end - 1) (drop 1 s) left_bracket left),
                subst (λ l. has_byte l right_bracket ≡ false) a
                    (inside-none end right_bracket s (before_first-none s right_bracket end f)),
              ),
              (
                subst (λ l. has_byte l colon ≡ false) b (after_last-none s colon i e),
                subst (λ l. has_byte l left_bracket ≡ false) b (tail-none i left_bracket s left),
                subst (λ l. has_byte l right_bracket ≡ false) b
                    (further-none i right_bracket s
                      (subst (λ n. has_byte (drop n s) right_bracket ≡ false) same right)),
              ),
            )
      ]
    ]
    | inr t ↦ elim (Bool-cases (has_byte (take i s) colon)) [
      | inl f ↦
          absurd
            (let none_found : split_host_port s ≡ none = rw (e, t, f) refl in cc (h, none_found))
      | inr f ↦
          let run : split_host_port s ≡ checked s s (take i s) (drop (i + 1) s) =
            rw (e, t, f) refl in
          let (left, right, a, b) =
            checked-some s s (take i s) (drop (i + 1) s) host port (sym run ∙ h) in
          (
            (
              subst (λ l. has_byte l left_bracket ≡ false) a (has_byte-take i s left_bracket left),
              subst (λ l. has_byte l right_bracket ≡ false) a
                  (has_byte-take i s right_bracket right),
            ),
            (
              subst (λ l. has_byte l colon ≡ false) b (after_last-none s colon i e),
              subst (λ l. has_byte l left_bracket ≡ false) b
                  (has_byte-drop (i + 1) s left_bracket left),
              subst (λ l. has_byte l right_bracket ≡ false) b
                  (has_byte-drop (i + 1) s right_bracket right),
            ),
          )
    ]
  ]
]
