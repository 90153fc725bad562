-- ===== src/Config/Self.antt =====
-- The reference that the last option of a spawn gives.
use grain.Base.{ℕ, ◌≡◌, refl, sym, ap, ◌∙◌, inl, inr, some, List, [], ◌∷◌, ◌++◌, Bytes, Bool-cases}
use grain.Base.Int.{pos, ltb_ℤ}
use grain.ActorId.{new_direct_actor_ref}
use grain.Config.{
  Opts, KindOpt, with_opts_direct_self, apply_kind_opt, apply_kind_opts, clamp_init, clamp_max,
  default_opts, new_opts,
}

apply-append :
    (ret : Opts) (xs ys : List KindOpt)
    → apply_kind_opts ret (xs ++ ys) ≡ apply_kind_opts (apply_kind_opts ret xs) ys
unfolding apply_kind_opts
apply-append ret [] ys = refl
apply-append ret (x ∷ xs) ys = apply-append (apply_kind_opt ret x) xs ys

clamps_keep :
    (ret : Opts)
    → ((clamp_max (clamp_init ret)).self ≡ ret.self)
      × ((clamp_max (clamp_init ret)).kind ≡ ret.kind)
clamps_keep ret = (max_self (clamp_init ret) ∙ init_self, max_kind (clamp_init ret) ∙ init_kind)
  where
    max_self : (r : Opts) → (clamp_max r).self ≡ r.self
    max_self r = elim (Bool-cases (ltb_ℤ r.mailbox_max_size r.mailbox_init_size)) [
      | inl t ↦ rw t refl
      | inr f ↦ rw f refl
    ]

    max_kind : (r : Opts) → (clamp_max r).kind ≡ r.kind
    max_kind r = elim (Bool-cases (ltb_ℤ r.mailbox_max_size r.mailbox_init_size)) [
      | inl t ↦ rw t refl
      | inr f ↦ rw f refl
    ]

    init_self : (clamp_init ret).self ≡ ret.self
    init_self = elim (Bool-cases (ltb_ℤ ret.mailbox_init_size (pos 1))) [
      | inl t ↦ rw t refl
      | inr f ↦ rw f refl
    ]

    init_kind : (clamp_init ret).kind ≡ ret.kind
    init_kind = elim (Bool-cases (ltb_ℤ ret.mailbox_init_size (pos 1))) [
      | inl t ↦ rw t refl
      | inr f ↦ rw f refl
    ]

-- It is of the kind that the other options come to.
pub new_opts-direct_self :
    (p : ℕ) (opts : List KindOpt) (name addr : Bytes)
    → (new_opts p (opts ++ (with_opts_direct_self name addr ∷ []))).self
      ≡ some (new_direct_actor_ref (new_opts p opts).kind name addr)
unfolding new_opts apply_kind_opts apply_kind_opt
new_opts-direct_self p opts name addr =
    let all = opts ++ (with_opts_direct_self name addr ∷ []) in
    (clamps_keep (apply_kind_opts (default_opts p) all)).0
    ∙ ap (λ (r : Opts). r.self)
        (apply-append (default_opts p) opts (with_opts_direct_self name addr ∷ []))
    ∙ ap (λ k. some (new_direct_actor_ref k name addr))
        (sym (clamps_keep (apply_kind_opts (default_opts p) opts)).1)
