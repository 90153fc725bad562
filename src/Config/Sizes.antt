-- ===== src/Config/Sizes.antt =====
-- The mailbox that the options of a kind describe.
use grain.Base.{ℕ, ◌≡◌, true, none, List, if◌then◌else◌, arith}
use grain.Base.Int.{ℤ, pos, pos_part, leb_ℤ, ltb_ℤ}
use grain.Ring
use grain.Config.{
  Opts, KindOpt, apply_kind_opts, clamp_init, clamp_max, new_opts, default_mailbox_init_size,
  default_mailbox_max_size, default_local_kind,
}

-- The mailbox sizes of options are as the ring buffer wants them.
abbrev pub Fits : ℤ → ℤ → Type 0
Fits init top = (leb_ℤ (pos 1) init ≡ true) × (leb_ℤ init top ≡ true)

abbrev clamped_of : ℤ → ℤ → ℤ × ℤ
clamped_of a b =
    let init = if ltb_ℤ a (pos 1) then pos 1 else a in (init, if ltb_ℤ b init then init else b)

clamped_of-Fits : (a b : ℤ) → Fits (clamped_of a b).0 (clamped_of a b).1
clamped_of-Fits a b = ground arith

clamp_lem :
    (o : Opts)
    → ((clamp_max (clamp_init o)).mailbox_init_size
        ≡ (clamped_of o.mailbox_init_size o.mailbox_max_size).0)
      × ((clamp_max (clamp_init o)).mailbox_max_size
          ≡ (clamped_of o.mailbox_init_size o.mailbox_max_size).1)
clamp_lem o = ground arith

ring_of-Fits :
    {A : Type 0} (z : A) (init top : ℤ)
    → Fits init top
    → ((Ring.new z init top).cap ≡ pos_part init) × ((Ring.new z init top).max_cap ≡ pos_part top)
unfolding Ring.new
ring_of-Fits z init top h = ground arith

new_opts-Fits :
    (p : ℕ) (opts : List KindOpt)
    → Fits (new_opts p opts).mailbox_init_size (new_opts p opts).mailbox_max_size
unfolding new_opts
new_opts-Fits p opts =
    let o =
      apply_kind_opts
        (record {
          producer = p;
          mailbox_init_size = default_mailbox_init_size;
          mailbox_max_size = default_mailbox_max_size;
          kind = default_local_kind;
          poison_first_on_quit = true;
          self = none;
        })
        opts in
    let (ei, em) = clamp_lem o in
    rw (ei, em) (clamped_of-Fits o.mailbox_init_size o.mailbox_max_size)

-- Whatever options a kind has, negative sizes included, its mailbox starts with room for one message
-- at least and may grow to its initial size at least; and the ring buffer built from these sizes has
-- just that capacity and that ceiling.
pub new_opts-sizes :
    {A : Type 0} (z : A) (p : ℕ) (opts : List KindOpt)
    → (let o = new_opts p opts in
        Fits o.mailbox_init_size o.mailbox_max_size
        × ((Ring.new z o.mailbox_init_size o.mailbox_max_size).cap ≡ pos_part o.mailbox_init_size)
        × ((Ring.new z o.mailbox_init_size o.mailbox_max_size).max_cap
            ≡ pos_part o.mailbox_max_size))
new_opts-sizes z p opts =
    let fits = new_opts-Fits p opts in
    let (cap, top) =
      ring_of-Fits z (new_opts p opts).mailbox_init_size (new_opts p opts).mailbox_max_size fits in
    (fits, cap, top)
