-- ===== src/Server/Address.antt =====
-- The address that a server tells the other nodes.
use grain.Base.{
  All, ==_cases, ap, arith, [], ◌∷◌, ◌⊎◌, ◌≢◌, ◌≡◌, refl, inl, inr, true, false, bytes_comparable,
  Option, none, some, List, Bytes, Bool-cases, Option-cases,
}
use grain.Gonet.{Interface, get_top_inner_ip}
use grain.Server.{RpcService, split_host_port, advertise_host, is_wildcard, any_v4, any_v6, start}
use grain.Server.Hosts.{PlainHost, split-join}
use grain.Server.Plain.{split_host_port-plain}
use grain.Server.Dotted.{inner-concrete}

-- the texts of the wildcard address that the server knows: "", "0.0.0.0" and "::"
abbrev pub wildcards : List Bytes
wildcards = [] ∷ (48 ∷ 46 ∷ 48 ∷ 46 ∷ 48 ∷ 46 ∷ 48 ∷ []) ∷ (58 ∷ 58 ∷ []) ∷ []

-- one of a list
abbrev pub Some : (Bytes → Type 0) → List Bytes → Type 0
Some P [] = ⊥
Some P (w ∷ ws) = P w ⊎ Some P ws

not_wildcard : (host : Bytes) → is_wildcard host ≡ false → All (λ w. host ≢ w) wildcards
not_wildcard host f = (
  λ e. absurd (cc (f, ap is_wildcard e)),
  (λ e. absurd (cc (f, ap is_wildcard e)), (λ e. absurd (cc (f, ap is_wildcard e)), tt)),
)

a_wildcard : (host : Bytes) → is_wildcard host ≡ true → Some (λ w. host ≡ w) wildcards
a_wildcard host t = elim (==_cases host []) [
  | inl e ↦ inl e
  | inr f ↦ elim (==_cases host any_v4) [
    | inl e ↦ inr (inl e)
    | inr g ↦ elim (==_cases host any_v6) [
      | inl e ↦ inr (inr (inl e))
      | inr h ↦ absurd (ground (arith, t, f, g, h))
    ]
  ]
]

advertise_host-concrete :
    (ifaces : List Interface) (x : RpcService)
    → (let host = advertise_host (get_top_inner_ip none (some ifaces)).1 x in
        (is_wildcard host ≡ false) × PlainHost host)
unfolding advertise_host
advertise_host-concrete ifaces x = elim (Option-cases (split_host_port x.listen_addr)) [
  | inl h ↦ rw h (inner-concrete ifaces)
  | inr ((host, port), h) ↦ elim (Bool-cases (is_wildcard host)) [
    | inl t ↦ rw (h, t) (inner-concrete ifaces)
    | inr f ↦ rw (h, f) (f, (split_host_port-plain x.listen_addr host port h).0)
  ]
]

keeps_host :
    (inner_ip : Option Bytes) (x : RpcService) (host given : Bytes)
    → split_host_port x.listen_addr ≡ some (host, given)
    → (advertise_host inner_ip x ≡ host) ⊎ Some (λ w. host ≡ w) wildcards
unfolding advertise_host
keeps_host inner_ip x host given g = elim (Bool-cases (is_wildcard host)) [
  | inl t ↦ inr (a_wildcard host t)
  | inr f ↦ inl (rw (g, f) refl)
]

-- Whatever address a server is told to listen on, IPv6 included, once the kernel has bound it, the
-- address told to the other nodes splits into a host and the port that the kernel gave. The host is
-- not the empty one, "0.0.0.0" or "::", and it is the one to listen on unless that is one of these.
pub start-addr :
    (ifaces : List Interface) (x : RpcService) (lis bound port host_to_bind given : Bytes)
    → split_host_port lis ≡ some (bound, port)
    → split_host_port x.listen_addr ≡ some (host_to_bind, given)
    → (let inner_ip = (get_top_inner_ip none (some ifaces)).1 in
        let (x', ok) = start (some lis) inner_ip x in
        let host = advertise_host inner_ip x in
        (ok ≡ true)
        × (split_host_port x'.addr ≡ some (host, port))
        × All (λ w. host ≢ w) wildcards
        × ((host ≡ host_to_bind) ⊎ Some (λ w. host_to_bind ≡ w) wildcards))
unfolding start
start-addr ifaces x lis bound port host_to_bind given h g =
    let inner_ip = (get_top_inner_ip none (some ifaces)).1 in
    let (concrete, plain) = advertise_host-concrete ifaces x in
    rw h (
      refl,
      split-join (advertise_host inner_ip x) port plain (split_host_port-plain lis bound port h).1,
      not_wildcard (advertise_host inner_ip x) concrete,
      keeps_host inner_ip x host_to_bind given g,
    )
