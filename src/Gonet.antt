-- ===== src/Gonet.antt =====
-- al/gonet/gonet.go: which of a host's addresses a node tells the cluster. The host's interfaces are
-- an argument; an address is its bytes, as in Go.
pub mod Top
mod Tests
use grain.Base.{
  ℕ, Bool, true, false, not, ◌&&◌, ◌||◌, Option, none, some, List, [], ◌∷◌, ◌++◌, nat_eqb, leb,
  if◌then◌else◌, Bytes, ◌==◌, bytes_comparable, length, take, drop, replicate,
}
use grain.Base.Maybe.{maybe}
use grain.Base.Order.{bytes_ltb}

-- the first bytes of an IPv4 address written as an IPv6 one
abbrev pub v4_in_v6_prefix : Bytes
v4_in_v6_prefix = replicate 10 0 ++ (255 ∷ 255 ∷ [])

-- `net.IP.To4`
abbrev pub to4 : Bytes → Option Bytes
to4 ip =
    if nat_eqb (length ip) 4
    then some ip
    else if nat_eqb (length ip) 16 && take 12 ip == v4_in_v6_prefix
    then some (drop 12 ip)
    else none

-- `IsLoopback`, `IsLinkLocalUnicast`, `IsUnspecified` and `IsMulticast` of an IPv4 address
abbrev pub is_loopback : Bytes → Bool
is_loopback (a ∷ ip) = nat_eqb a 127
is_loopback _ = false

abbrev pub is_link_local_unicast : Bytes → Bool
is_link_local_unicast (a ∷ b ∷ ip) = nat_eqb a 169 && nat_eqb b 254
is_link_local_unicast _ = false

abbrev pub is_unspecified : Bytes → Bool
is_unspecified (a ∷ b ∷ c ∷ d ∷ ip) = nat_eqb a 0 && (nat_eqb b 0 && (nat_eqb c 0 && nat_eqb d 0))
is_unspecified _ = false

abbrev pub is_multicast : Bytes → Bool
is_multicast (a ∷ ip) = leb 224 a && leb a 239
is_multicast _ = false

-- `isPrivate`, of an IPv4 address
abbrev pub is_private : Bytes → Bool
is_private (a ∷ b ∷ ip) =
    nat_eqb a 10 || ((nat_eqb a 172 && (leb 16 b && leb b 31)) || (nat_eqb a 192 && nat_eqb b 168))
is_private _ = false

-- the filter of `selectInnerIPs`
abbrev pub is_usable : Bytes → Bool
is_usable ip4 =
    not (is_loopback ip4)
    && (not (is_link_local_unicast ip4) && not (is_unspecified ip4 || is_multicast ip4))

unfoldable pub filter_ips : List Bytes → List Bytes
filter_ips [] = []
filter_ips (ip ∷ candidates) =
    let rest = filter_ips candidates in
    maybe rest (λ ip4. if is_usable ip4 then ip4 ∷ rest else rest) (to4 ip)

-- the order of `selectInnerIPs`
pub is_before : Bytes → Bytes → Bool
is_before a b =
    let pa = is_private a in
    let pb = is_private b in
    if pa then if pb then bytes_ltb a b else true else if pb then false else bytes_ltb a b

-- `sort.SliceStable` by that order: equal elements keep their order.
pub insert : Bytes → List Bytes → List Bytes
insert x [] = x ∷ []
insert x (y ∷ ys) = let rest = insert x ys in if is_before y x then y ∷ rest else x ∷ y ∷ ys

pub stable_sort : List Bytes → List Bytes
stable_sort [] = []
stable_sort (x ∷ xs) = insert x (stable_sort xs)

pub select_inner_ips : List Bytes → List Bytes
select_inner_ips candidates = stable_sort (filter_ips candidates)

-- `net.Interface`: its flags, and its addresses unless they cannot be read
pub record Interface : Type 0 where
  pub is_up : Bool
  pub is_loopback_interface : Bool
  pub addrs : Option (List Bytes)

abbrev pub ip4s_of : List Bytes → List Bytes
ip4s_of [] = []
ip4s_of (ip ∷ addrs) = let rest = ip4s_of addrs in maybe rest (λ ip4. ip4 ∷ rest) (to4 ip)

abbrev pub candidates_of : List Interface → List Bytes
candidates_of [] = []
candidates_of (i ∷ ifaces) =
    let rest = candidates_of ifaces in
    if not i.is_up || i.is_loopback_interface
    then rest
    else maybe rest (λ addrs. ip4s_of addrs ++ rest) i.addrs

-- `enumerateInnerIPs`; no interfaces where they cannot be listed
pub enumerate_inner_ips : Option (List Interface) → List Bytes
enumerate_inner_ips ifaces = maybe [] (λ l. select_inner_ips (candidates_of l)) ifaces

abbrev pub store_found : List Bytes → Option (List Bytes)
store_found [] = none
store_found (ip ∷ ips) = some (ip ∷ ips)

-- `innerIPs`, with its cache: a failure is not cached.
pub inner_ips : Option (List Bytes) → Option (List Interface) → Option (List Bytes) × List Bytes
inner_ips cache ifaces =
    maybe (let found = enumerate_inner_ips ifaces in (store_found found, found))
      (λ cached. (cache, cached)) cache

abbrev pub first_of : List Bytes → Option Bytes
first_of [] = none
first_of (ip ∷ ips) = some ip

-- `GetTopInnerIP`
pub get_top_inner_ip :
    Option (List Bytes) → Option (List Interface) → Option (List Bytes) × Option Bytes
get_top_inner_ip cache ifaces =
    let (cache', inners) = inner_ips cache ifaces in (cache', first_of inners)
