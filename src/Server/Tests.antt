-- ===== src/Server/Tests.antt =====
-- A server on a wildcard address of a host with one interface, and a stream with every kind of answer.
use grain.Base.{
  ◌≢◌, ◌⊎◌, All, ℕ, ◌≡◌, refl, Bool, true, false, none, some, List, [], ◌∷◌, nat_eqb, Bytes,
  bytes_comparable,
}
use grain.Gonet.{Interface, get_top_inner_ip}
use grain.Server.{
  RpcService, new_rpc_server, split_host_port, advertise_host, start, stop, reports_fatal,
  server_stopped, serve_failed, canceled, Recv, envelope, failed, listen,
}
use grain.Server.Address.{Some, wildcards, start-addr}
use grain.Server.Listen.{Ended, arrived, first_error, handed, listen-arrived}

-- 10.0.0.5
abbrev interfaces : List Interface
interfaces =
    record {
      is_up = true;
      is_loopback_interface = false;
      addrs = some ((10 ∷ 0 ∷ 0 ∷ 5 ∷ []) ∷ []);
    }
    ∷ []

-- ":0", and "[::]:80"
abbrev any_port : Bytes
any_port = 58 ∷ 48 ∷ []

abbrev bound_text : Bytes
bound_text = 91 ∷ 58 ∷ 58 ∷ 93 ∷ 58 ∷ 56 ∷ 48 ∷ []

abbrev server : RpcService
server = new_rpc_server [] true

default_address : server.listen_addr ≡ any_port
unfolding new_rpc_server
default_address = refl

split_bound : split_host_port bound_text ≡ some (58 ∷ 58 ∷ [], 56 ∷ 48 ∷ [])
unfolding split_host_port
split_bound = refl

split_default : split_host_port any_port ≡ some ([], 48 ∷ [])
unfolding split_host_port
split_default = refl

-- Too many colons, a bracket that is not closed, and no port.
split_refuses :
    (split_host_port (58 ∷ 58 ∷ 56 ∷ []) ≡ none)
    × (split_host_port (91 ∷ 58 ∷ 56 ∷ []) ≡ none)
    × (split_host_port (97 ∷ []) ≡ none)
unfolding split_host_port
split_refuses = (refl, refl, refl)

start-addr_example :
    (let inner_ip = (get_top_inner_ip none (some interfaces)).1 in
      let (x', ok) = start (some bound_text) inner_ip server in
      let host = advertise_host inner_ip server in
      (ok ≡ true)
      × (split_host_port x'.addr ≡ some (host, 56 ∷ 48 ∷ []))
      × All (λ w. host ≢ w) wildcards
      × ((host ≡ []) ⊎ Some (λ w. [] ≡ w) wildcards))
unfolding new_rpc_server
start-addr_example =
    start-addr interfaces server bound_text (58 ∷ 58 ∷ []) (56 ∷ 48 ∷ []) [] (48 ∷ []) split_bound
      split_default

-- A server that failed reports it, one that was stopped does not; and a stop is done once.
life :
    (reports_fatal server serve_failed ≡ true)
    × (reports_fatal server server_stopped ≡ false)
    × ((stop server).1 ≡ false)
    × ((stop (stop (record server { gs = true })).0).1 ≡ false)
unfolding new_rpc_server reports_fatal stop
life = (refl, refl, refl, refl)

abbrev stream : List (Recv ℕ)
stream =
    envelope (some 1)
    ∷ envelope none
    ∷ envelope (some 2)
    ∷ envelope (some 3)
    ∷ failed canceled
    ∷ envelope (some 4)
    ∷ []

abbrev panics : ℕ → Bool
panics e = nat_eqb e 2

listen-arrived_example :
    (handed (listen panics stream []).0 ≡ arrived stream)
    × Ended (first_error stream) (listen panics stream []).1
listen-arrived_example = listen-arrived panics stream

stream_arrived : arrived stream ≡ 1 ∷ 2 ∷ 3 ∷ []
stream_arrived = refl
