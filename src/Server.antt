-- ===== src/Server.antt =====
-- remote/stream_server.go: the server of the streams from other nodes. What grpc and the kernel answer
-- are arguments, and so is the receiver of envelopes; net.SplitHostPort and its like are written out.
pub mod Hosts
pub mod Plain
pub mod Dotted
pub mod Address
pub mod Listen
mod Tests
use grain.Base.{
  ℕ, zero, suc, ◌+◌, ◌-◌, Bool, true, false, not, ◌&&◌, ◌||◌, Option, none, some, List, [], ◌∷◌,
  ◌++◌, nat_eqb, if◌then◌else◌, take, drop, Bytes, ◌==◌, bytes_comparable,
}
use grain.Base.Decimal.{format_uint}
use grain.Base.Maybe.{maybe}
use grain.ActorId.{index_byte}

-- ':', '[', ']' and '.'
abbrev pub colon : ℕ
colon = 58

abbrev pub left_bracket : ℕ
left_bracket = 91

abbrev pub right_bracket : ℕ
right_bracket = 93

abbrev pub dot : ℕ
dot = 46

abbrev pub has_byte : Bytes → ℕ → Bool
has_byte [] c = false
has_byte (b ∷ s) c = nat_eqb b c || has_byte s c

-- `strings.LastIndexByte`; `none` is its -1
abbrev pub last_index_byte : Bytes → ℕ → Option ℕ
last_index_byte [] c = none
last_index_byte (b ∷ s) c =
    maybe (if nat_eqb b c then some 0 else none) (λ i. some (suc i)) (last_index_byte s c)

abbrev pub starts_with : Bytes → ℕ → Bool
starts_with [] c = false
starts_with (b ∷ s) c = nat_eqb b c

-- the last checks of SplitHostPort, on what may hold no '[' and what may hold no ']'
abbrev pub checked : (left right host port : Bytes) → Option (Bytes × Bytes)
checked left right host port =
    if has_byte left left_bracket || has_byte right right_bracket then none else some (host, port)

-- `net.SplitHostPort`
pub split_host_port : Bytes → Option (Bytes × Bytes)
split_host_port s =
    maybe none
      (λ i.
        if starts_with s left_bracket
        then maybe none
            (λ end.
              if nat_eqb (end + 1) i
              then checked (drop 1 s) (drop (end + 1) s) (take (end - 1) (drop 1 s))
                  (drop (i + 1) s)
              else none)
            (index_byte s right_bracket)
        else if has_byte (take i s) colon
        then none
        else checked s s (take i s) (drop (i + 1) s))
      (last_index_byte s colon)

-- `net.JoinHostPort`
pub join_host_port : Bytes → Bytes → Bytes
join_host_port host port =
    if has_byte host colon
    then left_bracket ∷ (host ++ (right_bracket ∷ colon ∷ port))
    else host ++ (colon ∷ port)

-- `net.IP.String` of an IPv4 address; GetTopInnerIP gives no other.
abbrev pub ip_string : Bytes → Bytes
ip_string [] = []
ip_string (b ∷ []) = format_uint b
ip_string (b ∷ c ∷ ip) = format_uint b ++ (dot ∷ ip_string (c ∷ ip))

-- "0.0.0.0", "::" and "127.0.0.1"
abbrev pub any_v4 : Bytes
any_v4 = 48 ∷ 46 ∷ 48 ∷ 46 ∷ 48 ∷ 46 ∷ 48 ∷ []

abbrev pub any_v6 : Bytes
any_v6 = 58 ∷ 58 ∷ []

abbrev pub localhost : Bytes
localhost = 49 ∷ 50 ∷ 55 ∷ 46 ∷ 48 ∷ 46 ∷ 48 ∷ 46 ∷ 49 ∷ []

-- `RpcService`; `gs` and `on_fatal` are whether they are not nil
pub record RpcService : Type 0 where
  pub listen_addr : Bytes
  pub addr : Bytes
  pub gs : Bool
  pub on_fatal : Bool

-- `NewRpcServer`
pub new_rpc_server : (listen_addr : Bytes) → (on_fatal : Bool) → RpcService
new_rpc_server listen_addr on_fatal = record {
  listen_addr = if listen_addr == [] then colon ∷ 48 ∷ [] else listen_addr;
  addr = [];
  gs = false;
  on_fatal = on_fatal;
}

abbrev pub is_wildcard : Bytes → Bool
is_wildcard host = host == [] || host == any_v4 || host == any_v6

-- `advertiseHost`; `inner_ip` is what GetTopInnerIP gives
pub advertise_host : Option Bytes → RpcService → Bytes
advertise_host inner_ip x =
    let inner = maybe localhost ip_string inner_ip in
    maybe inner (λ (split : Bytes × Bytes). if is_wildcard split.0 then inner else split.0)
      (split_host_port x.listen_addr)

-- `Start`, with whether it returned no error; `bound` is the address that net.Listen got, if it did
pub start : (bound inner_ip : Option Bytes) → RpcService → RpcService × Bool
start bound inner_ip x =
    maybe (x, false)
      (λ lis.
        maybe (x, false)
          (λ (split : Bytes × Bytes). (
            record x { addr = join_host_port (advertise_host inner_ip x) split.1; gs = true },
            true,
          ))
          (split_host_port lis))
      bound

-- How `Serve` ends: without an error, with ErrServerStopped, with io.EOF, or with another error.
pub data ServeEnd : Type 0 where
  no_error server_stopped serve_eof serve_failed : ServeEnd

-- whether the goroutine that serves calls `onFatal`
pub reports_fatal : RpcService → ServeEnd → Bool
reports_fatal x serve_failed = x.on_fatal
reports_fatal x _ = false

-- `Stop`, with whether it stops a grpc server
pub stop : RpcService → RpcService × Bool
stop x = if x.gs then (record x { gs = false }, true) else (x, false)

-- How `Recv` fails: with io.EOF, with code Canceled, or otherwise.
pub data RecvError : Type 0 where
  eof canceled other_error : RecvError

-- what `Recv` gives: an envelope, which may be nil, or an error
pub data Recv (Envelope : Type 0) : Type 0 where
  envelope : Option Envelope → Recv Envelope
  failed : RecvError → Recv Envelope

-- What `Listen` does: it hands an envelope over, recovers from a panic of the receiver, ignores a nil.
pub data Effect (Envelope : Type 0) : Type 0 where
  received : Envelope → Effect Envelope
  recovered : Effect Envelope
  ignored : Effect Envelope

-- the error that `Listen` returns
abbrev pub returned : RecvError → Option RecvError
returned eof = none
returned canceled = none
returned other_error = some other_error

module _ {Envelope : Type 0} where
  -- `recvEnvelope`; `panics` is whether the receiver does
  abbrev pub recv_envelope : (Envelope → Bool) → Envelope → List (Effect Envelope)
  recv_envelope panics e = if panics e then received e ∷ recovered ∷ [] else received e ∷ []

  -- `Listen`, on what its stream gives in turn; with what it returns, if it does
  pub listen :
      (Envelope → Bool)
      → List (Recv Envelope)
      → List (Effect Envelope)
      → List (Effect Envelope) × Option (Option RecvError)
  listen panics [] effects = (effects, none)
  listen panics (failed err ∷ stream) effects = (effects, some (returned err))
  listen panics (envelope none ∷ stream) effects = listen panics stream (effects ++ (ignored ∷ []))
  listen panics (envelope (some e) ∷ stream) effects =
      listen panics stream (effects ++ recv_envelope panics e)
