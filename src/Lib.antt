-- ===== src/Lib.antt =====
-- grain, an actor framework for Go: the parts of it that decide what a program built on it sees.
--
-- An actor is a mailbox with a state machine around it. A send pushes a message into the mailbox and
-- schedules a drainer; the drainer pops and handles messages one at a time under a permit, hands its
-- role to a successor when a handler waits in an Ask, and stops the actor when that was requested. A
-- grain is an actor of the cluster: every node computes its owner from the member list, and the owner
-- builds it when its first message comes. An actor is known by an id, a text that is parsed on each
-- envelope, and is found by it in a sharded map. An Ask waits on a channel in a table, where its reply
-- or the shutdown finds it. A node claims its number in etcd, and its lease there keeps the locks of
-- its grains until all of them have stopped.
--
-- The files, and what they model (paths from the repository's root):
--   Ring      al/ringbuffer/ringbuffer.go. RingBuffer is the struct, and new, push, pop, grow, close
--             are its methods; a panic of Go is `none`. Ring/Window, Ring/Inv and Ring/Refine hold the
--             invariant and the refinement of the abstract queue of Queue.
--   Scheduler processor_scheduler.go, execution.go, execution_gate.go, processor_lifecycle.go,
--             processor_mailbox.go. Actor is the shared state, Pc the place of a goroutine, Move one
--             atomic step of it, Step a step of the system, Reach what is reachable from the spawn. The
--             mailbox is the abstract queue that the ring refines. Actor also counts what user code is
--             called for: handled is what dispatch was given, receive_ends and started_calls the calls.
--   Spawn     registry.go and processor_spawn.go: the goroutines that spawn, look up and remove the
--             process of one id, in the same form: Spawner is the registry's entry with the creation
--             slots, Move a step between two operations of them. A process may run from its
--             registration on, as a send can start it before its spawn does.
--   Ask       the pending table: registerAsk, deliverReply and cancelAsk of system.go, wakePendingAsks
--             of system_life.go and askImpl of request_helper.go, in the same form, for any number of
--             Asks. The functions of Ask are the critical sections; Move composes them.
--   Uuid      uuid/uuid.go, uuid/uuid_global.go and nextSnId of system.go.
--   AddrHash  addr_hash.go: the hash, the turn of the loop (consider) and the owner of a name.
--   ActorId   actor_parse.go, actor_name.go, actor_wrapper.go, reply_ref.go and GetClusterActorRef of
--             system.go.
--   Routes    the member table of provider_etcd.go and routing_resolver.go: Provider with parse_watch,
--             the generation and the route cache (resolve), against routes with no cache.
--   Activation kind_opts.go with setTxn and removeTxn of provider_etcd.go: the registration of a grain,
--             with etcd as a parameter (the record Etcd), and the nodes that race for it.
--   Node      register, freeNodeIds and loadMembers of provider_etcd.go with the keys of config.go: one
--             round of a claim (register_round), and the nodes that race for ids (Node/Unique).
--   Stop      system_life.go from WaitStopSignal on, with start and releaseEtcd of provider_etcd.go: the
--             drain in two phases (stop_actors) and what is given up after it.
--   Dispatch  tellWithSender, sendToLocal and sendToRemote of system.go, with activation on demand of
--             system_cluster.go; the effects of a send are listed. Dispatch/Receive is
--             system_envelope.go and Reply of context_impl.go, Dispatch/Cluster clusterMemberChanged,
--             Dispatch/Named Spawn and SpawnNamed, Dispatch/Control Poison.
--   EventStream event_stream.go and system_eventstream.go over al/safemap/rwmap.go: the subscribers of
--             a node, and the keys by which nodes know of one another; EventStream/Follow is its
--             start over Watch, and what reaches the other nodes then.
--   StreamWrite stream_write.go: the writer of a stream from its start to its stop.
--   Gonet     al/gonet/gonet.go: the address that a node tells the cluster.
--   Watch     provider_etcd.go, what a node follows in etcd: load_members and the goroutines of
--             watchMembers, watchEventStream, WatchNodeExtData and keepAlive. Watch/History says what
--             etcd's answers are, those of one history; Watch/Members is the start up to the watch.
--   Server    remote/stream_server.go: listen, start with advertise_host, and stop, with
--             net.SplitHostPort and net.JoinHostPort written out.
--   Request   askImpl and awaitReply of request_helper.go, Ask of baseactor.go and currentExecution of
--             execution_gate.go: one call of Ask; Ask has what interleaves with it.
--   Codes     message/msg.code.go: ErrCode.Is and CodeOf over chains and joins of errors.
--   Timer     startTimer of schedule.go: the timer of a repeated delivery, in the form of Scheduler.
--   Config    config.go, config_with.go, kind_opts.go and kind_opts_with.go: options as values, applied
--             in order.
--   SafeMap   al/safemap/concurrentmap.go: one function for each operation on a key; in SafeMap/Iter
--             IterCb and registry.go's rangeIt, in SafeMap/Drain the copies through channels, with the
--             entries of a shard in any order.
--   Base      shared helpers: lists, comparable keys, integers, bits, decimal text.
--
-- Bounds and fuel. uint32 and uint64 operations wrap, written out as `% 2 ^ w`. Capacities of the ring
-- are int64 below 2 ^ 62, so that doubling does not wrap. The wait of Generate for the next
-- millisecond runs on fuel, which is enough once it exceeds the number of readings that the clock
-- stays on one value, plus one; the clock's 42 bits last until 2164. A phase of the drain runs on fuel
-- for its looks at the registry, which is enough once the clock passes the phase's deadline within
-- them. A decimal text is written on fuel above its number. The rounds of register are 16, as in the
-- source.
--
-- The leases behind registrations and member keys are taken to last.
--
-- Not modelled: user code itself (it returns, panics or exits at any time), logging, gRPC, the texts
-- of errors, and generated code. Goroutines that work on different actor ids are modelled one id at a
-- time.
pub mod Base
pub mod Ring
pub mod Queue
pub mod Scheduler
pub mod Uuid
pub mod AddrHash
pub mod ActorId
pub mod SafeMap
pub mod Spawn
pub mod Ask
pub mod Config
pub mod Routes
pub mod Activation
pub mod Node
pub mod Watch
pub mod Stop
pub mod EventStream
pub mod StreamWrite
pub mod Codes
pub mod Request
pub mod Timer
pub mod Gonet
pub mod Server
pub mod Dispatch
