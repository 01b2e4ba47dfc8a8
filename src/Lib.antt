-- ===== src/Lib.antt =====
-- A verification library for pcap-sidecar, a sidecar that captures the packets of a container,
-- translates them, and exports the capture files to a bucket.
--
-- Nine parts of the program are modelled. They meet in the configuration: the providers turn the
-- texts of the configuration into a BPF expression for the capture and, for the engine that cannot
-- use one, into the in-process filters, which the provider of process filters changes while they are
-- used; an engine gives its packets to the transformer, which takes them, with one commitment to
-- write for each writer, through the translator pool, the queues and the writers; its worker asks the
-- in-process filters of every packet, and holds the lock of the connection while it links requests
-- and responses by their traces; the capture files that the engines write are exported by the
-- watcher of their directory.
--
-- Filters: pcap-cli/internal/transformer/packet_filter.go, utils.go, and the tests by which
--   translator_worker.go decides on a packet.
--   Filters/TcpFlags: tcpFlags, parseTCPflags, isConnectionTermination, materialize, mergeTCPFlags.
--   Filters/Addrs: net/netip as far as it is used, ipLessThanFunc. Filters/Libs: hashes, sets, trees
--   and parsers, as parameters with the laws that their documentation gives.
--   Filters/Config: the record pcapFilters (PcapFilters) and each method that changes it, under its
--   name in snake case (AddIPv4Range is add_ipv4_range). Filters/Queries: each method that asks.
--   Filters/Worker: shouldTranslate and what it calls, on a record Packet of the layers.
--   Filters/Admission: an independent description of the packets that pass, and theorems on it.
-- Providers: tcpdumpw/pkg/filter, and providePcapFilter of pcap-cli/pkg/pcap/pcap.go.
--   Providers/Apply: applyFilter and the composition. Providers/Ports: the Get of the providers of
--   ports and TCP flags. Providers/Protos: those of layers 3 and 4. Providers/Addresses: those of
--   host names and addresses. Each Get takes the filters and returns them with the expression.
--   Providers/Texts: Split and Join; the case foldings and parsers of the standard library and the
--   resolver are parameters. Providers/Laws: theorems.
-- Engines: pcap-cli/pkg/pcap/gopacket_engine.go and tcpdump_engine.go. An engine makes its BPF
--   expression from the providers and gives its packets, numbered, to the transformer.
--   Engines/Gopacket: newPcap, Start and NewPcap of Pcap, with the answers of the calls (Calls) and
--   what the loop receives as arguments. Engines/Tcpdump: buildArgs, findAndKill and Start of Tcpdump.
--   Engines/Starts: theorems.
-- Processes: tcpdumpw/pkg/filter/process_filter_provider.go. The provider denies and allows the sockets
--   of the processes that supervisord names, in the in-process filters.
--   Processes/Keys: the keys of processes and sockets, toSocket. Processes/Provider: one round of a
--   process, from getTCPsockets to applyFilter, on the tracked keys and the filters (Tracking).
--   Processes/Ticks: setFilter. Processes/Parts, Tracks, Rounds and Panics: theorems.
-- Transformer/Flow: pcap-cli/internal/transformer/transformer.go with unordered output. The state has
--   the wait group, the tasks of the two pools and the queues of the writers; Apply, the functions of
--   the pools, publishTranslation and a turn of consumeTranslations are functions on it, and
--   Flow/Steps lets them run in any interleaving. Flow/Balance and Flow/Reached: the invariant;
--   Flow/Cancelled: the rollback. Transformer/Shutdown: WaitDone.
-- Transformer/Order: the same file with ordered output or connection tracking: the channels ich and och
--   (Ordered), the producer, and each consumer with its queue (Writer). Order/Steps: the
--   interleavings; the package concurrently delivers the translations in order, as its documentation
--   says. Order/Lists, Writers, Kept, Moves and Prefix: the order of what the writers are given.
-- Transformer/Worker: translate and Run of pcap-cli/internal/transformer/translator_worker.go, with the
--   translator as a parameter and the order in which the layers arrive as an argument.
-- Flows: pcap-cli/internal/transformer/flow_mutex.go.
--   Flows/Libs: the maps of the packages haxmap and skipmap as parameters, and memory that pointers
--   (numbers) point into. Flows/Carriers: flowLockCarrier, and what the mutex does to its counters.
--   Flows/Tables: the state flowMutex (FlowMutex), getTracedFlow, trackConnection and
--   untrackConnection. Flows/Sessions: lock and the functions it returns, which take what they have
--   captured as a record Session, the functions of the timers, and the reaper at one flow.
--   Flows/Steps: newFlowMutex, and the steps of the goroutines in any interleaving. Flows/Counters,
--   Evolution, Unlocks and Reached: the counters; Flows/Greatest and Lookup: the linked traces;
--   Filled and Present: the maps without an empty entry; Freed: the lock. untrackConnection is a
--   function that runs without another goroutine in between. A session that ends with the context and
--   the reaper call it under the lock of the carrier; a timer calls it without, which is no step of
--   Flows/Steps, and Flows/Nils has what a lookup finds between its halves. The code that a panic on a
--   nil traced flow skips is kept, with the panic noted in the state.
-- Json: pcap-cli/internal/transformer/json_translator.go, on the state of Flows.
--   Json/Libs: the expressions, parsers, frames and sets that it calls (JsonLibs). Json/Layers: the
--   identifiers of flows, as numbers where the code has their texts, and finalize up to the lock.
--   Json/Documents: what an analysis writes. Json/Headers: addHTTPHeaders, addHTTPBodyDetails,
--   recordHTTP11Request and linkHTTP11ResponseToRequest. Json/Frames and Http: trySetHTTP, with what
--   its deferred function has at hand as a record (Scan). Json/Final: addAppLayerData, and finalize
--   from the lock on. Json/Options: the option of the window scale. Json/Output: toJSONBytes and write.
--   Json/Calm, Nils, Linked, Directions, Runs, Releases, Streams, Kept and Links: theorems.
-- Supervisor: tcpdumpw/main.go, its arguments and answers of the system as parameters.
--   Supervisor/Setup: parseEphemeralPorts, appendFilter and the filters of main. Supervisor/Tasks:
--   createTasks. Supervisor/Stops: start, waitJobDone and waitDone. Supervisor/Ranges and
--   Devices: theorems.
-- Fsnotify: pcap-fsnotify.
--   Fsnotify/Exporter: internal/gcs, one export with what the disk and the bucket answer (Attempt)
--   as an argument, what gets lost of the output included; the retries are the list of the attempts
--   that are made. Fsnotify/Endings: which goroutines end main; the test and the call of cancel are
--   two steps.
--   Fsnotify/Watcher: main.go. Defs has the state of the event loop (Watcher), exportPcapFile, the
--   loop over the events and flushSrcDir, whose exports run in an order that is an argument; Rotation, Events, Queue and Flush the theorems.
-- Common has the shared types, tests, lists, bits, and the interfaces of sets and maps; Samples has
-- instances of every parameter; Examples applies the theorems and tests the definitions on inputs.
--
-- Bounds: the counters of the watcher are a uint64 and the number of flushed files a uint32, with
-- their wrap-around; a theorem that needs that they do not wrap says so. The number of active
-- requests of a connection is an int64, written as a number modulo 2 ^ 64. Every loop is structural
-- recursion over a list, except the last loop of untrackConnection, which gets as many rounds as
-- there are active requests, since each takes one off. The channels of the
-- transformer are unbounded lists: a full one only delays a step.
--
-- Not modelled: the panics in the pools of the transformer and the consumers when a queue is closed
-- before the context is done, the translations of the layers but for the fields that finalize reads,
-- the text and protobuf translators, the writers of the capture files, the schedule of the captures,
-- deadlines and tickers, untracking by a timer as an interleaving, logging, and generated code. IPv6 zones are left out, since packets and
-- configured ranges carry none. What the libraries answer (parsers, regular expressions, frames,
-- storage) is an argument or a parameter of the definitions.
pub mod Common
pub mod Filters
pub mod Fsnotify
pub mod Flows
pub mod Json
pub mod Engines
pub mod Processes
pub mod Providers
pub mod Supervisor
pub mod Transformer
pub mod Samples
mod Examples
