-- ===== src/Lib.antt =====
-- newtbig: a framework for game and message servers in Go. A gate holds the clients' sessions; the
-- servers find one another through etcd, and a message goes to the server that a consistent hash
-- of its key names, over NATS. Paths are from the repository's root.
--
-- The parts and their files:
--   Ring, dispatcher/hash/hash_ring.go. A HashRing is a record; `add`, `remove`, `get` and the other
--     methods are functions of it. The ordered map below it, dispatcher/hash/maps, is a copy of
--     another project's library and so an interface, Ring.Interface, that Examples.Keys fills with
--     a list. hash/crc32 is Ring.Crc32. Ring.Points has the maps after a write as one law each,
--     Ring.Invariant the well-formedness, Ring.Lookup the specification of a lookup, the successor
--     of a hash on the circle, and Ring.Consistency which names move. Ring.Histories and
--     Ring.Agreement hold a ring after any changes against the set of its members.
--   Dispatcher, dispatcher/dispatcher.go, with Dispatcher.Service (dispatcher/service.go) and
--     Dispatcher.Proxy (dispatcher/proxy.go). A service is a record in the dispatcher's map, so a
--     write through its pointer is a write of the entry. What etcd delivers is a list of events,
--     which `watcher` takes one by one, after the keys that `start` reads. Dispatcher.Tracking
--     follows one service through the events, Dispatcher.Counting its count, and
--     Dispatcher.Agreement compares two dispatchers. Dispatcher.Statuses follows the status that is
--     held for a key. Dispatcher.Discovery and Dispatcher.Registered hold a dispatcher against the
--     history of etcd, Dispatcher.Clearing has Clear, and Dispatcher.Watching the watcher's goroutine
--     and Stop.
--   Etcd, etcdclient/etcd_client.go: the client over what is around it. Etcd.History, Etcd.Directories
--     and Etcd.Values are about a log of etcd: the keys and the values that it holds, and what it
--     sends to a watch.
--   Registry, service/service.go: register and deregister, the calls that a start, a run and a stop
--     make, given which fail, and the ticker loop as a function of the ticks. Registry.Goroutines
--     has Run and that loop as two goroutines, by a step relation, Registry.Places what holds at each
--     place of them, Registry.Races what they do to the key in etcd, and Registry.Context has
--     service/context.go.
--   Rpc, rpc/. Rpc.Nats has the subjects and the handlers of rpc/mq/mq_nats.go and
--     rpc/mq/register.go; a handler's effect is the destination of the message. Rpc.Client is the
--     client with its channels, Rpc.Handlers its two loops, Rpc.Stream rpc/mq/mq_nats_stream.go, and
--     Rpc.Facade rpc/rpc.go: a call goes to the dispatcher, and what the chosen proxy asks for to
--     the client. Rpc.Subjects ties it to Registry and Dispatcher.Proxy: a server registers a key,
--     another reads the key, and the two must name the same subjects. Rpc.Delivery follows a message
--     from the sender's call to the receiver's handler. Rpc.Channel is a buffered channel.
--   Process, process/processor.go: the handlers and their recorded times. A panic is a value.
--     Process.Dump is Dump, with process/perf_recorder.go, Process.Dump.Orders what it reports, and
--     Process.Silence is about a processor that does not measure.
--   AppServer, server/server.go and server/proxy/proxy.go: the loop that hands messages to the
--     processor and counts them by key, and the proxy's loop.
--   Gate.Session, gate/session/session.go, and Gate.Manager, gate/session/session_mgr.go. Sessions
--     and the manager refer to one another, so their state is a World: sessions by id, the manager,
--     and the calls to the servers. Gate.Run has the goroutines' loops one turn at a time; a history
--     is any list of such steps, so it covers every interleaving of whole turns. Gate.Run.Limits is
--     about many turns of one session, and Gate.Run.Inbound about a client's message. Gate.Arrival
--     is what the gate does with the messages of its NATS client, and Gate.Handle has gate/handle.
--   Gate.Tcp, gate/connect/tcp/connect.go: frames over a stream of bytes, with the send buffer that
--     keeps old bytes. Gate.Ws, gate/connect/ws/connect.go: a connection over a socket with
--     deadlines. Gate.Server, gate/server/tcp.go, ws.go and server.go: the accept loop, the callback
--     loop, and in Gate.Server.Life where the server listens and what stopping it closes.
--   Journey composes the dispatcher and the client of a sender with the handlers of a receiver, and
--     with a gate's manager and sessions on either end.
--   Demo, demo/: Demo.Apps has the messages, handlers and routes of the gate and the application,
--     Demo.Login the pages of the login server, and Demo.Json the JSON processor. Demo.Meeting is about
--     where the login server sends a client, and where the application's replies to it go.
--   App, app/options.go, app.go and gate.go: App.Configuration reads the options from settings, flags
--     and the configuration file, App.Life has the calls of OnInit, Run and OnDestroy in order, and
--     the timer of ExitWaitTTL.
--   Common, common/define.go and the message of msg/framepb. Options, module/options.go, with the
--     setters in Options.Settings. Utils, utils/rand.go, timer.go and net.go, with
--     utils/file/file.go in Utils.File. Strings, what is used of strconv, strings and path/filepath.
--     Prelude, the shared names: Go's maps as association lists, results, tests, byte strings.
--   Examples, the tests, with concrete data.
--
-- Numbers are natural numbers; an int32 or int64 counter is its bit pattern and wraps with `%`, a
-- size in a frame's head is cut to 16 or 32 bits, and an id's decimal text is written with one unit
-- of fuel more than the number, which is enough since every division by ten takes at least one away.
-- No other function has fuel: loops go over lists or over a counter of the source.
--
-- Parameters stand for code that is elsewhere: protobuf's Marshal and Unmarshal, the verify callback,
-- the server's own calls, CheckRoute where a session asks it, what NATS, etcd, viper, the file system,
-- JSON and the WebSocket library answer, sort.Sort, the random source, and the ordered map. Not
-- modelled are these libraries themselves and the logging; the deadlines of TCP connections; a wait on
-- a full channel, but for the send queue of Rpc.Client; and the start of goroutines but for the one of
-- a service, so that the other loops are given as sequences of turns.
pub mod AppServer
pub mod App
pub mod Utils
pub mod Prelude
pub mod Strings
pub mod Common
pub mod Options
pub mod Ring
pub mod Dispatcher
pub mod Etcd
pub mod Registry
pub mod Rpc
pub mod Process
pub mod Gate
pub mod Journey
pub mod Demo
pub mod Examples
