-- ===== src/Lib.antt =====
-- Goop2: the parts of the peer-to-peer program that decide something by themselves, modelled from its
-- Go code, with what makes them correct.
--
-- The parts:
--   * a cluster: one peer hosts a queue of jobs and hands them to the workers that joined. Types, Store,
--     Queue, Dispatcher, Worker and Manager under Cluster/ stand for the files of these names in
--     internal/group_types/cluster (Manager/Messages and Manager/Events for messages.go and handler.go,
--     Store also for internal/storage/cluster.go). The manager owns a queue and a dispatcher as host, and
--     a worker as worker; the dispatcher takes jobs from the queue and sends them, the worker answers by
--     messages, and the manager's handlers change the queue and the dispatcher. Manager/Wire has the maps
--     that the senders build, against the handlers that read them.
--   * the peers seen by a node: Peers is internal/state/peers.go, with the window of timings.go.
--   * Util/RingBuffer is internal/util/ringbuf.go, and Chat/History is
--     internal/group_types/chat/history.go, whose proofs go through the ring buffer.
--     Chat/Rooms is the rest of that directory: the rooms of a node over its groups and the message
--     queue. Chat/Storm puts the nodes of a room beside each other, with the messages under way.
--   * groups: a node hosts groups and is a member of others. Groups is one hosted group of internal/group
--     (host.go, and the host's side of routing.go) with what the host sends to the members, calls in the
--     type's handler (for a cluster, Cluster/Manager/Events) and writes to the database. Groups/Table is
--     the table of all hosted groups with their rows (host.go, manager.go, internal/storage/groups.go);
--     an operation on one group is followed by the writes among its effects. Groups/Client is the
--     member's side (client.go and the rest of routing.go), and Groups/Client/Handshake lets a join of a
--     member meet the answer of a host.
--   * Mq is the message queue over which groups and browsers talk, internal/mq/manager.go with
--     protocol.go and topics.go: Mq/Steps takes its goroutines apart into steps, Mq/Sending is Send, and
--     Mq/Exchange lets sendOnce of one node meet handleIncoming of another.
--   * Listen is the host of a listening group, internal/group_types/listen: Listen has the data and the
--     load of a track, Listen/Host the operations of host.go and events.go.
--   * Datafed is internal/group_types/datafed: the tables that the peers of a group offer each other;
--     Datafed/Slots has what a group knows of one peer, and Datafed/Sources what a query can read.
--   * Lua/RateLimiter is internal/lua/ratelimit.go.
-- Base has what they share: Go's maps as association lists, `int` with its wrap-around, JSON values,
-- times. Tests runs the models on concrete inputs.
--
-- A record stands for a struct and a function of it for a method; names are those of the code in snake
-- case (NextPending is next_pending). A mutex makes a method one step. An `int` is an integer whose
-- increments wrap at 64 bits; a time is the number of nanoseconds since Go's zero time, and a call reads
-- the clock once. The order in which `range` visits a map is the order of the list, so that a statement
-- about every map is one about every order; where calls after each other may see other orders and the
-- result depends on it, in pickWorkerForType, each call has its own. A number in a message goes through a
-- float64. `none` or `panic` stands for a run-time panic.
--
-- Fuel: the rounding to a float64 has 11 doublings, which reach 2^64. Otherwise only the loop of dispatch has fuel. A round either ends the loop, or hands a job out for good, or
-- counts one failure of a job, of which MaxRetry allows only so many; the sum of what is left, `budget` in
-- Cluster/Dispatcher/Rounds, is enough. The goroutines of a worker and of the message queue are steps
-- that may come in any order.
--
-- Not modelled: the subprocess that a worker runs (its answer is an argument), the network (its errors
-- are a parameter that may depend on all messages sent, and a stream of the message queue is one that says
-- what comes back), the cryptographic library (a parameter), the content of audio files (what a probe of
-- a file finds is an argument), positions in a track (the answer of the one test on them is an argument),
-- SQLite (a table, and a switch that says whether its statements succeed; for the groups it works),
-- logging, and the other parts of the program: reconnects and invitations of groups, listeners, the
-- closing of chat rooms by their context, calls, the
-- object mapper, the rendezvous server, the user interface.
pub mod Base
pub mod Util
pub mod Chat
pub mod Lua
pub mod Mq
pub mod Listen
pub mod Datafed
pub mod Peers
pub mod Groups
pub mod Cluster
pub mod Tests
