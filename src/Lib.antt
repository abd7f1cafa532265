-- ===== src/Lib.antt =====
-- stream_relay: a model of the relay library, and what holds of it.
--
-- The library delivers messages to the subscribers of rooms. Its parts, and the modules here that model
-- them (paths from the root of the repository):
--
--   engine/types.go         Types: messages, rooms, options, events, and the interface Subscriber.
--   engine/protocol.go      Protocol: the error values, and Go's pair of a value and an error.
--                           Protocol/Messages: commands, replies and pushes, with their constructors.
--   engine/handler.go       Handler: ClientHandler, which serves one client. Handler/Connecting has
--                           connect, ping and the timer, Handler/Subscribing and Handler/Requesting
--                           the commands on a channel, Handler/Closing its Close. Silence, Hushed,
--                           Answers and Dispatch there have the replies, Rights the rights, Changes,
--                           Commands and Endings what a call does to the handler, Upkeep and Lives the
--                           invariant, Accounts the specification of a client and Moves the refinement,
--                           Leaving, Again and Expelled what is closed, Identity and Anonymous who a
--                           client is, Granted where its rights come from.
--   engine/memory_relay.go  RingBuffer: the history of a room. Memory: MemoryRoom and MemoryRelay.
--                           Memory/Rooms has the methods of a room, Memory/Deliveries its broadcast and
--                           safeDeliver, Memory/Relays and Memory/Requests the methods of the relay,
--                           Memory/MessageIds the identifiers. RoomInvariant, RoomSets and Reachability
--                           there have the invariant, Results, Retries and Panics the broadcast,
--                           Publishing, Recovering, Series and Histories what is stored and handed
--                           out, Closing what is closed.
--   engine/relay.go         RedisRelay: the relay on Redis, its rooms, and what it writes to their streams
--                           and reads from them. RedisRelay/Recovery has the methods that talk to the
--                           server, Offsets there what becomes of a stored offset. DirectRooms:
--                           GenerateDMRoomID, which both relays share. RedisRelay/Making has New and
--                           RedisRelay/Failing what is left open when that fails.
--   engine/options.go       RedisRelay/Making too: the options for relays and rooms.
--   engine/history.go       RedisRelay/History: the history of a room in its stream, and its loading from
--                           other storage; RedisRelay/Injected and RedisRelay/Injecting have the round
--                           trip.
--   engine/room.go          RedisRoom: a room of the relay on Redis, with its members and the goroutines
--                           that listen to its stream. It shares the loops of Memory/Deliveries.
--   engine/permissions.go   Permissions: Bits for the permission sets, Pattern for matchPattern, Checker
--                           for DefaultPermissionChecker, Checking for the interface PermissionChecker, any
--                           implementation of which a handler asks.
--   engine/namespace.go     Namespaces: the namespace manager and the channel names.
--   strconv, fmt            Decimal: the numerals of int64 values, as the code prints and reads them.
--   engine/broker.go        Dedupe: DedupeCache, which keeps a message from being delivered twice. Broker:
--                           what a broker sends to the other nodes; Broker/Reading its goroutines, which
--                           hear them; Broker/Cluster the relay of a node. Heard, Hearing, Waiting and
--                           Panics there have what is dropped, what waits and what panics, Turns the
--                           states of a broker, Retrying the attempts to publish, Nodes the way from
--                           one node to another.
--   redis/resp.go           Resp: the values of the wire protocol; Resp/Wire its writer and its reader.
--   redis/stream.go         Streams: the entries of streams and the reading of replies. Streams/Commands
--                           and Streams/Groups have the commands.
--   redis/client.go         Pool: connections and their pool. Pool/Clients has the client,
--                           Pool/Creating how a connection is made, Pool/Sizes the bound on the
--                           connections, Pool/Accounts and Pool/Made where each of them is, Pool/Lapses
--                           where they are lost or mixed up.
--
-- A relay owns its rooms, and a room owns its subscribers, their presence and its history. Publish of the
-- relay stamps a message, stores it in the history of the room, and broadcasts it; a delivery that panics
-- unsubscribes its user later. A handler serves one client: it asks the permission checker and the
-- namespace manager what the client may do, and is itself a subscriber of the rooms of its channels. The
-- relay on Redis keeps its messages in streams, through the commands of the client, which takes its
-- connections from the pool. In a cluster a broker beside the relay tells the other nodes what is published,
-- and what they tell is broadcast to the rooms of this one.
--
-- Conventions. Functions have the source's names in snake case, and take the state as an argument; what
-- they do to the world, that is calls of Close and of the event handler, is a list of effects. A method
-- of a struct with a lock is atomic. A clock reading is an argument; an operation reads the clock once,
-- and a time is a number of milliseconds. Strings and byte slices are lists of bytes. A Go map is a list
-- of entries without double keys, and the order of the list is that of a range loop: theorems are for
-- every order. Where the code takes a negative size, limit or duration like 0, the model has 0 for both.
-- Counters of 64 bits wrap around at 2 ^ 64. Pointers are modelled by value: a room, rule or message that
-- is changed through a pointer kept from an earlier call is not, and a handler that a room has as a subscriber
-- answers as it was when it subscribed. Where Go sends the entries of a map in no fixed order, as the fields
-- of a stream's entry, the model has one order.
--
-- What a subscriber does with a message is a parameter: its Receive returns, refuses or panics, for each
-- attempt. Which deliveries end while a broadcast waits is a parameter too, and so are the external
-- storage behind a history, the JSON of metadata and of the messages of the protocol, and the memory that
-- make has when the reader takes a length off the wire. The server is a function that takes a command and
-- a state of its own to an answer and the next state.
--
-- A room closes a connection while it holds its lock, and a handler that is closed so asks other rooms,
-- and perhaps the same one, for theirs. A call that waits for a lock which it holds itself has no end in
-- the model. Whether another connection that a room closes waits for a lock is a parameter. What the
-- handler writes to its transport and what it pushes to those of others is a list of acts; what a
-- broadcast of the relay gives to the subscribers, the handler itself among them, is not in it. A ping
-- interval is not negative.
--
-- Fuel. The main loop of matchPattern takes as many rounds as the pattern has bytes and one more, and a
-- read of a RESP value takes fuel for twice the length of its input and one more. For both it is proved
-- that so much is enough.
--
-- A goroutine is its rounds: each is a step on the state, which says where the goroutine stands, and a
-- theorem for every order of such steps and of calls is for every schedule of whole rounds. In Go a send to
-- a closed channel panics, and so does closing it again; a result that may be a panic is an option.
--
-- Not modelled: sockets, timeouts, contexts and JSON, and the re-exports, which have no logic.
pub mod Prelude
pub mod Decimal
pub mod Protocol
pub mod Types
pub mod Permissions
pub mod Namespaces
pub mod RingBuffer
pub mod DirectRooms
pub mod Memory
pub mod RedisRoom
pub mod RedisRelay
pub mod Resp
pub mod Streams
pub mod Pool
pub mod Broker
pub mod Handler
pub mod Dedupe
