-- ===== src/Lib.antt =====
-- Verification of disqueue, a server for message queues over HTTP and WebSocket, written in C.
--
-- The program. src/queue.c keeps one queue: items with an optional key, and callbacks of clients that
-- wait for an item. src/manager.c keeps the queues by name, the wants (one for each waiting WebSocket
-- client) and the servers. src/connection-http.c and src/connection-ws.c answer the requests: they
-- find a queue through the manager, call queue.c, and encode what they found with src/protocol.c.
-- src/ws.c makes WebSocket connections, and receives, sends and closes on them. src/auth.c and
-- src/auth-plaintext.c check passwords, src/ssl.c keeps the certificate. src/main.c reads the
-- configuration by src/config.c and sets up one server after the other; then one event loop runs, so
-- that a request, with the callbacks that it sets off, is one step.
--
-- The files, and what they model.
--   Base         lists, results, Boolean tests, signed integers, C strings
--   Queue        src/queue.c and src/queue-internal.h. State: the structs; Item: queue_item_*; Ops: the
--                operations on a queue. The others are proofs: Counts and Skips on the counters,
--                Distinct on addresses, First on what an operation finds, Borrow on the memory of an
--                item, Invariant on the counters and lists, Refinement on sequences of calls (History)
--                beside the Mailbox of that file, RoundTrip and Lock on pairs of calls, Release on
--                queue_free
--   Manager      src/manager.c and src/manager-internal.h. State: the structs; Uuid: queue_get_uuid,
--                with the reading of a name in Uuid/Scan; Registry: manager_queue_get and _free;
--                Wants: manager_queue_want_*; Shutdown: manager_shutdown
--   Protocol     src/protocol.c; Json is json-c, as far as it is called
--   World        the registry and the connections together, with the structs of src/ws-internal.h
--   Ws           src/ws.c: sending, closing and freeing. Receive: messages from a client; Upgrade: the
--                handshake; Header: header_contains; Callbacks: those for the bytes of a socket. The
--                others are proofs: Store on pointers, Gone and Dangling on the end of a connection,
--                Framing on what sending leaves alone, Messages and Freed on the messages received,
--                Upgrade/Opening on who gets a connection
--   Connection   Wait: src/connection-ws.c, with proofs on deliveries in Wait/Delivery, Wait/Pointers,
--                Wait/Runs and Wait/Answer; Http: src/connection-http.c, its handlers in Http/Handlers
--   Auth         src/auth-plaintext.c: the password file, and the check of a header against it; Methods:
--                src/auth.c, with the data that the objects have at one moment (Auths), which
--                stands beside the world while a request is authenticated
--   Ssl          src/ssl.c
--   Config       src/config.c. Entries: one entry of a file; Load: the file; Bounds: proofs
--   Routes       manager_add_server of src/manager.c, and the dispatch to the callbacks that it sets;
--                Evws: struct evws and the setters of src/ws.c
--   Main         src/main.c. Startup, Ending, Keys, Access and Forever are proofs
--   System       the runs of the event loop: Reachable has the callbacks of libevent as steps. Sound is
--                what every step keeps; Lookup, Wants, Guards, Items, Handlers, Waiting, Sockets and
--                Upgrade show it of one callback each; Service is what a client meets after any run
--   Tests        concrete inputs, and the theorems at them
--
-- How the code corresponds. A C function has a definition of its name. A struct is a record, a TAILQ
-- the list of its nodes, and a pointer the number of an address. queue.c reaches a Store: the queue,
-- the items that are in no list but not freed, and the rest of the world (`ext`), which a callback may
-- change. A read or a free of an item through an address at which none lies is a fault
-- (use_after_free). A `size_t` wraps around at 2^64. Whether malloc, OpenSSL, json-c and wslay succeed
-- is an argument of the operation that calls them. A response is the record of what is handed to
-- libevent or to wslay.
--
-- Bounds and fuel. The counters of a queue are read modulo 2^64, so that the theorems on the loops
-- they skip ask for fewer than 2^64 nodes; those on a run of the server ask for fewer than 2^64
-- requests and messages, each of which adds one node at most. The loops over the servers in
-- manager_shutdown and in main have fuel; main needs one more round than there are servers.
-- `unsigned long` has 4 or 8 bytes, a parameter of the functions that write through a pointer to
-- it, on a little-endian machine.
--
-- Not modelled. libevent, wslay, json-c, getopt and OpenSSL are parameters; a run of the event loop is
-- any sequence of the callbacks that the program has given to libevent, and it leaves open what data
-- the authentications have at each of them. Functions that only free (config_free, auth_free,
-- auth_plaintext_free_), the address of a peer and the texts that are printed are left out.
-- src/getopt.c and the .in headers are copies of system files; the clients are not part of the server.
pub mod Base
pub mod Auth
pub mod Queue
pub mod Manager
pub mod Json
pub mod Protocol
pub mod World
pub mod Ws
pub mod Connection
pub mod Ssl
pub mod Config
pub mod Routes
pub mod Main
pub mod System
pub mod Tests
