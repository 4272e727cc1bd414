-- ===== src/Lib.antt =====
-- smoljudge: a verification development for the RPC layer of the judge, the code that lets the
-- broker, the invokers and the registry call each other's methods over a stream of bytes.
--
-- The program's parts and how they interact. A server or a client (rpc/src/server.cpp,
-- rpc/src/client.cpp) owns a socket (rpc/include/rpc/socket.hpp) around a libuv handle. The socket
-- cuts the bytes that arrive into a handshake message and then messages (rpc/include/rpc/common.hpp,
-- in the format of rpc/include/rpc/serialization.hpp) and hands each to two callbacks of its owner.
-- The owner matches the methods of the two ends in the handshake, and afterwards runs the methods
-- that are called, answers them and settles the promises of its own calls. Typed methods
-- (rpc/include/rpc/reflection.hpp) stand on top of that.
--
-- Where what is modelled:
--   Prelude            shared names; Outcome is a call that returns, throws or is undefined, Run the
--                      same for a call that changes a state, Dict is `std::map`
--   Wire.Types         the types that can be serialised, as a universe with its values
--   Wire.Integers      the integral templates of rpc/include/rpc/serialization.hpp, as they are on
--                      machines of both byte orders
--   Wire.Codec         `serialize_to`, `deserialize_to`, `serialize`, `deserialize`
--   Wire.TypeString    `join_strings` and `type_string`, the texts that signatures are made of
--   Messages           the four structs of rpc/include/rpc/common.hpp
--   Socket             rpc/include/rpc/socket.hpp: `generic_socket` and `socket`
--   Rpc.Session        the fields and the `on_message` that rpc/src/server.cpp and rpc/src/client.cpp
--                      have in the same words
--   Rpc.Server         rpc/src/server.cpp: the constructor's table and `server_client`; in
--                      Rpc.Server.Lives the states that one comes to, as a relation, throws included
--   Rpc.Listener       rpc/src/server.cpp: the list of clients, `bind`, `_bind_impl` and `stop`, as the
--                      steps of a server
--   Rpc.Client         rpc/src/client.cpp: `generic_client`
--   Rpc.Address        the addresses that the constructor of `generic_client` and `bind` read
--   Rpc.Reflection     rpc/include/rpc/reflection.hpp: the functions behind typed methods and proxies
--   Rpc.Protocol       rpc/include/rpc/reflection.hpp: protocols, the lists of methods that the two ends
--                      make of them, and the servers and clients made of protocols
--   Rpc.Agreement      the two ends together: the client's hello, the server's answer to it, what the
--                      client makes of that, and a call on its way there and back
--   Async              common/include/common/async.hpp: both classes `_promise_impl`, what is chained to
--                      promises, and exception handlers
--   Registry           registry/src/main.cpp: the methods of `registry_impl`
--   Programs           registry/src/main.cpp, broker/src/main.cpp, broker/src/queue.cpp and
--                      invoker/src/main.cpp: the `main` functions, with their configuration and signals
-- Child modules are named for what they prove, and for tests.
--
-- How state and operations correspond. A connection is a `Conn`: the bytes `message_piece` that are
-- not handled yet, and a `Peer`, which is the socket's flags, the log of calls on its handle, the
-- number of `shared_ptr`s to it, and the object that owns it. A callback is a function on `Peer`,
-- since it cannot reach the bytes. A C++ function that can throw is a function into `Run`, which
-- keeps the state at the point of the throw; the value `wild` stands for undefined behaviour, in
-- particular for a socket that goes on after its last reference is gone.
--
-- Choices. Messages are assumed to fit in memory: `resize` and `insert` do not throw. `int` counters
-- of failures and `client_id`s do not overflow; ids of messages wrap at 2 ^ 64, sizes of messages
-- at 2 ^ 32. `std::tolower` is that of the "C" locale. `Codec` is the deployed, little-endian build.
-- The receive loop runs on fuel, the length of the bytes, and every round takes at least four of
-- them, since a message that can be read has at least four.
--
-- The user's code, that is the member functions behind methods and what is chained to promises, is
-- the parameter `User`: methods return at once, or a promise, or throw. The order in which libuv
-- delivers events is not fixed; each event is a function on its own. A reply whose promise is set
-- later is modelled for the connection that it belongs to: the continuation of a method's promise
-- stays attached until another one replaces it or the promise is destroyed. Whether a file can be
-- removed is a parameter of `stop`, which throws where it cannot. The files that exist do not
-- change while a server is bound to its addresses. The resolution of names, the file system, the
-- JSON parser and the object of class `registry`, of which the repository has the declaration
-- only, are parameters of Rpc.Address, Registry and Programs. `std::terminate`, which the handlers
-- of exceptions can call, ends a run like undefined behaviour does where a `Run` is asked for.
--
-- Not modelled: libuv itself; `unique_function` and the class `promise`, which wrap
-- `std::function` and a pointer to `_promise_impl`; log output; and the order in which the static
-- members behind protocols and texts of types are initialised. The log of calls on a handle holds
-- the bytes of a write as they were when it was called; how long the buffer behind them lives is
-- not modelled. The promises of Async are single cells: in Rpc.Session a promise is known by its
-- identity only.
pub mod Prelude
pub mod Wire
pub mod Messages
pub mod Socket
pub mod Rpc
pub mod Async
pub mod Registry
pub mod Programs
