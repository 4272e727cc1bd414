-- ===== src/Rpc.antt =====
-- The two ends of an RPC connection: rpc/include/rpc/client.hpp, rpc/include/rpc/server.hpp and
-- their sources, with the typed methods of rpc/include/rpc/reflection.hpp.
pub mod Session
pub mod Server
pub mod Client
pub mod Listener
pub mod Reflection
pub mod Address
pub mod Agreement
pub mod Protocol
