-- ===== src/Wire.antt =====
-- rpc/include/rpc/serialization.hpp: the types that can be sent, their values and their bytes.
pub mod Types
pub mod Integers
pub mod Codec
pub mod TypeString
