-- ===== src/Resp.antt =====
-- redis/include/redis/resp.h: packing and unpacking of RESP2 values.
pub mod Types
pub mod Number
pub mod Line
pub mod Pack
pub mod Parse
pub mod Unpack
mod Examples
