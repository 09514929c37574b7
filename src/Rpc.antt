-- ===== src/Rpc.antt =====
-- src/common/rpc.c: the JSON scanner, the request parser, the request hash and the responses.
pub mod Scan
pub mod Literal
pub mod Value
pub mod Hash
pub mod Param
pub mod Request
pub mod Parse
pub mod Response
