-- ===== src/Session.antt =====
-- The session of an endpoint: the packer, and rpc_server.go and rpc_client.go over it.
pub mod Packer
pub mod Open
pub mod State
pub mod Serve
pub mod Client
pub mod Retrieve
pub mod Requests
pub mod Invariant
pub mod Wire
