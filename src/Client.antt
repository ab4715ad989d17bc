-- ===== src/Client.antt =====
-- The client crate: the transport over the bus, message sets, and the request client.
pub mod Transport
pub mod Requests
pub mod Reader
pub mod Exchange
pub mod MessageSet
