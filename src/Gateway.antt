-- ===== src/Gateway.antt =====
-- src/gateway: the error vocabulary, the request envelope, and the routing of a request.
pub mod Errors
pub mod Json
pub mod Verify
pub mod Auth
pub mod Served
pub mod Envelope
pub mod Route
pub mod Stages
pub mod Egress
