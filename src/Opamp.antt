-- ===== src/Opamp.antt =====
-- internal/opampserver: the registry of the collectors (registry.go) and the server of the
-- protocol (server.go). A connection is known by a number; a Go map is a function into `Option`,
-- except `collectors`, over which the code ranges, and which is a list.
pub mod Registry
pub mod Server
pub mod Push
pub mod Connect
