-- ===== src/StatusLists.antt =====
-- service/src/status-lists: the domain layer between the routes and the services.
pub mod Bitstring
pub mod Credential
pub mod Manager
