-- ===== src/Server.antt =====
-- The request handlers of the server (src/server.c) as functions on a world: the file storage, the
-- connection of the client that is served, and what the C code reads without having set it. The
-- outcome of each `read` and `write` to come is given by a list, so that a theorem for all worlds is
-- one for all behaviours of the client. A handler runs alone; a mutex that is held when it begins is
-- held by another worker.
pub mod World
pub mod Keeps
pub mod Open
pub mod Close
pub mod Read
pub mod ReadMany
pub mod Evict
pub mod Write
pub mod Remove
pub mod Serve
pub mod Worker
pub mod Requests
pub mod Validity
pub mod Isolation
