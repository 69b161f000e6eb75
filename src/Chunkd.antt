-- ===== src/Chunkd.antt =====
-- The chunk server, chunkd/: the cache of the objects that are in use, and the requests of its
-- clients.
pub mod Objcache
pub mod Clients
