-- ===== src/Repomap.antt =====
-- The two-tier cache of repository maps, examples/valkey-l2-repomap-cache/repomap_cache.py: the wire
-- format of the server in Resp, the records and their dictionaries in Record and Json, the client in
-- Client, the cache in Cache.
pub mod Json
pub mod Record
pub mod Resp
pub mod Store
pub mod Client
pub mod Cache
