-- ===== src/Sync.antt =====
-- src/sync.hpp and src/sync.cpp: the AniList sync. Everything the sync calls (the AniList client, the
-- store, the sleeper) is an environment whose answers may depend in any way on the calls made so far,
-- which the sync's log holds, newest first. A counter is a `uint32_t`, and wraps.
pub mod Types
pub mod Push
pub mod Run
pub mod Airing
pub mod Tests
