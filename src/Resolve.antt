-- ===== src/Resolve.antt =====
-- src/resolve.hpp and src/resolve.cpp: the headless resolve engine, which decides on which provider a
-- show is opened and where playback falls back to.
pub mod World
pub mod Open
pub mod Walk
pub mod Route
pub mod Tests
