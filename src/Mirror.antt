-- ===== src/Mirror.antt =====
-- src/mal_mirror.cpp, the push of the library to MyAnimeList and the pull of its list.
pub mod Push
pub mod Pull
pub mod Tests
