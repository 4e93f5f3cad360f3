-- ===== src/Manga.antt =====
-- src/manga/msync.cpp: the manga application's progress at AniList.
pub mod Push
pub mod Reading
pub mod Store
pub mod Tests
