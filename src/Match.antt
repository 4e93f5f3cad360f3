-- ===== src/Match.antt =====
-- src/resolver.cpp: which search hit of a provider is the show of the catalog.
pub mod Titles
pub mod Score
pub mod Winner
pub mod Pick
pub mod Tests
