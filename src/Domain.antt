-- ===== src/Domain.antt =====
-- src/domain.hpp and src/domain.cpp: the type vocabulary of the program and its pure helpers.
pub mod Types
pub mod Enums
pub mod Airing
pub mod Calendar
pub mod Score
pub mod Samples
pub mod Tests
