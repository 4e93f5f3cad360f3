-- ===== src/Store.antt =====
-- src/store.cpp and src/store.hpp, as far as the list sync goes.
pub mod Types
pub mod Keyed
pub mod Providers
pub mod Merge
pub mod Rows
pub mod WorkList
pub mod Apply
pub mod Plan
pub mod Migrate
pub mod Finish
pub mod Tests
