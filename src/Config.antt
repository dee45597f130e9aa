-- ===== src/Config.antt =====
-- src/doofit/config: option types that are read from comma-separated strings.
pub mod CommaSeparated
pub mod Lists
pub mod Pairs
pub mod Distribution
mod Tests
