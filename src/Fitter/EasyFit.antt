-- ===== src/Fitter/EasyFit.antt =====
-- src/doofit/fitter/easyfit/EasyFit.h and EasyFit.cpp: one fit of a PDF to a data set.
-- A pointer is `Option ℕ`, an address or NULL. Messages to `serr` and `sinfo` are left out.
pub mod Options
pub mod Setters
pub mod Commands
pub mod Lifecycle
pub mod Invariant
pub mod Outcome
mod Tests
