-- ===== src/Fitter/EasyFitResult.antt =====
-- src/doofit/fitter/easyfit/EasyFitResult.h and EasyFitResult.cpp: the numbers of a RooFitResult, kept
-- under addresses that do not change, so that a tree can read them.
pub mod Convert
pub mod Names
pub mod Transfer
pub mod Limits
pub mod Creation
mod Tests
