-- ===== src/Fitter.antt =====
-- src/doofit/fitter: fitting.
pub mod EasyFit
pub mod EasyFitResult
