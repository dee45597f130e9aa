-- ===== src/Builder/Numerobis.antt =====
-- src/doofit/builder/numerobis: declares the elements of a model by name and creates them on a
-- RooWorkspace once all that they need is declared.
pub mod Element
pub mod Readiness
pub mod Buildable
pub mod Decision
pub mod Termination
pub mod Registration
pub mod Moves
pub mod Safety
pub mod Placement
pub mod Registered
pub mod Guarantee
pub mod Assembly
pub mod Order
pub mod PdfReadiness
pub mod PdfBuildable
pub mod PdfDecision
pub mod PdfOutcome
mod PdfTests
mod Tests
