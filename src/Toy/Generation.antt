-- ===== src/Toy/Generation.antt =====
-- ToyFactoryStd: the generation of data sets for PDFs.
pub mod Pdf
pub mod Direct
pub mod Yields
pub mod Decompose
pub mod Exact
pub mod Rounding
pub mod Laws
pub mod Directly
pub mod Appends
pub mod Plain
pub mod Products
pub mod Shares
pub mod Rounds
pub mod Sums
pub mod Tests
pub mod Generate
pub mod Draws
pub mod Complete
pub mod NoPdf
pub mod GenerateTests
