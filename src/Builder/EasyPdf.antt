-- ===== src/Builder/EasyPdf.antt =====
-- src/doofit/builder/EasyPdf: a pool of named RooFit objects and the functions that build PDFs in it.
pub mod Pool
pub mod Access
pub mod Shapes
pub mod Composites
pub mod Scaled
pub mod Growth
pub mod Requests
pub mod BuilderGrowth
pub mod History
mod Names
pub mod Parts
pub mod Lookup
mod Tests
