-- ===== src/Builder.antt =====
-- src/doofit/builder: building models.
pub mod EasyPdf
pub mod Numerobis
