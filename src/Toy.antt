-- ===== src/Toy.antt =====
-- src/doofit/toy: generates toy samples, and stores, reads and evaluates the results of their fits.
pub mod Factory
pub mod Generation
pub mod Study
