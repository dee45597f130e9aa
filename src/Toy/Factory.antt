-- ===== src/Toy/Factory.antt =====
-- ToyFactoryStd: the functions that put data sets together, and the discrete sample.
pub mod Datasets
pub mod Shuffle
pub mod Rows
pub mod Append
pub mod Merge
pub mod Positions
pub mod Weaving
pub mod Mix
pub mod Discrete
pub mod NamedValues
pub mod Columns
pub mod Sampled
mod Tests
mod DiscreteTests
