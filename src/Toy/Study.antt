-- ===== src/Toy/Study.antt =====
-- ToyStudyStd: stores the results of fits in files, reads them back and evaluates them.
pub mod EasyResults
pub mod Cursor
pub mod Refinement
pub mod EmptyTree
pub mod SaveBatch
pub mod Batches
pub mod Saving
pub mod Conserved
pub mod Stored
pub mod Nearer
pub mod Finishing
pub mod Quality
pub mod Reading
pub mod Limited
pub mod ReadEntries
pub mod Limit
pub mod Evaluation
pub mod Pulls
pub mod Pulled
pub mod BySeed
pub mod Partners
pub mod Taken
mod ReadingTests
mod PullTests
mod SavingTests
mod CursorTests
