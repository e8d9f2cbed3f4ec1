-- ===== src/Judge/Run.antt =====
-- judge/internal/engine/runner.go and container.go: one run of the judge, from the claimed commit to
-- its last event. The container engine, the clock and the files are what they answer.
mod Waits
mod Container
mod Process
pub mod Milestones
pub mod Shape
pub mod Counts
pub mod Ends
pub mod Ending
pub mod Verdicts
pub mod Closing
mod Tests
unfoldable pub use Waits.*
unfoldable pub use Container.*
unfoldable pub use Process.*
