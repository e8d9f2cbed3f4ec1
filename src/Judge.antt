-- ===== src/Judge.antt =====
-- The judge (judge/): comparison of outputs, grading, events, workspaces, languages.
pub mod Samples
pub mod Cmp
pub mod Model
pub mod Report
pub mod Files
pub mod Grading
pub mod Events
pub mod Language
pub mod Budget
pub mod Run
pub mod Queue
pub mod Publisher
