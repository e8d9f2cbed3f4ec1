-- ===== src/Backend.antt =====
-- The backend (backend/): limits, access rules, event streams, throttles and object storage.
pub mod Limits
pub mod Sse
pub mod Throttle
pub mod Submissions
pub mod Visibility
pub mod Validation
pub mod Access
pub mod Events
pub mod Hub
