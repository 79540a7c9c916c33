-- ===== src/Retry.antt =====
-- src/common/retry: policies that grant attempts, and the loop that retries a call.
pub mod Policy
pub mod Loop
pub mod Backoff
mod Results
mod Deadline
pub mod Timeout
mod Pauses
mod Tests
