-- ===== src/Agent.antt =====
-- internal/agent: the durable fences of the host agent, and what it does with a claimed lease.
pub mod State
pub mod Names
pub mod Directory
pub mod Index
pub mod Saving
pub mod Crashes
pub mod Answers
pub mod Leases
pub mod Runs
pub mod Acting
pub mod Accepting
pub mod Renewals
pub mod Samples
mod Tests
mod RenewalTests
