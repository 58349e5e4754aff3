-- ===== src/Lease.antt =====
-- The control plane's lease store: internal/store/postgres/agent_lease_repository.go and the rows it
-- keeps. A call is one transaction: it maps the store to an error, and then the store stays as it
-- was, or to a result and the new store.
pub mod Runtime
pub mod State
pub mod Deployments
pub mod Held
pub mod Renewal
pub mod Activation
pub mod Closing
pub mod Completion
pub mod Cancellation
pub mod Reconciliation
pub mod Progress
pub mod Freeze
pub mod Claim
pub mod Claiming
pub mod Sweeping
pub mod Entering
pub mod Granting
pub mod FirstRenewal
pub mod Ordered
pub mod Freezing
pub mod Limits
pub mod Digests
pub mod Environments
pub mod Revoking
pub mod Activating
pub mod Authorizing
pub mod Activations
pub mod Finalizing
pub mod Evidence
pub mod Ledger
pub mod LateReports
pub mod Reporting
pub mod Recording
pub mod Reported
pub mod Resolving
pub mod Declaring
pub mod Resolved
pub mod Locating
pub mod Settled
pub mod Agreeing
pub mod Repeating
pub mod Finalized
pub mod Renewals
pub mod Fencing
pub mod Views
pub mod Keeping
pub mod Endings
pub mod Acknowledging
pub mod Expiries
pub mod Moving
pub mod Frames
pub mod Replays
pub mod Clearing
pub mod Steps
pub mod Calls
pub mod Chosen
pub mod Batches
pub mod Runs
pub mod Claims
pub mod Samples
mod Tests
pub mod ClaimTests
mod FreezeTests
pub mod ActivationSamples
mod ActivationTests
mod ReportTests
mod ResolutionTests
