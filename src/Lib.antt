-- ===== src/Lib.antt =====
-- AutoDeploy: the deployment aggregate, the retry policy, the lease transactions, the agent's side of a
-- lease, and the documents of the routes.
--
-- The control plane keeps one deployment aggregate per deployment and a queue of jobs for the agents.
-- An agent claims a job: that opens an attempt, which occupies the slot of its environment under a
-- fence. The agent renews the lease, reports its phases and completes the attempt or acknowledges a
-- cancellation; the sweeper closes an attempt whose authority ended, and an operator or the agent
-- reconciles the slot afterwards. A report, or the end of a job, moves the deployment aggregate along.
-- The agent keeps a file with the highest fence of each environment, and acts on no lower one.
--
-- The files:
-- - Base and Base/*: tests on bytes and numbers, results, tables as lists of rows, strings as bytes,
--   texts, and the instants of the package time.
-- - Deployment and Deployment/*: internal/deployment/deployment.go. `new`, `rehydrate`, `snapshot` and
--   `transition` are New, Rehydrate, Snapshot and Transition; `validate` is split into the scope, the
--   fields and the trail. Valid describes a valid aggregate without the code's loop, Transitions what a
--   call does, Reach what any calls lead to.
-- - Queue, Queue/Delay, Queue/Job and Queue/Payload: internal/queue/retry.go, the enumerations of
--   internal/queue/lease.go, and internal/queue/job.go, a job and the digest of its payload.
-- - Github: internal/github/source.go, the validators of identifiers, branches and commits.
-- - Healthgate: internal/healthgate/validate.go, with its regular expressions written out as tests.
-- - Traefik and Traefik/*: the validation, the names and the document of a route, of
--   internal/runtime/traefik, and internal/runtime/dockerid; Quoting, Rendering and Hexadecimal are
--   about them.
-- - Lease/State: the rows and the tables, and the credential check, of
--   internal/store/postgres/agent_lease_repository.go. Lease/Deployments is the compare-and-swap save
--   of deployment_repository.go beside it. Lease/Held, Renewal, Completion, Cancellation, Closing and
--   Reconciliation are Renew, Complete, RequestCancellation, AcknowledgeCancellation, expireOne,
--   Reconcile and MarkReconciled; Lease/Activation is the block of an unresolved activation and
--   activation_state.go; Lease/Progress is ReportProgress of agent_lease_materialize.go.
-- - Lease/Claim is tryClaim and Lease/Claiming is Claim around it; Lease/Sweeping is ExpireBatch and
--   revokeInFlightLeases. Lease/Runtime and Lease/Freeze are agent_lease_execution.go beside them: the
--   configuration that a claim freezes, its digest and the release. Lease/Activating is Activate, which
--   authorizes the switch of a route; Lease/Authorizing and Activations are about it.
--   Lease/Finalizing is finalizeActivationSucceeded, and Lease/Finalized is about it.
-- - Lease/Reporting is ReportActivationResult; Lease/LateReports, with the texts of Lease/Evidence, is
--   activation_late_report.go beside it and recordBlockInFreshTransaction. Lease/Ledger is about the
--   summary of a blocked operation, Lease/Locating, Agreeing and Repeating about a report that is sent
--   twice, Lease/Recording and Reported about the reports as moves of the contract.
-- - Lease/Resolving is resolveDeclared of activation_resolution.go and Lease/Declaring its two callers,
--   ResolveActivation and ReconcileActivation. Lease/Resolved shows them to be moves, and Lease/Settled
--   is about what they leave.
-- - Lease/Fencing is the abstract contract of fences and its moves, Lease/Views maps the tables to it,
--   Lease/Keeping, Endings, Acknowledging, Expiries, Moving, Entering and Revoking show each
--   transaction to be a move, and Lease/Steps is about any sequence of them; Lease/Calls takes the
--   calls of several transactions apart into such steps. Lease/Claims (with Runs) and Batches describe Claim,
--   ExpireBatch and revokeInFlightLeases as runs of their own transactions over the rows that
--   their queries choose (Lease/Chosen). Lease/Granting and Lease/FirstRenewal are
--   about a granted lease, Lease/Limits, Environments, Freezing (with Ordered) and Digests about the
--   rest of a claim.
--   Lease/Renewals is about Renew alone, and Lease/Replays, with Lease/Frames, about a result that is
--   sent twice; Lease/Clearing is about MarkReconciled.
-- - Agent/State is internal/agent/state/state.go: names, index, Load and Save. Agent/Names, Directory,
--   Index, Saving and Crashes are about it. Agent/Leases is runLease of internal/agent/client/run.go,
--   and Agent/Runs, Acting and Accepting are about it. Agent/Answers is mapError of
--   internal/agent/http/handler.go and mapStatus of internal/agent/client/httpclient.go, and
--   Agent/Renewals puts runLease and Renew together over a network that loses messages.
-- - The Samples and Tests modules run the definitions at concrete inputs.
--
-- How the code is read:
-- - A transaction is a function from the store to a result: it takes its row locks before it reads
--   what it decides on, and an error rolls it back, so that it is one atomic step. The clock that it
--   reads under its locks is an argument, an instant of its own where it reads the clock twice.
-- - A table is a list of rows. A query by key returns the first row of that key, an UPDATE rewrites
--   every row that its WHERE clause selects. Identifiers, fences, counts and instants are natural
--   numbers: the columns are bigint, and the code refuses what is not positive.
-- - An instant is a number of nanoseconds since the zero time; instants before it do not occur.
-- - A string-typed enumeration has a constructor for any other string.
-- - A claim skips a row that another transaction has locked; the model reads all rows as free. The
--   identity column is a function of the rows that are there, and the theorems that need it assume
--   that it gives an id that no row has. SHA-256 and the formatting of an instant are arguments.
-- - The columns of a job stand in two tables, the ones that the operations write and the others.
--   ORDER BY of texts is the order of their bytes. A statement that violates the CHECK of the attempt
--   count aborts its transaction, as in PostgreSQL; no other CHECK is evaluated.
-- - A random draw is a function argument. All functions end by structural recursion; there is no fuel.
-- - A report of an activation may write where it is refused: it returns its error beside the store. Its
--   commit may be refused by a deferred trigger; the block is then recorded on the store that the fresh
--   transaction finds. Slots have their primary key where a theorem needs it. The cleaning of a
--   summary's characters and the text of an error are arguments.
-- - A write of the agent's file says how far it got, so that a crash is a write that stops. The agent
--   sees a list of events; JSON is a pair of functions that are assumed to keep what is marshalled.
--
-- Not modelled: the authorization of a materialization and of a checkout; transient failures of the database, where a call rolls back, and
-- the hooks that inject failures; triggers, but for the refused commit of a report, and the other
-- CHECK constraints of the migrations; the texts of error messages, but for those that are stored;
-- the audit rows. The administrator's session is an argument. The agent's executor, its heartbeats and
-- the retries of its requests, the container runtime, the proxy's files, HTTP and the cryptography are
-- outside.
pub mod Base
pub mod Deployment
pub mod Queue
pub mod Github
pub mod Healthgate
pub mod Traefik
pub mod Lease
pub mod Agent
