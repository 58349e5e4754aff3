-- ===== src/Queue.antt =====
-- internal/queue: the retry policy (retry.go) and the attempt states (lease.go). A Go string type is
-- the data type of its constants, with `other s` for any value that is none of them.
pub mod Delay
pub mod Job
pub mod Payload
mod Tests
use auto_deploy.Base.{
  ℕ, ◌-◌, ◌*◌, ◌^◌, Bool, true, false, ◌||◌, ltb, ◌==◌, if◌then◌else◌, Bytes, ℕ_discrete,
}

pub data AttemptState : Type 0 where
  leased succeeded failed expired cancelled : AttemptState

pub data FailureClass : Type 0 where
  transient authorization invalid_input class_cancelled corrupt_state : FailureClass
  permanent_configuration : FailureClass
  other : Bytes → FailureClass

pub FailureClass-discrete : Discrete FailureClass
FailureClass-discrete = hlevel ℕ_discrete

pub data CompletionOutcome : Type 0 where
  completion_succeeded completion_failed : CompletionOutcome
  other_outcome : Bytes → CompletionOutcome

unfoldable pub valid : FailureClass → Bool
valid (other s) = false
valid _ = true

unfoldable pub retryable : FailureClass → Bool
retryable transient = true
retryable _ = false

abbrev pub max_attempts : ℕ
max_attempts = 5

-- Durations are in nanoseconds.
abbrev pub second : ℕ
second = 1000000000

abbrev pub retry_base_delay : ℕ
retry_base_delay = 5 * second

abbrev pub retry_cap_delay : ℕ
retry_cap_delay = 300 * second

-- The bound of the random delay. An attempt number below 1 counts as 1.
unfoldable pub backoff : ℕ → ℕ
backoff attempt_number =
    let number = if ltb attempt_number 1 then 1 else attempt_number in
    let shift = if ltb 20 (number - 1) then 20 else number - 1 in
    let delay = retry_base_delay * 2 ^ shift in
    if ltb retry_cap_delay delay || delay == 0 then retry_cap_delay else delay

-- `draw b` is `time.Duration(rand.Float64() * float64(b))`, from math/rand.
unfoldable pub full_jitter_delay : (ℕ → ℕ) → ℕ → ℕ
full_jitter_delay draw attempt_number = draw (backoff attempt_number)
