-- ===== src/Orchestrator.antt =====
-- pkg/orchestrator: the runner, the lock, the loop.
pub mod Failure
pub mod Types
pub mod Policies
pub mod ClusterNodes
pub mod PolicyLaws
pub mod Permission
pub mod Backoff
pub mod BackoffLaws
pub mod Flow
pub mod Command
pub mod Gates
pub mod Lock
pub mod RunOnce
pub mod LockLaws
pub mod Held
pub mod PassLock
pub mod Favourable
pub mod GateProgress
pub mod Progress
pub mod GateCalls
pub mod LockCalls
pub mod PassCalls
pub mod KillSwitch
pub mod Loop
pub mod NewRunner
pub mod NewRunnerLaws
pub mod Tests
pub mod Cleared
pub mod Stages
pub mod Readiness
