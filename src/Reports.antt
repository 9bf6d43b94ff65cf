-- ===== src/Reports.antt =====
-- The reports of a runner (pkg/orchestrator/runner.go, from `recordClusterHealthStatus` on). A runner
-- that `NewRunner` made has a reporter, so the tests for one that is missing are left out.
pub mod Texts
pub mod TextLaws
pub mod Checks
pub mod Locks
pub mod Peers
pub mod Cluster
pub mod Messages
pub mod Outcomes
pub mod Recorder
pub mod MetricLaws
pub mod DeliveryLaws
pub mod ClusterLaws
mod Tests
