-- ===== src/Observability.antt =====
-- pkg/observability, and the reports of pkg/orchestrator/runner.go: events, metrics, their collector.
pub mod Types
pub mod Collector
pub mod CollectorSchema
pub mod CollectorRows
pub mod CollectorLaws
pub mod Reporter
