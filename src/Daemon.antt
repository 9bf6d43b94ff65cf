-- ===== src/Daemon.antt =====
-- The commands (cmd/clusterrebootd/main.go), the script of the health checks, and the heartbeats.
pub mod Run
pub mod RunLaws
pub mod Script
pub mod Publisher
pub mod PublisherLaws
pub mod Setup
pub mod Managers
pub mod Commands
pub mod Programs
pub mod SetupLaws
pub mod LoopLaws
pub mod RunCommand
pub mod StatusCommand
pub mod Usable
pub mod SetupProgress
pub mod Favours
pub mod RunReboots
pub mod Refusals
pub mod History
pub mod Exclusion
mod Tests
mod ClusterTests
