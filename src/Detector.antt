-- ===== src/Detector.antt =====
-- pkg/detector: the detectors that a configuration names, and the engine that asks them.
pub mod Probe
pub mod Engine
pub mod ProbeLaws
pub mod EngineLaws
pub mod NameLaws
pub mod ConfigLaws
mod Tests
