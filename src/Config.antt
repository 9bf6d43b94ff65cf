-- ===== src/Config.antt =====
-- pkg/config: the configuration, its defaults, its validation, and what is derived from it. The
-- decoding of YAML is a library's; these modules begin where it ends.
pub mod Types
pub mod Defaults
pub mod DefaultLaws
pub mod Validate
pub mod Bounds
pub mod ValidateLaws
pub mod Derived
pub mod DurationLaws
pub mod Tests
