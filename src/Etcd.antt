-- ===== src/Etcd.antt =====
-- The managers that keep their state in etcd (pkg/lock, pkg/cooldown, pkg/clusterhealth).
pub mod Keys
pub mod KeyLaws
pub mod Lock
pub mod LockLaws
pub mod Cooldown
pub mod CooldownLaws
pub mod CooldownRoundTrip
pub mod Health
pub mod HealthKeys
pub mod HealthLaws
mod Codecs
mod Tests
