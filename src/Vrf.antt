-- ===== src/Vrf.antt =====
-- crates/vrf: the verifiable random function of draft-irtf-cfrg-vrf-04 (ECVRF-ED25519-SHA512-TAI)
-- and the sampler that compares its output with a threshold.
pub mod Curve
pub mod Ecvrf
pub mod PrivateKey
pub mod Keys
pub mod Sampler
pub mod Reply
pub mod Instance
mod Tests
