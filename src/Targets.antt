-- ===== src/Targets.antt =====
-- The fuzz harnesses under targets/.
pub mod GgufReader
pub mod WeightsOnly
pub mod MetaTensor
pub mod Differential
pub mod FlaxCheckpoint
pub mod TokenizersConfig
pub mod TransformersConfig
pub mod Launch
pub mod Seeds
