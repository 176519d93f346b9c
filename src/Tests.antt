-- ===== src/Tests.antt =====
-- Runs on small inputs, and the theorems at inputs that meet their hypotheses.
mod TriageCases
mod InputsCases
mod TargetCases
mod OracleCases
mod ConfigCases
mod EvidenceCases
mod HarnessCases
mod SeedCases
mod Fixtures
mod Suite
