-- ===== src/Triage.antt =====
-- chassis/triage.py
pub mod Signature
pub mod Parsers
pub mod Classify
pub mod Dedup
pub mod Inputs
pub mod Table
pub mod Main
