-- ===== src/Checkers.antt =====
-- adapters/jsonschema_checker.py and adapters/semantic_checkers.py: the checkers of the promotion
-- pipeline.
pub mod Base
pub mod Schema
pub mod InputSet
pub mod Manifest
pub mod Caps
pub mod Tools
pub mod Boundary
pub mod Semantic
pub mod Default
