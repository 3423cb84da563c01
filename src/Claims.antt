-- ===== src/Claims.antt =====
-- What a language model says of the findings, and how it is checked:
-- backend/src/domain/scanning/analysis, its models.py and validator.py.
pub mod Json
pub mod Models
pub mod Sections
pub mod Validator
pub mod Known
pub mod Grounded
pub mod Service
pub mod Outcomes
pub mod Calm
