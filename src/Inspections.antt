-- ===== src/Inspections.antt =====
-- The inspection of a site: its score and the evidence for it (app/services).
pub mod Scoring
pub mod Evidence
mod Tests
