-- ===== src/Crunchyroll.antt =====
-- services/crunchyroll/src: the service adapter. Rules.antt models rules.ts, Scorer.antt
-- scorer.ts, Checker.antt checker.ts.
pub mod Rules
pub mod Scorer
pub mod Checker
mod Tests
