-- ===== src/Smoke.antt =====
-- scripts/smoke_provider.py: the smoke test that drives the application with real providers.
pub mod Answers
pub mod Plans
pub mod Sse
pub mod Checks
pub mod Report
pub mod Run
mod Verdict
mod Exit
mod EndToEnd
mod Tests
