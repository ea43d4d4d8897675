-- ===== src/Ui.antt =====
-- ui/src/integration: what the browser reads off a passport itself.
pub mod Dates
pub mod Mrz
pub mod Eligibility
mod Tests
