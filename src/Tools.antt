-- ===== src/Tools.antt =====
-- The scripts that gate a change (tools).
pub mod AcceptedRisks
pub mod DependencyAudit
pub mod ChangedServices
pub mod EventSchemaDiff
pub mod ImportBoundaries
mod Gates
mod Examples
