-- ===== src/Mig.antt =====
-- crates/einvoice-mig/src: the message codes (catalog.rs), the field values (primitives.rs), the
-- invoices F0401 (f0401.rs), and the reports of validation (lib.rs).
pub mod Catalog
pub mod Primitives
pub mod Marks
pub mod Report
pub mod F0401
mod Tests
