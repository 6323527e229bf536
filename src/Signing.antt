-- ===== src/Signing.antt =====
-- crates/einvoice-signing/src: the CMS byte layout (ber.rs), its armor (lib.rs), and the signer with
-- the key of a PFX file (pfx.rs).
pub mod Ber
pub mod Armor
pub mod Pfx
mod Tests
