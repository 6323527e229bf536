-- ===== src/Transport.antt =====
-- crates/einvoice-transport/src: names of objects (filename.rs), upload and notification
-- (package.rs, gateway.rs, native.rs, packed.rs), and what is received (inbound.rs, receiver.rs,
-- reconciliation.rs), and the SFTP client (sftp.rs).
pub mod CommonName
pub mod PackFilename
pub mod Inbound
pub mod Gateway
pub mod Receiver
pub mod Reconciliation
pub mod Package
pub mod Native
pub mod Packed
pub mod Sftp
mod Tests
