-- ===== src/Lib.antt =====
-- Verification of tw-einvoice-rs, a client of the e-invoice platform: it signs a pack of
-- invoices, uploads it, and follows what the platform answers until the submission is settled.
--
-- Parts and files:
-- - Base: shared notation, Boolean tests with their lemmas, results of fallible code
--   (Base/Tests), lists (Base/Lists), text (Base/Text) and `i32` numbers (Base/Int).
-- - Results: crates/einvoice-results/src/lib.rs, the acknowledgements (ProcessResult) and
--   summaries (SummaryResult) of the platform; `validation_issues` and `is_consistent` of
--   SummaryMessage. Results/Consistency says what a consistent summary is. Results/Wire has the
--   messages as quick-xml reads them, and what is made of them; Results/Lossless its theorems.
-- - State: crates/einvoice-state/src/lib.rs, the record of one submission. `advance_transport`,
--   `apply_process_result`, `apply_summary_message` and `apply_summary_result` take the record
--   and return it with their result; `Call`, `step` and `run` are histories of calls. State/Cases
--   has the outcomes of the operations, State/Invariant, State/Errors, State/Replay,
--   State/Selection and State/Order their theorems.
-- - Signing: crates/einvoice-signing/src/ber.rs, the writers of the CMS signed data in
--   Signing/Ber; Signing/Ber/Reader and Signing/Ber/Layout are an independent reader, with the
--   identifiers of the standards in Signing/Ber/Oid, Signing/Ber/Length, Signing/Ber/Integer and
--   Signing/Ber/RoundTrip the proofs about it.
-- - Transport: crates/einvoice-transport/src. Transport/CommonName and Transport/PackFilename are
--   filename.rs; Transport/Inbound is inbound.rs, its children what the classes mean;
--   Transport/Gateway is gateway.rs, with what is on the wire in Transport/Gateway/Wire and its
--   HTTP client in Transport/Gateway/Http; Transport/Package, Transport/Native and
--   Transport/Packed are package.rs, native.rs and packed.rs. A submission takes the calls of the
--   network made so far and returns them with its own; the uploader, the notifier and the
--   compressor are parameters. Transport/Receiver is receiver.rs, with the inbox directory of
--   Transport/Receiver/Files as a function from names to contents; Transport/Receiver/FilesEqual
--   is its comparison of files and Transport/Receiver/TempName its loop for a free name;
--   Transport/Receiver/Success has the receptions in which nothing fails, and
--   Transport/Reconciliation is reconciliation.rs, a pass over the remote inbox. Transport/Sftp
--   is sftp.rs, with the calls of the network and of libssh2 as a history (Transport/Sftp/Steps),
--   and Transport/Sftp/Guarded the order that they keep.
-- - Core, Mig: crates/einvoice-core/src/lib.rs, and the message codes of
--   crates/einvoice-mig/src/catalog.rs in Mig/Catalog. Mig/Primitives and Mig/Marks are
--   primitives.rs, Mig/Report the reports of crates/einvoice-mig/src/lib.rs. Mig/F0401 is
--   f0401.rs: Mig/F0401/Schema and Mig/F0401/Semantics are the layers of `validate`,
--   Mig/F0401/Validity says what they accept, and Mig/F0401/Xml is `to_xml`, with a reader of
--   markup in Mig/F0401/Xml/Markup and the document of an invoice in Mig/F0401/Document.
-- - Envelope: crates/einvoice-envelope/src/lib.rs; Envelope/Wire is wire.rs, its XML, with the
--   lines of the payloads in Envelope/Wire/Lines, and Envelope/Utf8 what it uses of the standard
--   library.
-- - Signing/Armor: crates/einvoice-signing/src/lib.rs, with the Base64 encoder as a parameter.
--   Signing/Pfx is crates/einvoice-signing/src/pfx.rs, with OpenSSL as a parameter;
--   Signing/Pfx/Signature says what its signatures are.
-- - Pack: crates/einvoice-pack/src/lib.rs. Client: crates/einvoice-client/src/lib.rs, which
--   checks a plan, signs it with Pack, and submits it with Transport/Packed; Client/Consistency
--   has its theorems.
-- - Cli: apps/einvoice-cli/src/main.rs, the commands `prepare`, `submit` and `receive` (Cli/Run)
--   over a file system (Cli/Artifact) and what is built of the arguments (Cli/Prepare);
--   Cli/Durable, Cli/Plan and Cli/Receiving have their theorems.
-- The modules named Tests have the theorems at concrete inputs.
--
-- Text is a list of its UTF-8 bytes. A `usize` is a number below 2 ^ 64 and an `i32` an integer
-- with `IsI32`; where the source adds two `i32` numbers, the model wraps around as a release
-- build does. `expect` on a value that may be absent is an option, and none is a panic.
--
-- The decimal digits of an `i32` are written with fuel 10, as it has ten digits at most, those of
-- a `usize` or a `u64` with fuel 20, and those of a `u8` with fuel 3. The loop for a free
-- temporary name has fuel; Transport/Receiver/TempName says how much is enough. The comparison of
-- two files has fuel for a round more than the first has bytes, which
-- Transport/Receiver/FilesEqual/Ends shows to be enough. A reception takes a loop whose fuel ran
-- out for the error `stopped` of its file system; the theorems that say that it succeeds show
-- that this does not happen, and the safety of a reception does not depend on it.
--
-- The libraries for HTTP, SFTP, JSON, XML, Base64, compression and cryptography are parameters.
--
-- Not modelled: most texts of errors, the reading of the command line, what is printed, the
-- parsers of XML, and the trait of crates/einvoice-transport/src/lib.rs, which nothing uses.
mod Base
pub mod Results
pub mod State
pub mod Signing
pub mod Transport
pub mod Core
pub mod Mig
pub mod Envelope
pub mod Pack
pub mod Client
pub mod Cli
