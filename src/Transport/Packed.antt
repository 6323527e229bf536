-- ===== src/Transport/Packed.antt =====
-- crates/einvoice-transport/src/packed.rs: the submission of a signed pack under its Turnkey name.
use tw_einvoice_rs.Base.{
  ℕ, suc, ◌≡◌, Option, none, some, List, Str, Result, ok, err, map_err, ℤ, try_unsigned, ltb, ◌==◌,
  if◌then◌else◌, arith,
}
use tw_einvoice_rs.Transport.Gateway.{ZipMode, UploadNotification, GatewayProcessStatus}
use tw_einvoice_rs.Transport.Package.{PrepareUploadError}
use tw_einvoice_rs.Transport.PackFilename.{TurnkeyPackFilename, render, remote_filename}
use tw_einvoice_rs.Transport.Native.{
  NativeSubmissionMetadata, NativeSubmissionRequest, NativeSubmissionReceipt, NativeSubmitError,
  Event, submit,
}
pub mod Order

-- `artifact` is what `SignedArtifact::as_upload_bytes` returns.
pub record PackArtifactSubmission : Type 0 where
  pub filename : TurnkeyPackFilename
  pub artifact : Str
  pub zip_mode : ZipMode
  pub metadata : NativeSubmissionMetadata

pub data PackArtifactSubmitError (Z I U N : Type 0) : Type 0 where
  invalid_pack_count : ℤ → PackArtifactSubmitError Z I U N
  quantity_mismatch : ℕ → ℕ → PackArtifactSubmitError Z I U N
  native_failed : NativeSubmitError Z I U N → PackArtifactSubmitError Z I U N

-- `filter(|count| *count > 0)`.
abbrev pub positive : Option ℕ → Option ℕ
positive none = none
positive (some n) = if ltb 0 n then some n else none

abbrev pub native_request : PackArtifactSubmission → NativeSubmissionRequest
native_request r = record {
  signed_local_filename = render r.filename;
  remote_filename = remote_filename r.filename;
  signed_bytes = r.artifact;
  zip_mode = r.zip_mode;
  metadata = r.metadata;
}

module _ {Z I U N : Type 0} (zip_single_entry : Str → Str → Result Str (PrepareUploadError Z I))
    (upload : List Event → Str → Str → Result Unit U)
    (notify : List Event → UploadNotification → Result GatewayProcessStatus N) where
  abbrev pub PackSubmitted : Type 0
  PackSubmitted = List Event × Result NativeSubmissionReceipt (PackArtifactSubmitError Z I U N)

  unfoldable pub submit_native : List Event → PackArtifactSubmission → PackSubmitted
  submit_native past r =
      let (events, result) = submit zip_single_entry upload notify past (native_request r) in
      (events, map_err native_failed result)

  unfoldable pub submit_counted : List Event → PackArtifactSubmission → Option ℕ → PackSubmitted
  submit_counted past r none = (past, err (invalid_pack_count r.filename.pack_count))
  submit_counted past r (some count) =
      let sent = submit_native past r in
      if count == r.metadata.message.quantity
      then sent
      else (past, err (quantity_mismatch count r.metadata.message.quantity))

  unfoldable pub submit_pack_artifact : List Event → PackArtifactSubmission → PackSubmitted
  submit_pack_artifact past r =
      submit_counted past r (positive (try_unsigned r.filename.pack_count))
