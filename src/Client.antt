-- ===== src/Client.antt =====
-- crates/einvoice-client/src/lib.rs: a plan is checked, signed, and submitted.
pub mod Consistency
mod Tests
use tw_einvoice_rs.Base.{
  ℕ, ◌≡◌, Option, none, some, List, Str, Result, ok, err, map_err, ◌>>=◌, ◌>>◌, ensure, ℤ,
  try_unsigned, ltb, ◌==◌, str_eq, u32_mod, if◌then◌else◌,
}
use tw_einvoice_rs.Core.{version_str}
use tw_einvoice_rs.Envelope.{PartyInfo, RoutingInfo, InvoiceEnvelope, count}
use tw_einvoice_rs.Pack.{SignedArtifact, CmsSigner, PackError, pack_and_sign}
use tw_einvoice_rs.Transport.PackFilename.{TurnkeyPackFilename}
use tw_einvoice_rs.Transport.Gateway.{
  GatewayParty, ServiceType, ZipMode, UploadNotification, GatewayProcessStatus,
}
use tw_einvoice_rs.Transport.Package.{PrepareUploadError}
use tw_einvoice_rs.Transport.Native.{
  GatewayVersionProfile, NativeSubmissionMetadata, initial, Event,
}
use tw_einvoice_rs.Transport.Packed.{
  PackArtifactSubmission, PackSubmitted, positive, submit_pack_artifact,
}

pub record SubmissionPlan : Type 0 where
  pub envelope : InvoiceEnvelope
  pub filename : TurnkeyPackFilename
  pub service_type : ServiceType
  pub zip_mode : ZipMode
  pub action : Str
  pub versions : GatewayVersionProfile

pub record PreparedSubmission : Type 0 where
  pub filename : TurnkeyPackFilename
  pub artifact : SignedArtifact
  pub zip_mode : ZipMode
  pub metadata : NativeSubmissionMetadata

pub data SubmissionConsistencyError : Type 0 where
  invalid_filename_count : ℤ → SubmissionConsistencyError
  envelope_count_out_of_range : ℕ → SubmissionConsistencyError
  count_mismatch : ℕ → ℕ → SubmissionConsistencyError
  message_type_mismatch mig_version_mismatch : Str → Str → SubmissionConsistencyError
  from_party_mismatch to_party_mismatch : Str → Str → SubmissionConsistencyError

pub data PrepareSubmissionError (E : Type 0) : Type 0 where
  consistency_error : SubmissionConsistencyError → PrepareSubmissionError E
  pack_error : PackError E → PrepareSubmissionError E

abbrev pub gateway_party : PartyInfo → RoutingInfo → GatewayParty
gateway_party party routing = record {
  party_id = party.identifier;
  party_description = party.description;
  routing_id = routing.identifier;
  routing_description = routing.description;
}

abbrev pub filename_count : SubmissionPlan → Option ℕ → Result ℕ SubmissionConsistencyError
filename_count plan none = err (invalid_filename_count plan.filename.pack_count)
filename_count plan (some n) = ok n

-- `if left != right { return Err(..) }`.
abbrev pub same_text :
    (Str → Str → SubmissionConsistencyError) → Str → Str → Result Unit SubmissionConsistencyError
same_text mismatch filename envelope =
    ensure (str_eq filename envelope) (mismatch envelope filename)

unfoldable pub validate_plan : SubmissionPlan → Result Unit SubmissionConsistencyError
validate_plan plan = filename_count plan (positive (try_unsigned plan.filename.pack_count)) >>= λ n.
    ensure (n == count plan.envelope) (count_mismatch (count plan.envelope) n)
    >> (same_text message_type_mismatch plan.filename.common_name.message_type
          plan.envelope.metadata.message_type
        >> (same_text mig_version_mismatch plan.filename.common_name.mig_version
              (version_str plan.envelope.metadata.version)
            >> (same_text from_party_mismatch plan.filename.from_party
                  plan.envelope.routing.from.identifier
                >> same_text to_party_mismatch plan.filename.to_party
                    plan.envelope.routing.to.identifier)))

abbrev pub quantity_of : ℕ → Result ℕ SubmissionConsistencyError
quantity_of n = if ltb n u32_mod then ok n else err (envelope_count_out_of_range n)

abbrev pub metadata_of : SubmissionPlan → ℕ → NativeSubmissionMetadata
metadata_of plan quantity =
    let e = plan.envelope in
    initial (gateway_party e.routing.from e.routing.from_vac)
      (gateway_party e.routing.to e.routing.to_vac) plan.service_type
      (record {
        message_type = e.metadata.message_type;
        action = plan.action;
        quantity = quantity;
        mig_version = version_str e.metadata.version;
      })
      plan.versions

module _ {E : Type 0} (encode : Str → Str) (signer : CmsSigner E) where
  unfoldable pub prepare_submission :
      SubmissionPlan → Result PreparedSubmission (PrepareSubmissionError E)
  prepare_submission plan =
      map_err consistency_error (validate_plan plan)
      >> (map_err consistency_error (quantity_of (count plan.envelope)) >>= λ quantity.
          map_err pack_error (pack_and_sign encode plan.envelope signer) >>= λ artifact.
          ok (record {
            filename = plan.filename;
            artifact = artifact;
            zip_mode = plan.zip_mode;
            metadata = metadata_of plan quantity;
          }))

abbrev pub pack_request : PreparedSubmission → PackArtifactSubmission
pack_request p = record {
  filename = p.filename;
  artifact = p.artifact.upload_bytes;
  zip_mode = p.zip_mode;
  metadata = p.metadata;
}

module _ {Z I U N : Type 0} (zip_single_entry : Str → Str → Result Str (PrepareUploadError Z I))
    (upload : List Event → Str → Str → Result Unit U)
    (notify : List Event → UploadNotification → Result GatewayProcessStatus N) where
  unfoldable pub submit_prepared :
      List Event → PreparedSubmission → PackSubmitted zip_single_entry upload notify
  submit_prepared past p = submit_pack_artifact zip_single_entry upload notify past (pack_request p)
