-- ===== src/Transport/Native.antt =====
-- crates/einvoice-transport/src/native.rs: the submission of a signed package. The uploader and the
-- notifier are parameters; what they answer may depend on all the calls made before, which a
-- submission returns with its result.
pub mod Order
use tw_einvoice_rs.Base.{
  ℕ, ◌≡◌, refl, sym, ◌∙◌, Bool, true, false, List, [], ◌∷◌, ◌++◌, Str, Result, ok, err, ℤ,
  if◌then◌else◌, arith, length,
}
use tw_einvoice_rs.Transport.Gateway.{
  ZipMode, ServiceType, GatewayParty, UploadNotification, GatewayProcessStatus, is_accepted,
  initial_retry,
}
use tw_einvoice_rs.Transport.Package.{
  PreparedUploadObject, PrepareUploadError, prepare_upload_object,
}

pub record NativeMessageProfile : Type 0 where
  pub message_type : Str
  pub action : Str
  pub quantity : ℕ
  pub mig_version : Str

pub record GatewayVersionProfile : Type 0 where
  pub api_version : Str
  pub turnkey_version : Str

pub record NativeSubmissionMetadata : Type 0 where
  pub from : GatewayParty
  pub to : GatewayParty
  pub service_type : ServiceType
  pub message : NativeMessageProfile
  pub retry : ℕ
  pub versions : GatewayVersionProfile

abbrev pub initial :
    GatewayParty
    → GatewayParty
    → ServiceType
    → NativeMessageProfile
    → GatewayVersionProfile
    → NativeSubmissionMetadata
initial from to service_type message versions = record {
  from = from;
  to = to;
  service_type = service_type;
  message = message;
  retry = initial_retry;
  versions = versions;
}

pub record NativeSubmissionRequest : Type 0 where
  pub signed_local_filename : Str
  pub remote_filename : Str
  pub signed_bytes : Str
  pub zip_mode : ZipMode
  pub metadata : NativeSubmissionMetadata

pub record NativeSubmissionReceipt : Type 0 where
  pub remote_filename : Str
  pub gateway_status : GatewayProcessStatus

pub data NativeSubmitError (Z I U N : Type 0) : Type 0 where
  prepare_failed : PrepareUploadError Z I → NativeSubmitError Z I U N
  upload_failed : Str → U → NativeSubmitError Z I U N
  notify_failed : Str → N → NativeSubmitError Z I U N
  gateway_rejected : Str → GatewayProcessStatus → NativeSubmitError Z I U N

-- A call of the network: an upload of bytes under a name, or a notification.
pub data Event : Type 0 where
  uploads : Str → Str → Event
  notifies : UploadNotification → Event

abbrev pub notification_of : NativeSubmissionMetadata → PreparedUploadObject → UploadNotification
notification_of m prepared = record {
  from = m.from;
  to = m.to;
  service_type = m.service_type;
  zip_mode = prepared.zip_mode;
  message_type = m.message.message_type;
  action = m.message.action;
  quantity = m.message.quantity;
  mig_version = m.message.mig_version;
  filename = prepared.remote_filename;
  size = prepared.notification_size;
  retry = m.retry;
  api_version = m.versions.api_version;
  turnkey_version = m.versions.turnkey_version;
}

module _ {Z I U N : Type 0} (zip_single_entry : Str → Str → Result Str (PrepareUploadError Z I))
    (upload : List Event → Str → Str → Result Unit U)
    (notify : List Event → UploadNotification → Result GatewayProcessStatus N) where
  abbrev pub Submitted : Type 0
  Submitted = List Event × Result NativeSubmissionReceipt (NativeSubmitError Z I U N)

  -- What is made of the gateway's answer.
  unfoldable pub receive :
      Str
      → Result GatewayProcessStatus N
      → Result NativeSubmissionReceipt (NativeSubmitError Z I U N)
  receive name (err e) = err (notify_failed name e)
  receive name (ok status) =
      if is_accepted status
      then ok (record { remote_filename = name; gateway_status = status })
      else err (gateway_rejected name status)

  -- The steps behind the upload, by its result; `past` holds the upload.
  unfoldable pub notify_uploaded :
      List Event → NativeSubmissionMetadata → PreparedUploadObject → Result Unit U → Submitted
  notify_uploaded past m prepared (err e) = (past, err (upload_failed prepared.remote_filename e))
  notify_uploaded past m prepared (ok _) =
      let n = notification_of m prepared in
      (past ++ notifies n ∷ [], receive prepared.remote_filename (notify past n))

  unfoldable pub upload_prepared :
      List Event
      → NativeSubmissionMetadata
      → Result PreparedUploadObject (PrepareUploadError Z I)
      → Submitted
  upload_prepared past m (err e) = (past, err (prepare_failed e))
  upload_prepared past m (ok p) =
      notify_uploaded (past ++ uploads p.remote_filename p.uploaded_bytes ∷ []) m p
        (upload past p.remote_filename p.uploaded_bytes)

  unfoldable pub submit : List Event → NativeSubmissionRequest → Submitted
  submit past r = upload_prepared past r.metadata (
      prepare_upload_object zip_single_entry r.signed_local_filename r.remote_filename
        r.signed_bytes r.zip_mode)
