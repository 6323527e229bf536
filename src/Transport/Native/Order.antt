-- ===== src/Transport/Native/Order.antt =====
-- The calls of the network that submissions make: upload first, and notify of what was uploaded.
use tw_einvoice_rs.Base.{
  ◌≤◌, ◌≡◌, refl, sym, subst, List, [], ◌∷◌, ◌++◌, Str, Result, ok, err, Result-cases, inl, inr,
  length,
}
use tw_einvoice_rs.Transport.Gateway.{UploadNotification, GatewayProcessStatus}
use tw_einvoice_rs.Transport.Package.{
  PreparedUploadObject, PrepareUploadError, prepare_upload_object, object_bytes,
  prepare_upload_object_iff, max_signed_source_bytes, IsBasename,
}
use tw_einvoice_rs.Transport.Native.{
  NativeSubmissionRequest, Event, uploads, notifies, notification_of, notify_uploaded,
  upload_prepared, submit,
}

module _ {Z I U N : Type 0} (zip_single_entry : Str → Str → Result Str (PrepareUploadError Z I))
    (upload : List Event → Str → Str → Result Unit U)
    (notify : List Event → UploadNotification → Result GatewayProcessStatus N) where
  -- The notification describes the object: its name, its mode, and the length of the bytes that it
  -- was made from.
  pub record Describes (n : UploadNotification) (name bytes : Str) : Type 0 where
    pub same_name : n.filename ≡ name
    pub is_base : IsBasename name
    pub made :
        (local : Str) × (signed : Str) × (object_bytes zip_single_entry n.zip_mode local signed
          ≡ ok bytes)
        × (length signed ≤ max_signed_source_bytes)
        × (n.size ≡ length signed)

  -- A history of calls in which each notification comes directly after the upload that it
  -- describes, which succeeded.
  pub data IsOrdered : List Event → Type 0 where
    nothing_sent : IsOrdered []
    upload_refused :
        {past : List Event} (name bytes : Str) (e : U)
        → IsOrdered past
        → upload past name bytes ≡ err e
        → IsOrdered (past ++ uploads name bytes ∷ [])
    notified :
        {past : List Event} (name bytes : Str) (n : UploadNotification)
        → IsOrdered past
        → upload past name bytes ≡ ok tt
        → Describes n name bytes
        → IsOrdered ((past ++ uploads name bytes ∷ []) ++ notifies n ∷ [])

  describes :
      (r : NativeSubmissionRequest) (p : PreparedUploadObject)
      → prepare_upload_object zip_single_entry r.signed_local_filename r.remote_filename
          r.signed_bytes r.zip_mode
        ≡ ok p
      → Describes (notification_of r.metadata p) p.remote_filename p.uploaded_bytes
  describes r p h =
      let (_, base, size, bytes, name, same, mode) =
        (prepare_upload_object_iff zip_single_entry r.signed_local_filename r.remote_filename
            r.signed_bytes r.zip_mode p).0
          h in
      record {
        same_name = refl;
        is_base = subst IsBasename (sym name) base;
        made = (
          r.signed_local_filename,
          r.signed_bytes,
          subst
              (λ m.
                object_bytes zip_single_entry m r.signed_local_filename r.signed_bytes
                ≡ ok p.uploaded_bytes)
              (sym mode) bytes,
          size,
          same,
        );
      }

  upload_prepared-IsOrdered :
      (past : List Event) (r : NativeSubmissionRequest)
      (o : Result PreparedUploadObject (PrepareUploadError Z I))
      → IsOrdered past
      → prepare_upload_object zip_single_entry r.signed_local_filename r.remote_filename
          r.signed_bytes r.zip_mode
        ≡ o
      → IsOrdered (upload_prepared zip_single_entry upload notify past r.metadata o).0
  unfolding upload_prepared notify_uploaded
  upload_prepared-IsOrdered past r (err e) w h = w
  upload_prepared-IsOrdered past r (ok p) w h =
      elim (Result-cases (upload past p.remote_filename p.uploaded_bytes)) [
        | inl (_, e) ↦ rw e (notified p.remote_filename p.uploaded_bytes _ w e (describes r p h))
        | inr (x, e) ↦ rw e (upload_refused p.remote_filename p.uploaded_bytes x w e)
      ]

  -- However the uploader and the notifier answer, a submission keeps the order: nothing is notified
  -- but what was uploaded just before, with success, under the notified name, from signed bytes of
  -- the notified size, which is at most 20 MiB.
  pub submit-IsOrdered :
      (past : List Event) (r : NativeSubmissionRequest)
      → IsOrdered past
      → IsOrdered (submit zip_single_entry upload notify past r).0
  unfolding submit
  submit-IsOrdered past r w = upload_prepared-IsOrdered past r _ w refl
