-- ===== src/Client/Consistency.antt =====
-- A plan that is accepted says one thing everywhere, and its submission passes the later checks.
use tw_einvoice_rs.Base.{
  Bool, subst, ℕ, ◌<◌, ◌≤◌, ◌≡◌, ◌↔◌, ◌⊎◌, inl, inr, [], ◌∷◌, ◌++◌, length, Result-cases, refl, sym,
  ap, ◌∙◌, true, false, some, List, Str, Result, ok, err, map_err, ensure, ℤ, pos, negsuc,
  try_unsigned, ◌==◌, ==_iff, str_eq, str_eq_iff, use_ok, ok_of-map_err, eq_of_ok, arith,
}
use tw_einvoice_rs.Core.{version_str}
use tw_einvoice_rs.Envelope.{count}
use tw_einvoice_rs.Pack.{CmsSigner, pack_and_sign}
use tw_einvoice_rs.Transport.Gateway.{UploadNotification, GatewayProcessStatus}
use tw_einvoice_rs.Transport.Package.{
  PreparedUploadObject, PrepareUploadError, IsBasename, max_signed_source_bytes, object_bytes,
  prepare_upload_object_iff,
}
use tw_einvoice_rs.Transport.PackFilename.{render, remote_filename}
use tw_einvoice_rs.Transport.Native.{
  NativeSubmissionMetadata, Event, uploads, notifies, notification_of, notify_uploaded,
  upload_prepared, submit,
}
use tw_einvoice_rs.Transport.Packed.{
  PackArtifactSubmission, positive, submit_native, submit_counted, submit_pack_artifact,
}
use tw_einvoice_rs.Client.{
  SubmissionPlan, PreparedSubmission, SubmissionConsistencyError, consistency_error, pack_error,
  filename_count, same_text, validate_plan, quantity_of, prepare_submission, pack_request,
  submit_prepared, message_type_mismatch, mig_version_mismatch, from_party_mismatch,
  to_party_mismatch,
}

-- The name of the pack and its envelope agree.
abbrev pub IsAgreed : SubmissionPlan → Type 0
IsAgreed plan =
    (plan.filename.pack_count ≡ pos (count plan.envelope))
    × (0 < count plan.envelope)
    × (plan.filename.common_name.message_type ≡ plan.envelope.metadata.message_type)
    × (plan.filename.common_name.mig_version ≡ version_str plan.envelope.metadata.version)
    × (plan.filename.from_party ≡ plan.envelope.routing.from.identifier)
    × (plan.filename.to_party ≡ plan.envelope.routing.to.identifier)

ensure_iff : {E : Type 0} (b : Bool) (e : E) → (ensure b e ≡ ok tt) ↔ (b ≡ true)
ensure_iff true e = (λ _. refl, λ _. refl)
ensure_iff false e = (λ h. cc, λ h. cc)

same_text_iff :
    (f : Str → Str → SubmissionConsistencyError) (s t : Str) → (same_text f s t ≡ ok tt) ↔ (s ≡ t)
same_text_iff f s t = (
  λ h. (str_eq_iff s t).0 ((ensure_iff (str_eq s t) (f t s)).0 h),
  λ h. (ensure_iff (str_eq s t) (f t s)).1 ((str_eq_iff s t).1 h),
)

filename_count_iff :
    (plan : SubmissionPlan) (z : ℤ) (n : ℕ)
    → (filename_count plan (positive (try_unsigned z)) ≡ ok n) ↔ ((z ≡ pos n) × (0 < n))
filename_count_iff plan (pos m) n = ground arith
filename_count_iff plan (negsuc m) n = (λ h. cc, λ h. cc)

-- A plan is accepted exactly when the count in the pack's name is positive and the number of
-- payloads, and the name and the envelope have one message type, version, sender and receiver.
pub validate_plan_iff : (plan : SubmissionPlan) → (validate_plan plan ≡ ok tt) ↔ IsAgreed plan
unfolding validate_plan
validate_plan_iff plan = (
  λ h. use_ok (filename_count plan (positive (try_unsigned plan.filename.pack_count))) _ h λ n a h1.
      use_ok (ensure (n == count plan.envelope) _) _ h1 λ _ b h2.
        use_ok (same_text message_type_mismatch plan.filename.common_name.message_type _) _ h2
          λ _ c h3.
            use_ok (same_text mig_version_mismatch plan.filename.common_name.mig_version _) _ h3
              λ _ d h4.
                use_ok (same_text from_party_mismatch plan.filename.from_party _) _ h4 λ _ e h5.
                  let (z, l) = (filename_count_iff plan plan.filename.pack_count n).0 a in
                  let q =
                    (==_iff n (count plan.envelope)).0
                      ((ensure_iff (n == count plan.envelope) _).0 b) in
                  (
                    z ∙ ap pos q,
                    omega arith,
                    (same_text_iff message_type_mismatch _ _).0 c,
                    (same_text_iff mig_version_mismatch _ _).0 d,
                    (same_text_iff from_party_mismatch _ _).0 e,
                    (same_text_iff to_party_mismatch _ _).0 h5,
                  ),
  λ (z, l, c, d, e, f).
      let n = count plan.envelope in
      rw ((filename_count_iff plan plan.filename.pack_count n).1 (z, l)) (
        rw ((==_iff n n).1 refl) (
          rw ((same_text_iff message_type_mismatch _ _).1 c) (
            rw ((same_text_iff mig_version_mismatch _ _).1 d) (
              rw ((same_text_iff from_party_mismatch _ _).1 e)
                ((same_text_iff to_party_mismatch _ _).1 f))))),
)

quantity_of_ok : (n q : ℕ) → quantity_of n ≡ ok q → q ≡ n
quantity_of_ok n q h = ground arith

positive-some : (n : ℕ) → 0 < n → positive (some n) ≡ some n
positive-some n l = ground arith

module _ {Z I U N E : Type 0} (encode : Str → Str) (signer : CmsSigner E)
    (zip_single_entry : Str → Str → Result Str (PrepareUploadError Z I))
    (upload : List Event → Str → Str → Result Unit U)
    (notify : List Event → UploadNotification → Result GatewayProcessStatus N) where
  counted :
      (past : List Event) (r : PackArtifactSubmission) (n : ℕ)
      → r.filename.pack_count ≡ pos n
      → 0 < n
      → r.metadata.message.quantity ≡ n
      → submit_pack_artifact zip_single_entry upload notify past r
        ≡ submit_native zip_single_entry upload notify past r
  unfolding submit_pack_artifact submit_counted
  counted past r n z l q =
      ap (λ x. submit_counted zip_single_entry upload notify past r (positive (try_unsigned x))) z
      ∙ ap (submit_counted zip_single_entry upload notify past r) (positive-some n l)
      ∙ rw ((==_iff n r.metadata.message.quantity).1 (sym q)) refl

  -- A submission that was prepared passes the checks of the count.
  prepared_submits :
      (plan : SubmissionPlan) (p : PreparedSubmission) (past : List Event)
      → prepare_submission encode signer plan ≡ ok p
      → submit_prepared zip_single_entry upload notify past p
        ≡ submit_native zip_single_entry upload notify past (pack_request p)
  unfolding prepare_submission submit_prepared
  prepared_submits plan p past h =
      use_ok (map_err consistency_error (validate_plan plan)) _ h λ _ v h1.
        use_ok (map_err consistency_error (quantity_of (count plan.envelope))) _ h1 λ q e h2.
          use_ok (map_err pack_error (pack_and_sign encode plan.envelope signer)) _ h2 λ a _ h3.
            let (z, l, _, _, _, _) =
              (validate_plan_iff plan).0 (ok_of-map_err consistency_error (validate_plan plan) v) in
            subst
              (λ p.
                submit_pack_artifact zip_single_entry upload notify past (pack_request p)
                ≡ submit_native zip_single_entry upload notify past (pack_request p))
              (eq_of_ok h3)
              (counted past _ (count plan.envelope) z l (
                quantity_of_ok (count plan.envelope) q
                  (ok_of-map_err consistency_error (quantity_of (count plan.envelope)) e)))

  prepared_quantity :
      (plan : SubmissionPlan) (p : PreparedSubmission)
      → prepare_submission encode signer plan ≡ ok p
      → (p.filename ≡ plan.filename) × (p.metadata.message.quantity ≡ count plan.envelope)
  unfolding prepare_submission
  prepared_quantity plan p h = use_ok (map_err consistency_error (validate_plan plan)) _ h λ _ v h1.
      use_ok (map_err consistency_error (quantity_of (count plan.envelope))) _ h1 λ q e h2.
        use_ok (map_err pack_error (pack_and_sign encode plan.envelope signer)) _ h2 λ a _ h3.
          subst
            (λ p.
              (p.filename ≡ plan.filename) × (p.metadata.message.quantity ≡ count plan.envelope))
            (eq_of_ok h3)
            (
              refl,
              quantity_of_ok (count plan.envelope) q
                  (ok_of-map_err consistency_error (quantity_of (count plan.envelope)) e),
            )

  -- The calls of a submission of these bytes under this name: the upload, and if it succeeded the
  -- notification, which tells the name, the count and the size.
  abbrev pub Uploads : List Event → Str → Str → ℕ → ℕ → List Event → Type 0
  Uploads past name bytes quantity size events =
      ((e : U) × (upload past name bytes ≡ err e) × (events ≡ past ++ uploads name bytes ∷ []))
      ⊎ ((n : UploadNotification) × (upload past name bytes ≡ ok tt)
          × (events ≡ (past ++ uploads name bytes ∷ []) ++ notifies n ∷ [])
          × (n.filename ≡ name)
          × (n.quantity ≡ quantity)
          × (n.size ≡ size))

  prepared_object-Uploads :
      (m : NativeSubmissionMetadata) (past : List Event) (o : PreparedUploadObject)
      → Uploads past o.remote_filename o.uploaded_bytes m.message.quantity o.notification_size
          (upload_prepared zip_single_entry upload notify past m (ok o)).0
  unfolding upload_prepared notify_uploaded
  prepared_object-Uploads m past o =
      elim (Result-cases (upload past o.remote_filename o.uploaded_bytes)) [
        | inl (u, e) ↦ rw e (inr (notification_of m o, refl, refl, refl, refl, refl))
        | inr (u, e) ↦ rw e (inl (u, refl, refl))
      ]

  -- A submission that was prepared is not refused for its count. Where the two names of the pack are
  -- base names, the artifact is at most 20 MiB, and the bytes to upload could be made, it makes
  -- these calls: it uploads the bytes under the remote name, and if that succeeded it notifies of
  -- this name, the number of the payloads, and the size of the artifact.
  pub prepared-Uploads :
      (plan : SubmissionPlan) (p : PreparedSubmission) (past : List Event) (bytes : Str)
      → prepare_submission encode signer plan ≡ ok p
      → IsBasename (render plan.filename)
      → IsBasename (remote_filename plan.filename)
      → length p.artifact.upload_bytes ≤ max_signed_source_bytes
      → object_bytes zip_single_entry p.zip_mode (render plan.filename) p.artifact.upload_bytes
        ≡ ok bytes
      → Uploads past
          (remote_filename plan.filename)
          bytes
          (count plan.envelope)
          (length p.artifact.upload_bytes)
          (submit_prepared zip_single_entry upload notify past p).0
  unfolding submit_native submit
  prepared-Uploads plan p past bytes h local remote fits made =
      let o : PreparedUploadObject = record {
        remote_filename = remote_filename p.filename;
        uploaded_bytes = bytes;
        notification_size = length p.artifact.upload_bytes;
        zip_mode = p.zip_mode;
      } in
      let (name, quantity) = prepared_quantity plan p h in
      let same = sym name in
      let e =
        (prepare_upload_object_iff zip_single_entry (render p.filename) (remote_filename p.filename)
            p.artifact.upload_bytes p.zip_mode o).1
          (
            subst (λ f. IsBasename (render f)) same local,
            subst (λ f. IsBasename (remote_filename f)) same remote,
            fits,
            subst
                (λ f.
                  object_bytes zip_single_entry p.zip_mode (render f) p.artifact.upload_bytes
                  ≡ ok bytes)
                same made,
            refl,
            refl,
            refl,
          ) in
      rw (prepared_submits plan p past h, e, sym name, sym quantity)
        (prepared_object-Uploads p.metadata past o)
