-- ===== src/Transport/Packed/Order.antt =====
-- A pack is sent only under a count that is the notified quantity.
use tw_einvoice_rs.Base.{
  ℕ, ◌<◌, ◌≡◌, ◌≢◌, refl, ap, ◌∙◌, Bool-cases, List, Str, Result, inl, inr, Option, none, some, ℤ,
  pos, negsuc, ◌==◌, arith, try_unsigned,
}
use tw_einvoice_rs.Transport.Gateway.{UploadNotification, GatewayProcessStatus}
use tw_einvoice_rs.Transport.Package.{PrepareUploadError}
use tw_einvoice_rs.Transport.Native.{Event}
use tw_einvoice_rs.Transport.Native.Order.{IsOrdered, submit-IsOrdered}
use tw_einvoice_rs.Transport.Packed.{
  PackArtifactSubmission, positive, native_request, submit_native, submit_counted,
  submit_pack_artifact,
}

module _ {Z I U N : Type 0} (zip_single_entry : Str → Str → Result Str (PrepareUploadError Z I))
    (upload : List Event → Str → Str → Result Unit U)
    (notify : List Event → UploadNotification → Result GatewayProcessStatus N) where
  abbrev pub IsCounted : PackArtifactSubmission → Type 0
  IsCounted r =
      (r.filename.pack_count ≡ pos r.metadata.message.quantity) × (0 < r.metadata.message.quantity)

  positive_count : (z : ℤ) {n : ℕ} → positive (try_unsigned z) ≡ some n → (z ≡ pos n) × (0 < n)
  positive_count (pos m) h = ground arith
  positive_count (negsuc m) h = cc

  counted :
      (past : List Event) (r : PackArtifactSubmission) (o : Option ℕ)
      → positive (try_unsigned r.filename.pack_count) ≡ o
      → (submit_counted zip_single_entry upload notify past r o).0 ≢ past
      → IsCounted r
  unfolding submit_counted
  counted past r none h moved = absurd (moved refl)
  counted past r (some n) h moved = elim (Bool-cases (n == r.metadata.message.quantity)) [
    | inr other ↦ absurd ((rw other at moved) refl)
    | inl same ↦
        let (e, p) = positive_count r.filename.pack_count h in
        let q : n ≡ r.metadata.message.quantity = ground arith in (e ∙ ap pos q, omega arith)
  ]

  -- Where the submission of a pack makes any call of the network, the count in the pack's name is
  -- positive and is the quantity of the notification.
  pub submit_pack_artifact-IsCounted :
      (past : List Event) (r : PackArtifactSubmission)
      → (submit_pack_artifact zip_single_entry upload notify past r).0 ≢ past
      → IsCounted r
  unfolding submit_pack_artifact
  submit_pack_artifact-IsCounted past r moved = counted past r _ refl moved

  submit_counted-IsOrdered :
      (past : List Event) (r : PackArtifactSubmission) (o : Option ℕ)
      → IsOrdered zip_single_entry upload notify past
      → IsOrdered zip_single_entry upload notify
          (submit_counted zip_single_entry upload notify past r o).0
  unfolding submit_counted submit_native
  submit_counted-IsOrdered past r none w = w
  submit_counted-IsOrdered past r (some n) w =
      elim (Bool-cases (n == r.metadata.message.quantity)) [
        | inl e ↦ rw e (submit-IsOrdered zip_single_entry upload notify past (native_request r) w)
        | inr e ↦ rw e w
      ]

  -- The order of the calls is kept by the submission of a pack.
  pub submit_pack_artifact-IsOrdered :
      (past : List Event) (r : PackArtifactSubmission)
      → IsOrdered zip_single_entry upload notify past
      → IsOrdered zip_single_entry upload notify
          (submit_pack_artifact zip_single_entry upload notify past r).0
  unfolding submit_pack_artifact
  submit_pack_artifact-IsOrdered past r w = submit_counted-IsOrdered past r _ w
