-- ===== src/Transport/Package.antt =====
-- crates/einvoice-transport/src/package.rs: the object that is uploaded. `zip_single_entry` is a
-- chain of calls of the `zip` crate, and a parameter.
use tw_einvoice_rs.Base.{
  ap, sym, ◌∙◌, Lacks, ◌≢◌, [], ◌∷◌, str_eq_iff, str_eq_of_ne, use_ok, eq_of_ok, ℕ, ◌*◌, ◌^◌, ◌<◌,
  ◌≤◌, ◌≡◌, ◌↔◌, refl, Bool, ◌||◌, true, false, Str, codes, length, is_empty, leb→le, le→leb,
  str_eq, contains, Result, ok, err, ◌>>=◌, ◌>>◌, ensure, ltb, leb, if◌then◌else◌, arith,
}
use tw_einvoice_rs.Transport.Gateway.{ZipMode, plain, zip}

abbrev pub max_signed_source_bytes : ℕ
max_signed_source_bytes = 20 * 1024 * 1024

pub record PreparedUploadObject : Type 0 where
  pub remote_filename : Str
  pub uploaded_bytes : Str
  pub notification_size : ℕ
  pub zip_mode : ZipMode

pub data FilenameField : Type 0 where
  signed_local_filename remote_filename_field : FilenameField

pub data PrepareUploadError (Z I : Type 0) : Type 0 where
  invalid_filename : FilenameField → PrepareUploadError Z I
  source_too_large : ℕ → ℕ → PrepareUploadError Z I
  length_out_of_range : PrepareUploadError Z I
  zip_error : Z → PrepareUploadError Z I
  io_error : I → PrepareUploadError Z I

abbrev pub is_unsafe : Str → Bool
is_unsafe value =
    is_empty value
    || (str_eq value (codes ".")
        || (str_eq value (codes "..")
            || (contains b'/' value || (contains b'\\' value || contains 0 value))))

module _ {Z I : Type 0} where
  unfoldable pub validate_basename : FilenameField → Str → Result Unit (PrepareUploadError Z I)
  validate_basename field value = if is_unsafe value then err (invalid_filename field) else ok tt

  unfoldable pub notification_size_of : ℕ → Result ℕ (PrepareUploadError Z I)
  notification_size_of n = if ltb n (2 ^ 64) then ok n else err length_out_of_range

module _ {Z I : Type 0} (zip_single_entry : Str → Str → Result Str (PrepareUploadError Z I)) where
  unfoldable pub object_bytes : ZipMode → Str → Str → Result Str (PrepareUploadError Z I)
  object_bytes plain local signed = ok signed
  object_bytes zip local signed = zip_single_entry local signed

  unfoldable pub prepare_upload_object :
      Str → Str → Str → ZipMode → Result PreparedUploadObject (PrepareUploadError Z I)
  prepare_upload_object local remote signed mode =
      validate_basename signed_local_filename local
      >> (validate_basename remote_filename_field remote
          >> (ensure (leb (length signed) max_signed_source_bytes)
                (source_too_large (length signed) max_signed_source_bytes)
              >> (notification_size_of (length signed) >>= λ size.
                  object_bytes mode local signed >>= λ bytes. ok (record {
                    remote_filename = remote;
                    uploaded_bytes = bytes;
                    notification_size = size;
                    zip_mode = mode;
                  }))))

-- A file name that stays in the directory that it is used in.
abbrev pub IsBasename : Str → Type 0
IsBasename s =
    (s ≢ []) × ((s ≢ codes ".") × ((s ≢ codes "..") × (Lacks b'/' s × (Lacks b'\\' s × Lacks 0 s))))

contains_iff : (c : ℕ) (s : Str) → (contains c s ≡ false) ↔ Lacks c s
contains_iff c [] = (λ _. tt, λ _. refl)
contains_iff c (d ∷ s) = ground (arith, contains_iff c s)

is_empty_iff : (s : Str) → (is_empty s ≡ false) ↔ (s ≢ [])
is_empty_iff [] = (λ h. cc, λ h. absurd (h refl))
is_empty_iff (c ∷ s) = (λ h e. cc, λ _. refl)

||-false_iff :
    {P Q : Type 0} (a b : Bool) → (a ≡ false) ↔ P → (b ≡ false) ↔ Q → ((a || b) ≡ false) ↔ (P × Q)
||-false_iff true b p q = (λ h. absurd (cc), λ h. p.1 h.0)
||-false_iff false b p q = (λ h. (p.0 refl, q.0 h), λ h. q.1 h.1)

str_eq-false_iff : (s t : Str) → (str_eq s t ≡ false) ↔ (s ≢ t)
str_eq-false_iff s t = (λ h e. let f = (str_eq_iff s t).1 e in cc, λ h. str_eq_of_ne s t h)

pub is_unsafe_iff : (s : Str) → (is_unsafe s ≡ false) ↔ IsBasename s
is_unsafe_iff s = ||-false_iff (is_empty s) _ (is_empty_iff s) (
    ||-false_iff (str_eq s (codes ".")) _ (str_eq-false_iff s (codes ".")) (
      ||-false_iff (str_eq s (codes "..")) _ (str_eq-false_iff s (codes "..")) (
        ||-false_iff (contains b'/' s) _ (contains_iff b'/' s)
          (||-false_iff (contains b'\\' s) _ (contains_iff b'\\' s) (contains_iff 0 s)))))

validate_basename_iff :
    {Z I : Type 0} (f : FilenameField) (s : Str)
    → (◌≡◌ {A = Result Unit (PrepareUploadError Z I)} (validate_basename f s) (ok tt))
      ↔ IsBasename s
unfolding validate_basename
validate_basename_iff f s =
    (λ h. (is_unsafe_iff s).0 (ground arith), λ h. rw ((is_unsafe_iff s).1 h) refl)

notification_size_of_iff :
    {Z I : Type 0} (n m : ℕ)
    → (◌≡◌ {A = Result ℕ (PrepareUploadError Z I)} (notification_size_of n) (ok m))
      ↔ ((n < 2 ^ 64) × (m ≡ n))
unfolding notification_size_of
notification_size_of_iff n m = ground arith

object : Str → Str → ℕ → ZipMode → PreparedUploadObject
object name bytes size mode = record {
  remote_filename = name;
  uploaded_bytes = bytes;
  notification_size = size;
  zip_mode = mode;
}

ensure-true : {E : Type 0} (b : Bool) (e : E) → ensure b e ≡ ok tt → b ≡ true
ensure-true true e h = refl
ensure-true false e h = cc

module _ {Z I : Type 0} (zip_single_entry : Str → Str → Result Str (PrepareUploadError Z I)) where
  -- An object is prepared exactly when both names are base names, the signed bytes are at most
  -- 20 MiB, and the bytes to upload could be made; the object then has the remote name and the mode
  -- that were asked for, those bytes, and the length of the signed bytes before any compression.
  pub prepare_upload_object_iff :
      (local remote signed : Str) (mode : ZipMode) (p : PreparedUploadObject)
      → (prepare_upload_object zip_single_entry local remote signed mode ≡ ok p) ↔ (
          IsBasename local
          × IsBasename remote
          × (length signed ≤ max_signed_source_bytes)
          × (object_bytes zip_single_entry mode local signed ≡ ok p.uploaded_bytes)
          × (p.remote_filename ≡ remote)
          × (p.notification_size ≡ length signed)
          × (p.zip_mode ≡ mode))
  unfolding prepare_upload_object object
  prepare_upload_object_iff local remote signed mode p = (
    λ h. use_ok (validate_basename signed_local_filename local) _ h λ _ a h1.
        use_ok (validate_basename remote_filename_field remote) _ h1 λ _ b h2.
          use_ok (ensure (leb (length signed) max_signed_source_bytes) _) _ h2 λ _ c h3.
            use_ok (notification_size_of (length signed)) _ h3 λ size d h4.
              use_ok (object_bytes zip_single_entry mode local signed) _ h4 λ bytes e h5.
                let q = eq_of_ok h5 in
                (
                  (validate_basename_iff signed_local_filename local).0 a,
                  (validate_basename_iff remote_filename_field remote).0 b,
                  leb→le (length signed) max_signed_source_bytes (ensure-true _ _ c),
                  e ∙ ap (λ r. ok r.uploaded_bytes) q,
                  ap (λ r. r.remote_filename) (sym q),
                  ap (λ r. r.notification_size) (sym q)
                      ∙ ((notification_size_of_iff (length signed) size).0 d).1,
                  ap (λ r. r.zip_mode) (sym q),
                ),
    λ (a, b, c, e, f, g, i). rw ((validate_basename_iff signed_local_filename local).1 a) (
        rw ((validate_basename_iff remote_filename_field remote).1 b) (
          rw (le→leb (length signed) max_signed_source_bytes c) (
            rw ((notification_size_of_iff (length signed) (length signed)).1 (omega arith, refl)) (
              rw e (
                ap (λ x. ok (object x p.uploaded_bytes (length signed) mode)) (sym f)
                ∙ ap (λ x. ok (object p.remote_filename p.uploaded_bytes x mode)) (sym g)
                ∙ ap (λ x. ok (object p.remote_filename p.uploaded_bytes p.notification_size x))
                    (sym i)))))),
  )
