-- ===== src/Cli/Durable.antt =====
-- The durability of apps/einvoice-cli/src/main.rs: what is sent was written before.
use tw_einvoice_rs.Base.{
  ◌≡◌, ◌≢◌, ◌⊎◌, inl, inr, refl, ap, ◌∙◌, Bool, true, false, Option, none, some, [], Str,
  str_eq_refl, str_eq_of_ne, Result, ok, err,
}
use tw_einvoice_rs.Client.{PreparedSubmission}
use tw_einvoice_rs.Transport.Native.{Event}
use tw_einvoice_rs.Transport.Native as Native
use tw_einvoice_rs.Cli.{SubmitArgs, CommonPrepareArgs, CliError}
use tw_einvoice_rs.Cli.Artifact.{
  Files, PersistStep, opens_file, writes_file, syncs_file, write_all, open_new, open_with,
  persist_artifact,
}
use tw_einvoice_rs.Cli.Run.{
  Host, Ran, Failure, prepare_on, persist, submit_with, submit_client, submit_secret,
  submit_persisted, submit_prepared_on, run_submit,
}

-- A path that the writing leaves alone: another one, or one that is taken, without force.
abbrev pub IsSpared : Files → Str → Bool → Str → Type 0
IsSpared files path force p = (p ≢ path) ⊎ ((force ≡ false) × (files path ≢ none))

module _ {I : Type 0} (already_exists : I) (fault : PersistStep → Option I) (partial : Str → Str)
    (files : Files) (path bytes : Str) where
  write_all_ok :
      (a b : Option I)
      → (write_all already_exists fault partial files path bytes a b).1 ≡ ok tt
      → (write_all already_exists fault partial files path bytes a b).0 path ≡ some bytes
  write_all_ok (some e) b h = cc
  write_all_ok none none h = rw (str_eq_refl path)
  write_all_ok none (some e) h = cc

  open_new_ok :
      (old : Option Str)
      → (open_new already_exists fault partial files path bytes old).1 ≡ ok tt
      → (open_new already_exists fault partial files path bytes old).0 path ≡ some bytes
  open_new_ok (some x) h = cc
  open_new_ok none h = write_all_ok (fault writes_file) (fault syncs_file) h

  open_with_ok :
      (force : Bool) (o : Option I)
      → (open_with already_exists fault partial files path bytes force o).1 ≡ ok tt
      → (open_with already_exists fault partial files path bytes force o).0 path ≡ some bytes
  open_with_ok force (some e) h = cc
  open_with_ok true none h = write_all_ok (fault writes_file) (fault syncs_file) h
  open_with_ok false none h = open_new_ok (files path) h

  write_all_other :
      (a b : Option I) (p : Str)
      → p ≢ path
      → (write_all already_exists fault partial files path bytes a b).0 p ≡ files p
  write_all_other (some e) b p n = rw (str_eq_of_ne p path n)
  write_all_other none none p n = rw (str_eq_of_ne p path n)
  write_all_other none (some e) p n = rw (str_eq_of_ne p path n)

  open_new_spared :
      (old : Option Str) (p : Str)
      → files path ≡ old
      → IsSpared files path false p
      → (open_new already_exists fault partial files path bytes old).0 p ≡ files p
  open_new_spared (some x) p e s = refl
  open_new_spared none p e (inl n) = write_all_other (fault writes_file) (fault syncs_file) p n
  open_new_spared none p e (inr t) = absurd (t.1 e)

  open_with_spared :
      (force : Bool) (o : Option I) (p : Str)
      → IsSpared files path force p
      → (open_with already_exists fault partial files path bytes force o).0 p ≡ files p
  open_with_spared force (some e) p s = refl
  open_with_spared true none p (inl n) = write_all_other (fault writes_file) (fault syncs_file) p n
  open_with_spared true none p (inr t) = cc (t.0)
  open_with_spared false none p s = open_new_spared (files path) p refl s

module _ {I K E Z J U N C : Type 0} (h : Host I K E Z J U N C) (files : Files) where
  -- The artifact that was prepared is in the file for it.
  abbrev pub IsPersisted : CommonPrepareArgs → PreparedSubmission → Files → Type 0
  IsPersisted args p after = after args.output ≡ some p.artifact.upload_bytes

  -- What a submission sends is what it prepared, and wrote.
  abbrev pub IsDurable : SubmitArgs → Ran Native.NativeSubmissionReceipt (Failure h) → Type 0
  IsDurable args r =
      (p : PreparedSubmission) × (password : Str) × (prepare_on h files args.common ≡ ok p)
      × IsPersisted args.common p r.files
      × (r.events ≡ (submit_with h args p password).0)

  client_Durable :
      (after : Files) (args : SubmitArgs) (p : PreparedSubmission) (password : Str)
      (c : Result (Unit {0}) C)
      → prepare_on h files args.common ≡ ok p
      → IsPersisted args.common p after
      → (submit_client h after args p password c).events ≢ []
      → IsDurable args (submit_client h after args p password c)
  client_Durable after args p password (err e) q w n = absurd (n refl)
  client_Durable after args p password (ok _) q w n = (p, password, q, w, refl)

  secret_Durable :
      (after : Files) (args : SubmitArgs) (p : PreparedSubmission) (s : Result Str CliError)
      → prepare_on h files args.common ≡ ok p
      → IsPersisted args.common p after
      → (submit_secret h after args p s).events ≢ []
      → IsDurable args (submit_secret h after args p s)
  secret_Durable after args p (err e) q w n = absurd (n refl)
  secret_Durable after args p (ok password) q w n = client_Durable after args p password _ q w n

  persisted_Durable :
      (args : SubmitArgs) (p : PreparedSubmission) (r : Files × Result (Unit {0}) I)
      → prepare_on h files args.common ≡ ok p
      → (r.1 ≡ ok tt → IsPersisted args.common p r.0)
      → (submit_persisted h args p r).events ≢ []
      → IsDurable args (submit_persisted h args p r)
  persisted_Durable args p (after, err e) q w n = absurd (n refl)
  persisted_Durable args p (after, ok _) q w n = secret_Durable after args p _ q (w refl) n

  persist-IsPersisted :
      (args : CommonPrepareArgs) (p : PreparedSubmission)
      → (persist h files args p).1 ≡ ok tt
      → IsPersisted args p (persist h files args p).0
  unfolding persist_artifact
  persist-IsPersisted args p e =
      open_with_ok h.already_exists h.fault h.partial files args.output p.artifact.upload_bytes
        args.force_output (h.fault opens_file) e

  prepared_Durable :
      (args : SubmitArgs) (r : Result PreparedSubmission (Failure h))
      → prepare_on h files args.common ≡ r
      → (submit_prepared_on h files args r).events ≢ []
      → IsDurable args (submit_prepared_on h files args r)
  prepared_Durable args (err e) q n = absurd (n refl)
  prepared_Durable args (ok p) q n =
      persisted_Durable args p (persist h files args.common p) q (persist-IsPersisted args.common p)
        n

  -- Where a submission made any call of the network, what it prepared is in the output file, byte
  -- for byte, and its calls are those of the submission of exactly this.
  pub run_submit-IsDurable :
      (args : SubmitArgs)
      → (run_submit h files args).events ≢ []
      → IsDurable args (run_submit h files args)
  unfolding run_submit
  run_submit-IsDurable args n = prepared_Durable args (prepare_on h files args.common) refl n

  client_files :
      (after : Files) (args : SubmitArgs) (p : PreparedSubmission) (password : Str)
      (c : Result (Unit {0}) C)
      → (submit_client h after args p password c).files ≡ after
  client_files after args p password (err e) = refl
  client_files after args p password (ok _) = refl

  secret_files :
      (after : Files) (args : SubmitArgs) (p : PreparedSubmission) (s : Result Str CliError)
      → (submit_secret h after args p s).files ≡ after
  secret_files after args p (err e) = refl
  secret_files after args p (ok password) = client_files after args p password _

  persisted_files :
      (args : SubmitArgs) (p : PreparedSubmission) (r : Files × Result (Unit {0}) I)
      → (submit_persisted h args p r).files ≡ r.0
  persisted_files args p (after, err e) = refl
  persisted_files args p (after, ok _) = secret_files after args p _

  persist_spared :
      (args : CommonPrepareArgs) (p : PreparedSubmission) (path : Str)
      → IsSpared files args.output args.force_output path
      → (persist h files args p).0 path ≡ files path
  unfolding persist_artifact
  persist_spared args p path s =
      open_with_spared h.already_exists h.fault h.partial files args.output p.artifact.upload_bytes
        args.force_output (h.fault opens_file) path s

  prepared_spared :
      (args : SubmitArgs) (r : Result PreparedSubmission (Failure h)) (path : Str)
      → IsSpared files args.common.output args.common.force_output path
      → (submit_prepared_on h files args r).files path ≡ files path
  prepared_spared args (err e) path s = refl
  prepared_spared args (ok p) path s =
      ap (λ fs. fs path) (persisted_files args p (persist h files args.common p))
      ∙ persist_spared args.common p path s

  -- Whatever fails, a submission changes no file but the output file, and that one, if it is there
  -- already, only with force.
  pub run_submit-spares :
      (args : SubmitArgs) (path : Str)
      → IsSpared files args.common.output args.common.force_output path
      → (run_submit h files args).files path ≡ files path
  unfolding run_submit
  run_submit-spares args path s = prepared_spared args (prepare_on h files args.common) path s
