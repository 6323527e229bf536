-- ===== src/Cli/Plan.antt =====
-- The plans that apps/einvoice-cli/src/main.rs builds, and the check of crates/einvoice-client.
use tw_einvoice_rs.Base.{
  suc, ◌<◌, ◌≡◌, ◌↔◌, sym, ap, ◌∙◌, List, [], ◌∷◌, Str, codes, length, Result, ok, map_err, use_ok,
  ok_of-map_err, eq_of_ok, pos, subst,
}
use tw_einvoice_rs.Core.{version_str}
use tw_einvoice_rs.Envelope.{MigPayload, new_payload, new_envelope, new_envelope_iff, count}
use tw_einvoice_rs.Transport.PackFilename.{TurnkeyPackFilename}
use tw_einvoice_rs.Transport.PackFilename as PackFilename
use tw_einvoice_rs.Client.{SubmissionPlan, validate_plan}
use tw_einvoice_rs.Client.Consistency.{validate_plan_iff}
use tw_einvoice_rs.Cli.{CommonPrepareArgs}
use tw_einvoice_rs.Cli.Prepare.{
  RunError, io_failed, filename_failed, envelope_failed, read_payloads, routing_of, pack_metadata,
  build_submission_plan,
}

-- What is known of a plan that was built.
record IsBuilt (args : CommonPrepareArgs) (plan : SubmissionPlan) : Type 0 where
  parsed : PackFilename.parse args.filename ≡ ok plan.filename
  type : plan.envelope.metadata.message_type ≡ plan.filename.common_name.message_type
  version : version_str plan.envelope.metadata.version ≡ codes "4.1"
  from : plan.envelope.routing.from.identifier ≡ plan.filename.from_party
  to : plan.envelope.routing.to.identifier ≡ plan.filename.to_party
  counted : count plan.envelope ≡ length args.mig
  positive : 0 < count plan.envelope

module _ {I K E X : Type 0} (read_file : Str → Result Str I) where
  length-read_payloads :
      (paths : List Str) (ps : List MigPayload)
      → ◌≡◌ {A = Result (List MigPayload) (RunError I K E X)}
          (read_payloads read_file paths)
          (ok ps)
      → length ps ≡ length paths
  unfolding read_payloads
  length-read_payloads [] ps h = ap length (sym (eq_of_ok h))
  length-read_payloads (path ∷ paths) ps h =
      use_ok (map_err io_failed (read_file path)) _ h λ bytes _ h1.
        use_ok (map_err envelope_failed (new_payload bytes)) _ h1 λ payload _ h2.
          use_ok (read_payloads read_file paths) _ h2
            λ rest e h3. ap length (sym (eq_of_ok h3)) ∙ ap suc (length-read_payloads paths rest e)

  build-IsBuilt :
      (args : CommonPrepareArgs) (plan : SubmissionPlan)
      → ◌≡◌ {A = Result SubmissionPlan (RunError I K E X)}
          (build_submission_plan read_file args)
          (ok plan)
      → IsBuilt args plan
  unfolding build_submission_plan
  build-IsBuilt args plan h =
      use_ok (map_err filename_failed (PackFilename.parse args.filename)) _ h λ f e h1.
        use_ok (read_payloads read_file args.mig) _ h1 λ ps e1 h2.
          use_ok (map_err envelope_failed (new_envelope (routing_of args f) (pack_metadata f) ps)) _
            h2
            λ env e2 h3.
              let made =
                (new_envelope_iff (routing_of args f) (pack_metadata f) ps env).0
                  (ok_of-map_err envelope_failed _ e2) in
              subst (IsBuilt args) (eq_of_ok h3) (record {
                parsed = ok_of-map_err filename_failed _ e;
                type = ap (λ v. v.metadata.message_type) (sym made.2);
                version = ap (λ v. version_str v.metadata.version) (sym made.2);
                from = ap (λ v. v.routing.from.identifier) (sym made.2);
                to = ap (λ v. v.routing.to.identifier) (sym made.2);
                counted = ap (λ v. count v) (sym made.2) ∙ length-read_payloads args.mig ps e1;
                positive = subst (λ v. 0 < count v) made.2 made.0;
              })

  -- A plan that was built passes the check exactly if the name of the pack says version 4.1 and the
  -- number of the payloads: the other conditions hold of what the program builds.
  pub build_submission_plan_iff :
      (args : CommonPrepareArgs) (plan : SubmissionPlan)
      → ◌≡◌ {A = Result SubmissionPlan (RunError I K E X)}
          (build_submission_plan read_file args)
          (ok plan)
      → (validate_plan plan ≡ ok tt) ↔ (
          (plan.filename.pack_count ≡ pos (length args.mig))
          × (plan.filename.common_name.mig_version ≡ codes "4.1"))
  build_submission_plan_iff args plan h =
      let b = build-IsBuilt args plan h in
      (
        λ v. let a = (validate_plan_iff plan).0 v in (a.0 ∙ ap pos b.counted, a.3 ∙ b.version),
        λ k. (validate_plan_iff plan).1 (
          k.0 ∙ ap pos (sym b.counted),
          b.positive,
          sym b.type,
          k.1 ∙ sym b.version,
          sym b.from,
          sym b.to,
        ),
      )
