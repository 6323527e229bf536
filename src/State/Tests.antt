-- ===== src/State/Tests.antt =====
-- Runs of the submission record, and the theorems of State at concrete inputs.
use tw_einvoice_rs.Base.{
  ℕ, ◌≡◌, refl, ◌↔◌, true, none, some, List, [], ◌∷◌, codes, Str, pos, ok, err, wrap_i32, arith,
}
use tw_einvoice_rs.Results.{
  ResultRouting, ProcessResult, SummaryMessage, ResultDetail, expected_quantity_mismatch,
  validation_issues, detail_issues, total_issues, quantity_issues, is_consistent,
}
use tw_einvoice_rs.Results.Consistency.{IsConsistent, is_consistent_iff}
use tw_einvoice_rs.State.Invariant.{IsWellFormed, run-IsWellFormed}
use tw_einvoice_rs.State.Replay.{Extends, run-Extends, apply_summary_message_replay}
use tw_einvoice_rs.State.Errors.{
  Accepts, Fits, apply_summary_message-Accepts_iff, apply_summary_result_error,
}
use tw_einvoice_rs.State.Selection.{apply_summary_result_unique, apply_summary_result_duplicate}
use tw_einvoice_rs.State.Order.{process_message_comm}
use tw_einvoice_rs.State.{
  TerminalSummary, partial_success, inconsistent_summary, duplicate_summary_message,
  summary_message_missing, created, uploaded, prepared, process_observed, summary_observed,
  SubmissionRecord, Call, advances, applies_process, applies_message, applies_summary, new, run,
  step, unchanged_replay, changed, apply_process_result, apply_summary_message,
  apply_summary_result, ensure_message_id, contains_result, advance_transport,
  from_validated_message, settle, matching, select,
}

abbrev message_id : Str
message_id = codes "M1"

abbrev routing : ResultRouting
routing = record {
  from = record { party_id = codes "12345678"; description = none };
  from_vac = record { routing_id = codes "FROM"; description = none };
  to = record { party_id = codes "PLATFORM"; description = none };
  to_vac = record { routing_id = codes "TO"; description = none };
}

abbrev process : ProcessResult
process = record {
  routing = routing;
  message = record {
    id = message_id;
    size = codes "123";
    message_type = codes "F0401";
    service = codes "S";
    action = codes "C0401";
  };
  diagnostics = [];
}

abbrev bucket : ℕ → ResultDetail
bucket n = record { count = pos n; invoices = [] }

abbrev summary : Str → ℕ → ℕ → ℕ → SummaryMessage
summary id t g f = record {
  info = record {
    id = id;
    size = codes "123";
    message_type = codes "F0401";
    service = codes "S";
    action = codes "C0401";
  };
  result = record { total = bucket t; good = bucket g; failed = bucket f };
}

abbrev partial : SummaryMessage
partial = summary message_id 2 1 1

abbrev fresh : SubmissionRecord
fresh = record {
  message_id = message_id;
  expected_quantity = 2;
  transport = created;
  process_results = [];
  terminal = none;
}

new_record : new message_id 2 ≡ ok fresh
unfolding new
new_record = refl

abbrev history : List Call
history =
    advances uploaded
    ∷ applies_process process
    ∷ advances prepared
    ∷ applies_summary
        (record { routing = routing; messages = summary (codes "M2") 1 1 0 ∷ partial ∷ [] })
    ∷ []

partial_consistent : is_consistent partial (some 2) ≡ true
unfolding is_consistent validation_issues detail_issues total_issues quantity_issues wrap_i32
partial_consistent = refl

is_consistent_iff_example : (is_consistent partial (some 2) ≡ true) ↔ IsConsistent partial (some 2)
is_consistent_iff_example = is_consistent_iff partial (some 2) (omega arith)

run-IsWellFormed_example : (s : SubmissionRecord) × (run fresh history ≡ some s) × IsWellFormed s
run-IsWellFormed_example = run-IsWellFormed message_id 2 history new_record (omega arith)

-- `fresh` after the history of one process result, and of one summary.
abbrev observed : SubmissionRecord
observed = record fresh { process_results = process ∷ []; transport = process_observed }

abbrev partial_summary : TerminalSummary
partial_summary = record {
  disposition = partial_success;
  total = 2;
  good = 1;
  failed = 1;
  good_invoices = [];
  failed_invoices = [];
  message = partial;
}

abbrev finished : SubmissionRecord
finished = record fresh { terminal = some partial_summary; transport = summary_observed }

process_changes : apply_process_result fresh process ≡ (observed, ok changed)
unfolding apply_process_result ensure_message_id contains_result advance_transport
process_changes = refl

summary_changes : apply_summary_message fresh partial ≡ some (finished, ok changed)
unfolding apply_summary_message ensure_message_id validation_issues detail_issues total_issues
    quantity_issues wrap_i32 from_validated_message settle advance_transport
summary_changes = refl

summary_refused :
    apply_summary_message finished (summary message_id 3 2 1)
    ≡ some (
      finished,
      err (inconsistent_summary message_id (expected_quantity_mismatch 2 (pos 3) ∷ [])),
    )
unfolding apply_summary_message ensure_message_id validation_issues detail_issues total_issues
    quantity_issues wrap_i32
summary_refused = refl

run-Extends_example : Extends fresh observed
unfolding run step apply_process_result ensure_message_id contains_result advance_transport
run-Extends_example = run-Extends fresh (applies_process process ∷ []) (omega arith) refl

apply_summary_message-Accepts_iff_example : Accepts (apply_summary_message fresh partial) ↔ (
    (message_id ≡ message_id)
    × IsConsistent partial (some 2)
    × Fits none (from_validated_message partial))
apply_summary_message-Accepts_iff_example =
    apply_summary_message-Accepts_iff fresh partial (omega arith)

apply_summary_message_replay_example :
    apply_summary_message finished partial ≡ some (finished, ok unchanged_replay)
apply_summary_message_replay_example =
    apply_summary_message_replay fresh partial (omega arith) summary_changes

apply_summary_result_unique_example :
    apply_summary_result fresh
      (record { routing = routing; messages = summary (codes "M2") 1 1 0 ∷ partial ∷ [] })
    ≡ apply_summary_message fresh partial
apply_summary_result_unique_example =
    apply_summary_result_unique fresh _ partial (summary (codes "M2") 1 1 0 ∷ []) [] refl refl
      (λ e. ground arith, tt) tt

apply_summary_result_duplicate_example :
    apply_summary_result fresh (record { routing = routing; messages = partial ∷ partial ∷ [] })
    ≡ some (fresh, err (duplicate_summary_message message_id 2))
unfolding matching
apply_summary_result_duplicate_example =
    apply_summary_result_duplicate fresh
      (record { routing = routing; messages = partial ∷ partial ∷ [] }) partial partial [] [] []
      refl refl refl

apply_summary_result_error_example : finished ≡ finished
unfolding apply_summary_result select matching
apply_summary_result_error_example =
    apply_summary_result_error finished (record { routing = routing; messages = [] }) {s = finished}
      {x = summary_message_missing message_id} tt refl

process_message_comm_example :
    run fresh (applies_process process ∷ applies_message partial ∷ [])
    ≡ run fresh (applies_message partial ∷ applies_process process ∷ [])
process_message_comm_example = process_message_comm fresh process partial
