-- ===== src/State/Cases.antt =====
-- What `apply_process_result` and `apply_summary_message` can do, case by case.
use mathlib.Core.Logic.{if_pos, if_neg}
use tw_einvoice_rs.Base.{
  ℕ, ◌+◌, ◌≡◌, ◌≢◌, refl, ◌⊎◌, inl, inr, true, false, some, [], ◌∷◌, ◌++◌, pos, str_eq, str_eq_iff,
  Bool-cases, ok, err, arith,
}
use tw_einvoice_rs.Results.{ProcessResult, SummaryMessage, validation_issues, is_consistent}
use tw_einvoice_rs.Results.Consistency.{IsConsistent, InRange, is_consistent_iff}
use tw_einvoice_rs.State.{
  TerminalSummary, TerminalSummary-discrete, conflicting_terminal_summary, SubmissionRecord,
  message_id_mismatch, inconsistent_summary, unchanged_replay, changed, disposition_of,
  process_observed, from_validated_message, ensure_message_id, contains_result, advance_transport,
  settle, apply_process_result, apply_summary_message,
}

-- What a terminal summary records of the message that it stands for.
pub record IsSummaryOf (t : TerminalSummary) (m : SummaryMessage) (expected : ℕ) : Type 0 where
  pub message : t.message ≡ m
  pub total_adds_up : t.total ≡ t.good + t.failed
  pub total_expected : t.total ≡ expected
  pub total_counts : m.result.total.count ≡ pos t.total
  pub good_counts : m.result.good.count ≡ pos t.good
  pub failed_counts : m.result.failed.count ≡ pos t.failed
  pub good_lists : t.good_invoices ≡ m.result.good.invoices
  pub failed_lists : t.failed_invoices ≡ m.result.failed.invoices
  pub outcome : t.disposition ≡ disposition_of t.good t.failed

pub from_validated_message-IsSummaryOf :
    (m : SummaryMessage) (e : ℕ)
    → IsConsistent m (some e)
    → (t : TerminalSummary) × (from_validated_message m ≡ some t) × IsSummaryOf t m e
unfolding from_validated_message
from_validated_message-IsSummaryOf m e v =
    let t : TerminalSummary = record {
      disposition = disposition_of v.good v.failed;
      total = v.good + v.failed;
      good = v.good;
      failed = v.failed;
      good_invoices = m.result.good.invoices;
      failed_invoices = m.result.failed.invoices;
      message = m;
    } in
    (
      t,
      rw (v.total_detail.counts, v.good_detail.counts, v.failed_detail.counts),
      record {
        message = refl;
        total_adds_up = refl;
        total_expected = v.quantity;
        total_counts = v.total_detail.counts;
        good_counts = v.good_detail.counts;
        failed_counts = v.failed_detail.counts;
        good_lists = refl;
        failed_lists = refl;
        outcome = refl;
      },
    )

pub data SummaryCase (r : SubmissionRecord) (m : SummaryMessage) : Type 0 where
  foreign :
      m.info.id ≢ r.message_id
      → apply_summary_message r m ≡ some (r, err (message_id_mismatch r.message_id m.info.id))
      → SummaryCase r m
  inconsistent :
      m.info.id ≡ r.message_id
      → ¬ IsConsistent m (some r.expected_quantity)
      → apply_summary_message r m
        ≡ some (
          r,
          err (inconsistent_summary r.message_id (validation_issues m (some r.expected_quantity))),
        )
      → SummaryCase r m
  settled :
      (t : TerminalSummary)
      → m.info.id ≡ r.message_id
      → IsConsistent m (some r.expected_quantity)
      → from_validated_message m ≡ some t
      → IsSummaryOf t m r.expected_quantity
      → apply_summary_message r m ≡ some (settle r r.terminal t)
      → SummaryCase r m

message_settles :
    (r : SubmissionRecord) (m : SummaryMessage) (t : TerminalSummary)
    → str_eq m.info.id r.message_id ≡ true
    → is_consistent m (some r.expected_quantity) ≡ true
    → from_validated_message m ≡ some t
    → apply_summary_message r m ≡ some (settle r r.terminal t)
unfolding apply_summary_message ensure_message_id is_consistent
message_settles r m t hit good made = ground arith

message_refused :
    (r : SubmissionRecord) (m : SummaryMessage)
    → str_eq m.info.id r.message_id ≡ true
    → is_consistent m (some r.expected_quantity) ≡ false
    → apply_summary_message r m
      ≡ some (
        r,
        err (inconsistent_summary r.message_id (validation_issues m (some r.expected_quantity))),
      )
unfolding apply_summary_message ensure_message_id is_consistent
message_refused r m hit bad = ground arith

pub apply_summary_message_cases :
    (r : SubmissionRecord) (m : SummaryMessage) → InRange m → SummaryCase r m
apply_summary_message_cases r m range = elim (Bool-cases (str_eq m.info.id r.message_id)) [
  | inr miss ↦
      foreign (λ e. cc ((str_eq_iff _ _).1 e, miss))
        (unfold apply_summary_message ensure_message_id in ground arith)
  | inl hit ↦ elim (Bool-cases (is_consistent m (some r.expected_quantity))) [
    | inr bad ↦
        inconsistent ((str_eq_iff _ _).0 hit) (λ v. cc ((is_consistent_iff m _ range).1 v, bad))
          (message_refused r m hit bad)
    | inl good ↦
        let v = (is_consistent_iff m (some r.expected_quantity) range).0 good in
        let (t, made, summary) = from_validated_message-IsSummaryOf m r.expected_quantity v in
        settled t ((str_eq_iff _ _).0 hit) v made summary (message_settles r m t hit good made)
  ]
]

-- A settled record is left alone, whether the same summary comes again or another one.
pub settle_again :
    (r : SubmissionRecord) (old t : TerminalSummary)
    → ((old ≡ t) × (settle r (some old) t ≡ (r, ok unchanged_replay)))
      ⊎ ((old ≢ t)
          × (settle r (some old) t ≡ (r, err (conflicting_terminal_summary r.message_id old t))))
unfolding settle
settle_again r old t = elim (TerminalSummary-discrete old t) [
  | yes same ↦ inl (same, rw (if_pos _ same))
  | no other ↦ inr (other, rw (if_neg _ other))
]

pub data ProcessCase (r : SubmissionRecord) (p : ProcessResult) : Type 0 where
  foreign :
      p.message.id ≢ r.message_id
      → apply_process_result r p ≡ (r, err (message_id_mismatch r.message_id p.message.id))
      → ProcessCase r p
  replayed :
      p.message.id ≡ r.message_id
      → contains_result p r.process_results ≡ true
      → apply_process_result r p ≡ (r, ok unchanged_replay)
      → ProcessCase r p
  recorded :
      p.message.id ≡ r.message_id
      → contains_result p r.process_results ≡ false
      → apply_process_result r p ≡ (
        (advance_transport
            (record r { process_results = r.process_results ++ p ∷ [] })
            process_observed).0,
        ok changed,
      )
      → ProcessCase r p

pub apply_process_result_cases : (r : SubmissionRecord) (p : ProcessResult) → ProcessCase r p
apply_process_result_cases r p = elim (Bool-cases (str_eq p.message.id r.message_id)) [
  | inr miss ↦
      ProcessCase.foreign (λ e. cc ((str_eq_iff _ _).1 e, miss))
        (unfold apply_process_result ensure_message_id in ground arith)
  | inl hit ↦ elim (Bool-cases (contains_result p r.process_results)) [
    | inl old ↦
        replayed ((str_eq_iff _ _).0 hit) old
          (unfold apply_process_result ensure_message_id in ground arith)
    | inr fresh ↦
        recorded ((str_eq_iff _ _).0 hit) fresh
          (unfold apply_process_result ensure_message_id in ground arith)
  ]
]
